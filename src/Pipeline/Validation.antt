-- ===== src/Pipeline/Validation.antt =====
-- The local validation of the generated SQL: manifest_sql_validation.py.
use repchat.Prelude.{String, Bool, true, false, Option, none, some, if◌then◌else◌}
use repchat.Diagnostic.{Category, Code, sql_diagnostic, unauthorized_reference, dangerous_sql}
use repchat.Outcome.{sql_validation}
use repchat.Outcome.Diagnosed.{same_category}
use repchat.Pipeline.Attempts.{Failure, Contract, Section, GeneratedAttempt, ValidatedAttempt}
use repchat.Pipeline.Result.{Result, ok, err, ◌>>=◌, incomplete_output, no_normalized_sql}
use repchat.Pipeline.Boundary.{Boundary, policy_of}
use repchat.BigQuery.Validation.{Policy}

-- `diagnostic.category is …`
abbrev pub has_category : Category → Code → Bool
has_category k c = same_category (sql_diagnostic c).category k

-- `_failed_attempt` of manifest_sql_validation.py, with the evidence flags.
abbrev pub failed_validation : GeneratedAttempt → Failure → ValidatedAttempt
failed_validation a f = record {
  generated_attempt = a;
  validated_sql = none;
  failure = some f;
  unauthorized_reference = false;
  dangerous_sql = false;
  semantic_error = false;
  diagnostic = none;
}

abbrev pub validation_failed : Failure
validation_failed = record { stage = sql_validation; code = "sql_validation_failed" }

abbrev pub semantic_validation : GeneratedAttempt → ValidatedAttempt
semantic_validation a = record (failed_validation a validation_failed) { semantic_error = true }

abbrev pub refuse_validation : GeneratedAttempt → Code → ValidatedAttempt
refuse_validation a k = record (failed_validation a validation_failed) {
  unauthorized_reference = has_category unauthorized_reference k;
  dangerous_sql = has_category dangerous_sql k;
  diagnostic = some k;
}

abbrev pub read_validation :
    Boundary
    → GeneratedAttempt
    → Policy
    → Section
    → Option String × Option Code
    → Result ValidatedAttempt
read_validation b a p s (t, some k) = ok (refuse_validation a k)
read_validation b a p s (none, none) = err no_normalized_sql
read_validation b a p s (some t, none) =
    if b.period_refused t p
    then ok (semantic_validation a)
    else if b.dashboard_refused s t p
    then ok (semantic_validation a)
    else ok (record {
      generated_attempt = a;
      validated_sql = some t;
      failure = none;
      unauthorized_reference = false;
      dangerous_sql = false;
      semantic_error = false;
      diagnostic = none;
    })

abbrev pub validate_parts :
    Boundary
    → GeneratedAttempt
    → Option Contract
    → Option Section
    → Option String
    → Result ValidatedAttempt
validate_parts b a (some c) (some s) (some sql) = do
  p ← policy_of (b.execution_policy c)
  read_validation b a p s (b.validate_sql sql p)
validate_parts b a _ _ _ = err incomplete_output

abbrev pub validate_step :
    Boundary
    → GeneratedAttempt
    → Option Failure
    → Option Contract
    → Option Section
    → Option String
    → Result ValidatedAttempt
validate_step b a (some f) c s sql = ok (failed_validation a f)
validate_step b a none c s sql = validate_parts b a c s sql

-- `_validate_attempt` of manifest_sql_validation.py
unfoldable pub validate_attempt : Boundary → GeneratedAttempt → Result ValidatedAttempt
unfolding sql_diagnostic
validate_attempt b a =
    validate_step b a a.failure a.planned_attempt.preflight_attempt.result.contract a.section
      a.generated_sql
