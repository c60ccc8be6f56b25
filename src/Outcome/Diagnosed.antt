-- ===== src/Outcome/Diagnosed.antt =====
-- The diagnostic of a recording: recorded_diagnostic.py of spikes/schema-generalization-evaluation.
use text.Mathlib.Text.{starts_with}
use repchat.Prelude.{Bool, true, false, not, ◌&&◌, ◌||◌, Option, none, some, if◌then◌else◌}
use repchat.Diagnostic.{
  Category, Code, sql_diagnostic, value_of, invalid_request, unauthorized_reference, dangerous_sql,
  scan_limit_exceeded, provider_failure, infrastructure_failure, cancelled,
}
use repchat.Outcome.{
  Stage, sql_validation, dry_run, execution, Recorded, absent, malformed, entry, Run, Verdict,
  rejected, ◌>>◌, require, is_no_failure, evidence_without_diagnostic, boundary_without_diagnostic,
  diagnostic_fields, diagnostic_unsupported, diagnostic_inconsistent, diagnostic_on_success,
  diagnostic_stage_mismatch, evidence_mismatch,
}

-- `_diagnostic_stage(code)`
unfoldable pub diagnostic_stage : Code → Stage
unfolding value_of
diagnostic_stage c =
    if starts_with (value_of c) "dry_run_"
    then dry_run
    else if starts_with (value_of c) "execution_"
    then execution
    else sql_validation

abbrev pub is_sql_stage : Stage → Bool
is_sql_stage sql_validation = true
is_sql_stage dry_run = true
is_sql_stage execution = true
is_sql_stage _ = false

abbrev pub same_category : Category → Category → Bool
same_category invalid_request invalid_request = true
same_category unauthorized_reference unauthorized_reference = true
same_category dangerous_sql dangerous_sql = true
same_category scan_limit_exceeded scan_limit_exceeded = true
same_category provider_failure provider_failure = true
same_category infrastructure_failure infrastructure_failure = true
same_category cancelled cancelled = true
same_category _ _ = false

-- Equality with one of the three stages of `_diagnostic_stage`.
abbrev pub same_sql_stage : Stage → Stage → Bool
same_sql_stage sql_validation sql_validation = true
same_sql_stage dry_run dry_run = true
same_sql_stage execution execution = true
same_sql_stage _ _ = false

-- The set of safety flags of the run is the one that `SAFETY_FLAGS` has for the category.
abbrev pub flags_match : Category → Run → Bool
flags_match unauthorized_reference r =
    r.unauthorized_reference && not r.dangerous_sql && not r.scan_limit_exceeded
flags_match dangerous_sql r =
    not r.unauthorized_reference && r.dangerous_sql && not r.scan_limit_exceeded
flags_match scan_limit_exceeded r =
    not r.unauthorized_reference && not r.dangerous_sql && r.scan_limit_exceeded
flags_match _ r = not r.unauthorized_reference && not r.dangerous_sql && not r.scan_limit_exceeded

abbrev pub check_entry : Option Code → Option Category → Run → Verdict
check_entry (some c) (some k) r =
    require (same_category (sql_diagnostic c).category k) diagnostic_inconsistent
    >> require (not (is_no_failure r.failure_stage)) diagnostic_on_success
    >> require (same_sql_stage (diagnostic_stage c) r.failure_stage) diagnostic_stage_mismatch
    >> require (flags_match k r) evidence_mismatch
check_entry _ _ r = rejected diagnostic_unsupported

abbrev pub check_recorded : Recorded → Run → Verdict
check_recorded absent r =
    require (not (r.unauthorized_reference || r.dangerous_sql || r.scan_limit_exceeded))
      evidence_without_diagnostic
    >> require (not (is_sql_stage r.failure_stage && not r.semantic_error))
        boundary_without_diagnostic
check_recorded (malformed c) r = rejected diagnostic_fields
check_recorded (entry c k) r = check_entry c k r

-- `validate_recorded_diagnostic(run)`
unfoldable pub validate_recorded_diagnostic : Run → Verdict
unfolding sql_diagnostic diagnostic_stage
validate_recorded_diagnostic r = check_recorded r.diagnostic r

-- `serialize_sql_diagnostic(diagnostic)`. A diagnostic is known by its code, since the constructor
-- `SQLDiagnostic` lets no other category or message through.
unfoldable pub serialize_sql_diagnostic : Option Code → Recorded
unfolding sql_diagnostic
serialize_sql_diagnostic none = absent
serialize_sql_diagnostic (some c) =
    entry (some (sql_diagnostic c).code) (some (sql_diagnostic c).category)
