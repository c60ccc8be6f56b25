-- ===== src/Pipeline/Inspection.antt =====
-- The dry run and the execution: manifest_dry_run.py and manifest_execution.py.
use Prim.Native.Nat.{min}
use repchat.Prelude.{ℕ, ◌+◌, String, true, false, Option, none, some, List, leb, if◌then◌else◌}
use repchat.Diagnostic.{
  Code, sql_diagnostic, unauthorized_reference, dangerous_sql, scan_limit_exceeded,
}
use repchat.Outcome.{dry_run, execution, result_validation, rendering}
use repchat.Pipeline.Attempts.{
  Failure, Contract, Section, ValidatedAttempt, Inspection, DryRunAttempt, QueryExecution,
  ExecutionAttempt,
}
use repchat.Pipeline.Result.{
  Result, ok, err, ◌>>=◌, incomplete_output, row_limit_invalid, no_inspection, no_execution,
}
use repchat.Pipeline.Boundary.{Boundary, policy_of}
use repchat.BigQuery.Validation.{Policy}
use repchat.Pipeline.Validation.{has_category}

abbrev pub dry_run_failed : Failure
dry_run_failed = record { stage = dry_run; code = "dry_run_failed" }

abbrev pub execution_failed : Failure
execution_failed = record { stage = execution; code = "execution_failed" }

abbrev pub result_failed : Failure
result_failed = record { stage = result_validation; code = "result_validation_failed" }

abbrev pub rendering_failed : Failure
rendering_failed = record { stage = rendering; code = "rendering_failed" }

abbrev pub renderer_failed : Failure
renderer_failed = record { stage = rendering; code = "renderer_infrastructure_failed" }

-- `_upstream_failure` of manifest_dry_run.py
abbrev pub upstream_dry_run : ValidatedAttempt → Failure → DryRunAttempt
upstream_dry_run a f = record {
  validated_attempt = a;
  dry_run_schema = none;
  estimated_bytes_processed = none;
  failure = some f;
  unauthorized_reference = a.unauthorized_reference;
  dangerous_sql = a.dangerous_sql;
  scan_limit_exceeded = false;
  semantic_error = a.semantic_error;
  diagnostic = a.diagnostic;
}

abbrev pub schema_of : Option Inspection → Option (List (List String))
schema_of none = none
schema_of (some i) = some i.schema

abbrev pub bytes_of : Option Inspection → Option ℕ
bytes_of none = none
bytes_of (some i) = some i.estimated_bytes_processed

-- `_dry_run_failure`, with no evidence flag set.
abbrev pub failed_dry_run : ValidatedAttempt → Option Inspection → DryRunAttempt
failed_dry_run a i = record {
  validated_attempt = a;
  dry_run_schema = schema_of i;
  estimated_bytes_processed = bytes_of i;
  failure = some dry_run_failed;
  unauthorized_reference = false;
  dangerous_sql = false;
  scan_limit_exceeded = false;
  semantic_error = false;
  diagnostic = none;
}

abbrev pub refuse_dry_run : ValidatedAttempt → Option Inspection → Code → DryRunAttempt
refuse_dry_run a i k = record (failed_dry_run a i) {
  unauthorized_reference = has_category unauthorized_reference k;
  dangerous_sql = has_category dangerous_sql k;
  scan_limit_exceeded = has_category scan_limit_exceeded k;
  diagnostic = some k;
}

abbrev pub semantic_dry_run : ValidatedAttempt → Inspection → DryRunAttempt
semantic_dry_run a i = record (failed_dry_run a (some i)) { semantic_error = true }

abbrev pub read_dry_run :
    Boundary
    → ValidatedAttempt
    → Policy
    → Section
    → Option Inspection × Option Code
    → Result DryRunAttempt
read_dry_run b a p s (i, some k) = ok (refuse_dry_run a i k)
read_dry_run b a p s (none, none) = err no_inspection
read_dry_run b a p s (some i, none) =
    if b.result_refused s i.schema p
    then ok (semantic_dry_run a i)
    else if b.schema_refused s i.schema
    then ok (semantic_dry_run a i)
    else ok (record {
      validated_attempt = a;
      dry_run_schema = some i.schema;
      estimated_bytes_processed = some i.estimated_bytes_processed;
      failure = none;
      unauthorized_reference = false;
      dangerous_sql = false;
      scan_limit_exceeded = false;
      semantic_error = false;
      diagnostic = none;
    })

abbrev pub dry_run_parts :
    Boundary
    → ValidatedAttempt
    → Option Contract
    → Option Section
    → Option String
    → Result DryRunAttempt
dry_run_parts b a (some c) (some s) (some sql) = do
  p ← policy_of (b.execution_policy c)
  read_dry_run b a p s (b.inspect_dry_run sql p)
dry_run_parts b a _ _ _ = err incomplete_output

abbrev pub dry_run_step :
    Boundary
    → ValidatedAttempt
    → Option Failure
    → Option Contract
    → Option Section
    → Option String
    → Result DryRunAttempt
dry_run_step b a (some f) c s sql = ok (upstream_dry_run a f)
dry_run_step b a none c s sql = dry_run_parts b a c s sql

-- `_dry_run_attempt` of manifest_dry_run.py
unfoldable pub dry_run_attempt : Boundary → ValidatedAttempt → Result DryRunAttempt
unfolding sql_diagnostic
dry_run_attempt b a =
    dry_run_step b a a.failure a.generated_attempt.planned_attempt.preflight_attempt.result.contract
      a.generated_attempt.section a.validated_sql

-- `_upstream_failure` of manifest_execution.py
abbrev pub upstream_execution : DryRunAttempt → Failure → ExecutionAttempt
upstream_execution a f = record {
  dry_run_attempt = a;
  rows = none;
  columns = none;
  bytes_processed = none;
  failure = some f;
  scan_limit_exceeded = a.scan_limit_exceeded;
  diagnostic = a.diagnostic;
}

-- `_execution_failure`, on a refusal.
abbrev pub refuse_execution : DryRunAttempt → Code → ExecutionAttempt
refuse_execution a k = record {
  dry_run_attempt = a;
  rows = none;
  columns = none;
  bytes_processed = none;
  failure = some execution_failed;
  scan_limit_exceeded = has_category scan_limit_exceeded k;
  diagnostic = some k;
}

abbrev pub read_execution :
    DryRunAttempt → Option QueryExecution × Option Code → Result ExecutionAttempt
read_execution a (x, some k) = ok (refuse_execution a k)
read_execution a (none, none) = err no_execution
read_execution a (some x, none) = ok (record {
  dry_run_attempt = a;
  rows = some x.rows;
  columns = some x.columns;
  bytes_processed = some x.bytes_processed;
  failure = none;
  scan_limit_exceeded = false;
  diagnostic = none;
})

-- `type(section_limit) is not int or section_limit < 1`
abbrev pub row_limit : Option ℕ → Result ℕ
row_limit none = err row_limit_invalid
row_limit (some n) = if leb 1 n then ok n else err row_limit_invalid

abbrev pub execute_parts :
    Boundary
    → DryRunAttempt
    → Option Contract
    → Option Section
    → Option String
    → Option (List (List String))
    → Option ℕ
    → Result ExecutionAttempt
execute_parts b a (some c) (some s) (some sql) (some schema) (some n) = do
  p ← policy_of (b.execution_policy c)
  limit ← row_limit s.max_result_rows
  read_execution a (b.execute sql (min limit p.maximum_result_rows + 1) p)
execute_parts b a _ _ _ _ _ = err incomplete_output

abbrev pub execute_step :
    Boundary
    → DryRunAttempt
    → Option Failure
    → Option Contract
    → Option Section
    → Option String
    → Option (List (List String))
    → Option ℕ
    → Result ExecutionAttempt
execute_step b a (some f) c s sql schema n = ok (upstream_execution a f)
execute_step b a none c s sql schema n = execute_parts b a c s sql schema n

-- `_execute_attempt` of manifest_execution.py
unfoldable pub execute_attempt : Boundary → DryRunAttempt → Result ExecutionAttempt
unfolding sql_diagnostic
execute_attempt b a =
    let g = a.validated_attempt.generated_attempt in
    execute_step b a a.failure g.planned_attempt.preflight_attempt.result.contract g.section
      a.validated_attempt.validated_sql a.dry_run_schema a.estimated_bytes_processed
