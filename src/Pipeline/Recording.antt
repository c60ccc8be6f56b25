-- ===== src/Pipeline/Recording.antt =====
-- `failure_recording` of each attempt, and `recording` of the last one. A recording of a stage that
-- failed earlier is the earlier attempt's. The bytes and the cost are those of a checked
-- measurement, so only the bound by the executed bytes is left to test. `failure_kind` and
-- `diagnostic` are not set here: they are `none` and `absent` until the artifacts are built.
use repchat.Prelude.{ℕ, String, Bool, true, false, Option, none, some, List, [], ltb, if◌then◌else◌}
use repchat.Outcome.{
  Stage, no_failure, planning, sql_generation, sql_validation, dry_run, execution,
  result_validation, Row, RuntimeInput, Run, absent,
}
use mathlib.Core.Option
use repchat.Pipeline.Result.{
  Result, ok, err, already_succeeded, incomplete_output, bytes_below_execution,
}
use repchat.Pipeline.Attempts.{
  Failure, Snapshot, Contract, PreflightResult, PreflightAttempt, PlannedAttempt, GeneratedAttempt,
  ValidatedAttempt, DryRunAttempt, ExecutionAttempt, ResultAttempt, RenderingAttempt,
}

-- A recording: the identity of the run and the `run` object.
pub record Recording : Type 0 where
  pub schema_id : String
  pub case_id : String
  pub run : Run

-- The measured accounting of one run.
pub record Measurement : Type 0 where
  pub bytes_processed : ℕ
  pub cost_jpy : ℕ

-- `self.failure_stage != STAGE`, for a failed attempt.
abbrev pub is_stage : Stage → Stage → Bool
is_stage planning planning = true
is_stage sql_generation sql_generation = true
is_stage sql_validation sql_validation = true
is_stage dry_run dry_run = true
is_stage execution execution = true
is_stage result_validation result_validation = true
is_stage _ _ = false

-- `runtime_input()`
abbrev pub runtime_input : PreflightResult → RuntimeInput
runtime_input p = record {
  scope_snapshot_fingerprint = Option.map (λ (d : Snapshot). d.fingerprint) p.discovery;
  analysis_contract_fingerprint = Option.map (λ (c : Contract). c.fingerprint) p.contract;
  question = p.question;
}

-- An optional text in a recording; the pipeline raises before it records a missing one.
abbrev pub text_of : Option String → String
text_of none = ""
text_of (some s) = s

-- The `run` object of a failure, with its evidence flags left unset.
abbrev pub failed_run : PreflightAttempt → String → Failure → Measurement → Run
failed_run a sql f m = record {
  run_id = a.run_id;
  fingerprints = a.pipeline_fingerprints;
  runtime_input = runtime_input a.result;
  generated_sql = sql;
  failure_stage = f.stage;
  failure_code = f.code;
  failure_kind = none;
  diagnostic = absent;
  sql_execution_succeeded = false;
  actual_rows = [];
  unauthorized_reference = false;
  dangerous_sql = false;
  scan_limit_exceeded = false;
  semantic_error = false;
  render_succeeded = false;
  bytes_processed = m.bytes_processed;
  cost_jpy = m.cost_jpy;
}

abbrev pub with_run : PreflightAttempt → Run → Recording
with_run a r = record { schema_id = a.schema_id; case_id = a.case_id; run = r }

-- `PreflightResult.failure_recording`
abbrev pub preflight_record : Option Failure → PreflightAttempt → Measurement → Result Recording
preflight_record none a m = err already_succeeded
preflight_record (some f) a m = ok (with_run a (failed_run a "" f m))

unfoldable pub record_preflight : PreflightAttempt → Measurement → Result Recording
record_preflight a m = preflight_record a.result.failure a m

-- `PlannedAnalysisAttempt.failure_recording`
abbrev pub planned_record : Option Failure → PlannedAttempt → Measurement → Result Recording
planned_record none a m = err already_succeeded
planned_record (some f) a m =
    if is_stage planning f.stage
    then ok (with_run a.preflight_attempt (failed_run a.preflight_attempt "" f m))
    else record_preflight a.preflight_attempt m

unfoldable pub record_planned : PlannedAttempt → Measurement → Result Recording
unfolding record_preflight
record_planned a m = planned_record a.failure a m

-- `GeneratedSQLAttempt.failure_recording`
abbrev pub generated_record : Option Failure → GeneratedAttempt → Measurement → Result Recording
generated_record none a m = err already_succeeded
generated_record (some f) a m =
    if is_stage sql_generation f.stage
    then (let p = a.planned_attempt.preflight_attempt in ok (with_run p (failed_run p "" f m)))
    else record_planned a.planned_attempt m

unfoldable pub record_generated : GeneratedAttempt → Measurement → Result Recording
unfolding record_planned
record_generated a m = generated_record a.failure a m

-- `ValidatedSQLAttempt.failure_recording`
abbrev pub validated_record : Option Failure → ValidatedAttempt → Measurement → Result Recording
validated_record none a m = err already_succeeded
validated_record (some f) a m =
    if is_stage sql_validation f.stage
    then (let p = a.generated_attempt.planned_attempt.preflight_attempt in
        let r = failed_run p (text_of a.generated_attempt.generated_sql) f m in
        ok (
          with_run p (record r {
            unauthorized_reference = a.unauthorized_reference;
            dangerous_sql = a.dangerous_sql;
            semantic_error = a.semantic_error;
          })))
    else record_generated a.generated_attempt m

unfoldable pub record_validated : ValidatedAttempt → Measurement → Result Recording
unfolding record_generated
record_validated a m = validated_record a.failure a m

-- `DryRunAttempt.failure_recording`
abbrev pub dry_run_record : Option Failure → DryRunAttempt → Measurement → Result Recording
dry_run_record none a m = err already_succeeded
dry_run_record (some f) a m =
    if is_stage dry_run f.stage
    then (let p = a.validated_attempt.generated_attempt.planned_attempt.preflight_attempt in
        let r = failed_run p (text_of a.validated_attempt.validated_sql) f m in
        ok (
          with_run p (record r {
            unauthorized_reference = a.unauthorized_reference;
            dangerous_sql = a.dangerous_sql;
            scan_limit_exceeded = a.scan_limit_exceeded;
            semantic_error = a.semantic_error;
          })))
    else record_validated a.validated_attempt m

unfoldable pub record_dry_run : DryRunAttempt → Measurement → Result Recording
unfolding record_validated
record_dry_run a m = dry_run_record a.failure a m

-- `ExecutionAttempt.failure_recording`
abbrev pub execution_record : Option Failure → ExecutionAttempt → Measurement → Result Recording
execution_record none a m = err already_succeeded
execution_record (some f) a m =
    if is_stage execution f.stage
    then (let v = a.dry_run_attempt.validated_attempt in
        let p = v.generated_attempt.planned_attempt.preflight_attempt in
        let r = failed_run p (text_of v.validated_sql) f m in
        ok (with_run p (record r { scan_limit_exceeded = a.scan_limit_exceeded })))
    else record_dry_run a.dry_run_attempt m

unfoldable pub record_execution : ExecutionAttempt → Measurement → Result Recording
unfolding record_dry_run
record_execution a m = execution_record a.failure a m

-- `bytes_processed < self.bytes_processed`, or no executed bytes.
abbrev pub below_executed : Option ℕ → ℕ → Bool
below_executed none n = true
below_executed (some b) n = ltb n b

-- `ResultValidationAttempt.failure_recording`
abbrev pub result_record : Option Failure → ResultAttempt → Measurement → Result Recording
result_record none a m = err already_succeeded
result_record (some f) a m =
    if is_stage result_validation f.stage
    then (let v = a.execution_attempt.dry_run_attempt.validated_attempt in
        let p = v.generated_attempt.planned_attempt.preflight_attempt in
        let r = failed_run p (text_of v.validated_sql) f m in
        if below_executed a.bytes_processed m.bytes_processed
        then err bytes_below_execution
        else ok (
            with_run p
              (record r { sql_execution_succeeded = true; semantic_error = a.semantic_error })))
    else record_execution a.execution_attempt m

unfoldable pub record_result : ResultAttempt → Measurement → Result Recording
unfolding record_execution
record_result a m = result_record a.failure a m

abbrev pub stage_of : Option Failure → Stage
stage_of none = no_failure
stage_of (some f) = f.stage

abbrev pub code_of : Option Failure → String
code_of none = ""
code_of (some f) = f.code

abbrev pub complete_record :
    RenderingAttempt
    → ResultAttempt
    → Option (List Row)
    → Option (List String)
    → Option String
    → Measurement
    → Result Recording
complete_record a q (some rows) (some columns) (some visualization) m =
    let v = q.execution_attempt.dry_run_attempt.validated_attempt in
    let p = v.generated_attempt.planned_attempt.preflight_attempt in
    let f : Failure = record { stage = stage_of a.failure; code = code_of a.failure } in
    let r = failed_run p (text_of v.validated_sql) f m in
    ok (
      with_run p (record r {
        sql_execution_succeeded = true;
        actual_rows = rows;
        render_succeeded = a.render_succeeded;
      }))
complete_record a q _ _ _ m = err incomplete_output

abbrev pub rendering_record : Option Failure → RenderingAttempt → Measurement → Result Recording
rendering_record (some f) a m = record_result a.result_attempt m
rendering_record none a m =
    let q = a.result_attempt in
    if below_executed q.bytes_processed m.bytes_processed
    then err bytes_below_execution
    else complete_record a q q.rows q.columns q.visualization m

-- `RenderingAttempt.recording`
unfoldable pub record_rendering : RenderingAttempt → Measurement → Result Recording
unfolding record_result
record_rendering a m = rendering_record a.result_attempt.failure a m
