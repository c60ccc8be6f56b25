-- ===== src/Pipeline/Run.antt =====
-- The result validation and the rendering, and the whole of one planned run:
-- manifest_result_validation.py and manifest_rendering.py.
use Prim.Native.Nat.{min}
use repchat.Prelude.{ℕ, String, Bool, true, false, Option, none, some, List}
use repchat.Outcome.{Fingerprints, Row}
use repchat.Pipeline.Attempts.{
  Failure, Contract, PreflightResult, PreflightAttempt, Section, ExecutionAttempt, DashboardResult,
  ResultAttempt, RenderingAttempt,
}
use repchat.Pipeline.Result.{Result, ok, err, ◌>>=◌, incomplete_output, call_raised}
use repchat.Pipeline.Boundary.{
  Boundary, Rendering, rendered, renderer_infrastructure, renderer_raised, policy_of,
}
use repchat.Pipeline.Stages.{run_preflight, plan_attempt, generate_attempt}
use repchat.Pipeline.Validation.{validate_attempt}
use repchat.Pipeline.Inspection.{
  result_failed, rendering_failed, renderer_failed, dry_run_attempt, row_limit, execute_attempt,
}

abbrev pub failed_result : ExecutionAttempt → Failure → Bool → ResultAttempt
failed_result a f semantic = record {
  execution_attempt = a;
  rows = none;
  columns = none;
  visualization = none;
  bytes_processed = a.bytes_processed;
  failure = some f;
  semantic_error = semantic;
}

abbrev pub read_result : ExecutionAttempt → Option DashboardResult → ResultAttempt
read_result a none = failed_result a result_failed true
read_result a (some q) = record {
  execution_attempt = a;
  rows = some q.rows;
  columns = some q.columns;
  visualization = some q.visualization;
  bytes_processed = a.bytes_processed;
  failure = none;
  semantic_error = false;
}

abbrev pub result_parts :
    Boundary
    → ExecutionAttempt
    → Option Contract
    → Option Section
    → Option (List Row)
    → Option (List String)
    → Option ℕ
    → Result ResultAttempt
result_parts b a (some c) (some s) (some rows) (some columns) (some n) = do
  p ← policy_of (b.execution_policy c)
  limit ← row_limit s.max_result_rows
  ok (read_result a (b.validate_result s rows columns (min limit p.maximum_result_rows) p))
result_parts b a _ _ _ _ _ = err incomplete_output

abbrev pub result_step :
    Boundary
    → ExecutionAttempt
    → Option Failure
    → Option Contract
    → Option Section
    → Option (List Row)
    → Option (List String)
    → Option ℕ
    → Result ResultAttempt
result_step b a (some f) c s rows columns n = ok (failed_result a f false)
result_step b a none c s rows columns n = result_parts b a c s rows columns n

-- `_validate_attempt` of manifest_result_validation.py
unfoldable pub result_attempt : Boundary → ExecutionAttempt → Result ResultAttempt
result_attempt b a =
    let g = a.dry_run_attempt.validated_attempt.generated_attempt in
    result_step b a a.failure g.planned_attempt.preflight_attempt.result.contract g.section a.rows
      a.columns a.bytes_processed

abbrev pub unrendered : ResultAttempt → Failure → RenderingAttempt
unrendered a f = record { result_attempt = a; render_succeeded = false; failure = some f }

abbrev pub read_rendering : ResultAttempt → Rendering → Result RenderingAttempt
read_rendering a renderer_infrastructure = ok (unrendered a renderer_failed)
read_rendering a renderer_raised = err call_raised
read_rendering a (rendered false) = ok (unrendered a rendering_failed)
read_rendering a (rendered true) =
    ok (record { result_attempt = a; render_succeeded = true; failure = none })

abbrev pub render_parts :
    Boundary
    → ResultAttempt
    → Option (List Row)
    → Option (List String)
    → Option String
    → Result RenderingAttempt
render_parts b a (some rows) (some columns) (some v) = read_rendering a (b.render v columns rows)
render_parts b a _ _ _ = err incomplete_output

abbrev pub render_step :
    Boundary
    → ResultAttempt
    → Option Failure
    → Option (List Row)
    → Option (List String)
    → Option String
    → Result RenderingAttempt
render_step b a (some f) rows columns v = ok (unrendered a f)
render_step b a none rows columns v = render_parts b a rows columns v

-- `_render_attempt` of manifest_rendering.py
unfoldable pub render_attempt : Boundary → ResultAttempt → Result RenderingAttempt
render_attempt b a = render_step b a a.failure a.rows a.columns a.visualization

-- One planned run.
pub record PlannedRun : Type 0 where
  pub schema_id : String
  pub case_id : String
  pub run_id : String
  pub question : String
  pub pipeline_fingerprints : Fingerprints

abbrev pub attempt_of : PlannedRun → PreflightResult → PreflightAttempt
attempt_of p r = record {
  schema_id = p.schema_id;
  case_id = p.case_id;
  run_id = p.run_id;
  pipeline_fingerprints = p.pipeline_fingerprints;
  result = r;
}

-- The attempt that `run_manifest_preflights` makes for one planned run.
abbrev pub preflight_attempt : Boundary → PlannedRun → PreflightAttempt
preflight_attempt b p = attempt_of p (run_preflight b p.question)

-- `run_manifest_rendering` on a manifest of one planned run, through the default runners.
unfoldable pub run_rendering : Boundary → PlannedRun → Result RenderingAttempt
run_rendering b p = do
  planned ← plan_attempt b (preflight_attempt b p)
  generated ← generate_attempt b planned
  validated ← validate_attempt b generated
  inspected ← dry_run_attempt b validated
  executed ← execute_attempt b inspected
  checked ← result_attempt b executed
  render_attempt b checked
