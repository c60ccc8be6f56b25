-- ===== src/Pipeline/Tests.antt =====
-- Two planned runs against fixed answers of the boundary, and the theorems at them.
use repchat.Prelude.{◌≡◌, refl, true, false, none, some, [], ◌∷◌, arith}
use repchat.Text.{is_space, is_blank, strip, is_revision}
use repchat.BigQuery.Validation.{Policy}
use repchat.Pipeline.Attempts.{
  Snapshot, Contract, Plan, RenderingAttempt, PlannedAttempt, ValidatedAttempt, ExecutionAttempt,
}
use repchat.Pipeline.Result.{ok}
use repchat.Pipeline.Recording.{Measurement}
use repchat.Pipeline.Boundary.{
  Boundary, IsLawful, discovered, generated, Number, non_negative, plan_event, other_event, planned,
  Answer, answered, rendered,
}
use repchat.Pipeline.Accepted.{IsAccepted}
use repchat.Pipeline.Artifacts.{Entry, built, build_entry}
use repchat.Pipeline.Stages.{run_preflight, plan_attempt, generate_attempt}
use repchat.Pipeline.Validation.{validate_attempt}
use repchat.Pipeline.Inspection.{dry_run_attempt, execute_attempt}
use repchat.Pipeline.Run.{PlannedRun, attempt_of, run_rendering, result_attempt, render_attempt}
use repchat.Outcome.{no_failure, no_kind, absent}
use repchat.Pipeline.Sound.Evidence.{WasExecuted}
use repchat.Pipeline.Sound.Built.{executed_only_checked, artifact_run-IsAccepted}

abbrev snapshot : Snapshot
snapshot = record { content_json = "{}"; fingerprint = "5a"; retrieved_at = "2026-01-01" }

abbrev pub contract : Contract
contract = record { content_json = "{}"; fingerprint = "c0" }

abbrev plan : Plan
plan = record {
  revision = "plan-0123456789ab";
  clarifications = some [];
  panels = some ("sales" ∷ []);
  analysis_contract_fingerprint = some "c0";
}

abbrev pub policy : Policy
policy = record {
  query_tables = "p-1.sales.orders" ∷ [];
  job_tables = "p-1.sales.orders" ∷ [];
  maximum_bytes_billed = 1000;
  maximum_result_rows = 5;
  schema_fields =
      record {
        table = "p-1.sales.orders";
        path = "x" ∷ [];
        field_type = "INT64";
        mode = "NULLABLE";
        restricted = false;
      }
      ∷ [];
}

abbrev pub answer : Answer
answer = record {
  sql = some " SELECT 1 ";
  reason_is_text = true;
  undefined_terms = some [];
  clarification_is_text = true;
}

-- The answers, where the plan may meet the specification and the SQL role reports a cost.
abbrev pub boundary : Number → Boundary
boundary cost = record {
  discover = discovered snapshot;
  generate_contract = λ d. generated d contract (record { input_tokens = 3; output_tokens = 2 });
  run_planner = λ c q. planned (other_event ∷ plan_event (some plan) (non_negative 4) ∷ []);
  meets_specification = λ p c. true;
  build_section = λ q. some (record { content = q; max_result_rows = some 10 });
  planning_context = λ c. some (record { period = none; rules = "" });
  generate_sql = λ s c. answered (some answer) (some cost);
  execution_policy = λ c. some policy;
  validate_sql = λ s c. (some "SELECT 1", none);
  period_refused = λ s c. false;
  dashboard_refused = λ s t c. false;
  inspect_dry_run = λ t c.
      (some (record { schema = ("x" ∷ "INT64" ∷ []) ∷ []; estimated_bytes_processed = 9 }), none);
  result_refused = λ s t c. false;
  schema_refused = λ s t. false;
  execute =
      λ t n c. (some (record { rows = "1" ∷ []; columns = "x" ∷ []; bytes_processed = 10 }), none);
  validate_result = λ s rows columns n c.
      some (record { rows = rows; columns = columns; visualization = "table" });
  render = λ v columns rows. rendered true;
}

is_text : is_blank "SELECT 1" ≡ false
unfolding is_blank is_space
is_text = refl

boundary-IsLawful : (cost : Number) → IsLawful (boundary cost)
boundary-IsLawful cost = record {
  accepted_not_blank = λ s t c e. (let q : "SELECT 1" ≡ t = cc in rw (← q) (is_text));
  validation_codes = λ s c t k e. cc;
  dry_run_codes = λ s t c i k e e'. cc;
  execution_codes = λ s t c n x k e e'. cc;
}

abbrev pub one_run : PlannedRun
one_run = record {
  schema_id = "retail";
  case_id = "sales";
  run_id = "retail-1";
  question = "How much?";
  pipeline_fingerprints = record { runtime = "r"; prompt = "p"; configuration = "f" };
}

-- The attempts that the run makes where the cost is a number.
abbrev planned_run : PlannedAttempt
planned_run = record {
  preflight_attempt = attempt_of one_run (record {
    question = "How much?";
    discovery = some snapshot;
    contract = some contract;
    usage = some (record { input_tokens = 3; output_tokens = 2 });
    failure = none;
  });
  plan = some plan;
  planning_cost_jpy = some 4;
  failure = none;
}

abbrev pub validated_run : ValidatedAttempt
validated_run = record {
  generated_attempt = record {
    planned_attempt = planned_run;
    section = some (record { content = "sales"; max_result_rows = some 10 });
    generated_sql = some "SELECT 1";
    sql_generation_cost_jpy = some 7;
    failure = none;
  };
  validated_sql = some "SELECT 1";
  failure = none;
  unauthorized_reference = false;
  dangerous_sql = false;
  semantic_error = false;
  diagnostic = none;
}

abbrev pub executed_run : ExecutionAttempt
executed_run = record {
  dry_run_attempt = record {
    validated_attempt = validated_run;
    dry_run_schema = some (("x" ∷ "INT64" ∷ []) ∷ []);
    estimated_bytes_processed = some 9;
    failure = none;
    unauthorized_reference = false;
    dangerous_sql = false;
    scan_limit_exceeded = false;
    semantic_error = false;
    diagnostic = none;
  };
  rows = some ("1" ∷ []);
  columns = some ("x" ∷ []);
  bytes_processed = some 10;
  failure = none;
  scan_limit_exceeded = false;
  diagnostic = none;
}

abbrev pub finished_run : RenderingAttempt
finished_run = record {
  result_attempt = record {
    execution_attempt = executed_run;
    rows = some ("1" ∷ []);
    columns = some ("x" ∷ []);
    visualization = some "table";
    bytes_processed = some 10;
    failure = none;
    semantic_error = false;
  };
  render_succeeded = true;
  failure = none;
}

run_finishes : run_rendering (boundary (non_negative 7)) one_run ≡ ok finished_run
unfolding run_rendering plan_attempt generate_attempt validate_attempt dry_run_attempt
    execute_attempt result_attempt render_attempt run_preflight is_blank strip is_revision is_space
run_finishes = refl

abbrev pub measured : Measurement
measured = record { bytes_processed = 12; cost_jpy = 30 }

artifact_run-IsAccepted_example :
    (e : Entry) × (build_entry finished_run measured ≡ built e) × IsAccepted e.recording.run
artifact_run-IsAccepted_example =
    artifact_run-IsAccepted (boundary (non_negative 7)) one_run measured finished_run
      (boundary-IsLawful (non_negative 7)) run_finishes (omega arith)

-- The recording of the run, with its failure kind.
abbrev pub finished_entry : Entry
finished_entry = record {
  recording = record {
    schema_id = "retail";
    case_id = "sales";
    run = record {
      run_id = "retail-1";
      fingerprints = record { runtime = "r"; prompt = "p"; configuration = "f" };
      runtime_input = record {
        scope_snapshot_fingerprint = some "5a";
        analysis_contract_fingerprint = some "c0";
        question = "How much?";
      };
      generated_sql = "SELECT 1";
      failure_stage = no_failure;
      failure_code = "";
      failure_kind = some no_kind;
      diagnostic = absent;
      sql_execution_succeeded = true;
      actual_rows = "1" ∷ [];
      unauthorized_reference = false;
      dangerous_sql = false;
      scan_limit_exceeded = false;
      semantic_error = false;
      render_succeeded = true;
      bytes_processed = 12;
      cost_jpy = 30;
    };
  };
  snapshot = some snapshot;
  contract = some contract;
}

pub run_is_kept : build_entry finished_run measured ≡ built finished_entry
unfolding build_entry
run_is_kept = refl

executed_only_checked_example : WasExecuted (boundary (non_negative 7)) "SELECT 1"
executed_only_checked_example =
    executed_only_checked (boundary (non_negative 7)) one_run measured finished_run finished_entry
      (boundary-IsLawful (non_negative 7)) run_finishes (omega arith) run_is_kept refl
