-- ===== src/Pipeline/Accepted.antt =====
-- Each recording that a stage makes for its own failure is one that the validators accept.
use repchat.Prelude.{String, ◌≡◌, refl, Bool, true, false, none, some, List, arith}
use repchat.Text.{is_blank, is_machine_code}
use repchat.Diagnostic.{
  Code, analysis_contract_required, dry_run_bytes_missing, execution_bytes_missing,
  unauthorized_reference, dangerous_sql, scan_limit_exceeded,
}
use repchat.Outcome.{
  no_failure, scope_discovery, analysis_contract_generation, planning, sql_generation,
  sql_validation, dry_run, execution, Run, Row, accepted, validate_run_outcome,
  validate_failure_kind,
}
use repchat.Outcome.Diagnosed.{validate_recorded_diagnostic, diagnostic_stage}
use repchat.Pipeline.Attempts.{Failure, PreflightAttempt}
use repchat.Pipeline.Recording.{Measurement, failed_run}
use repchat.Pipeline.Artifacts.{finish}
use repchat.Pipeline.Validation.{has_category, validation_failed}
use repchat.Pipeline.Inspection.{
  dry_run_failed, execution_failed, result_failed, rendering_failed, renderer_failed,
}

-- The three validators that the evaluator applies to the outcome of a run accept it.
pub record IsAccepted (r : Run) : Type 0 where
  pub outcome : validate_run_outcome r ≡ accepted
  pub diagnostic : validate_recorded_diagnostic r ≡ accepted
  pub kind : validate_failure_kind r ≡ accepted

-- A failure before any SQL was generated.
pub data IsEarly : Failure → Type 0 where
  scope_infrastructure :
      IsEarly (record { stage = scope_discovery; code = "scope_discovery_infrastructure_failed" })
  scope_error : IsEarly (record { stage = scope_discovery; code = "scope_discovery_failed" })
  contract_infrastructure : IsEarly (record {
    stage = analysis_contract_generation;
    code = "analysis_contract_generation_infrastructure_failed";
  })
  contract_error : IsEarly (record {
    stage = analysis_contract_generation;
    code = "analysis_contract_generation_failed";
  })
  planning_error : IsEarly (record { stage = planning; code = "planning_failed" })
  generation_error : IsEarly (record { stage = sql_generation; code = "sql_generation_failed" })

-- The stage and the code of a run without failure.
abbrev pub completed : Failure
completed = record { stage = no_failure; code = "" }

module _ (a : PreflightAttempt) (m : Measurement) where
  pub early-IsAccepted : (f : Failure) → IsEarly f → IsAccepted (finish none (failed_run a "" f m))
  unfolding finish validate_run_outcome validate_recorded_diagnostic validate_failure_kind
      is_machine_code
  early-IsAccepted f scope_infrastructure = record {
    outcome = refl;
    diagnostic = refl;
    kind = refl;
  }
  early-IsAccepted f scope_error = record { outcome = refl; diagnostic = refl; kind = refl }
  early-IsAccepted f contract_infrastructure = record {
    outcome = refl;
    diagnostic = refl;
    kind = refl;
  }
  early-IsAccepted f contract_error = record { outcome = refl; diagnostic = refl; kind = refl }
  early-IsAccepted f planning_error = record { outcome = refl; diagnostic = refl; kind = refl }
  early-IsAccepted f generation_error = record { outcome = refl; diagnostic = refl; kind = refl }

  module _ (sql : String) (text : is_blank sql ≡ false) where
    -- A refusal by local validation.
    pub validation-IsAccepted :
        (k : Code)
        → diagnostic_stage k ≡ sql_validation
        → IsAccepted (
            finish (some k) (record (failed_run a sql validation_failed m) {
              unauthorized_reference = has_category unauthorized_reference k;
              dangerous_sql = has_category dangerous_sql k;
              semantic_error = false;
            }))
    unfolding finish validate_run_outcome validate_recorded_diagnostic validate_failure_kind
        is_machine_code
    validation-IsAccepted analysis_contract_required h = record {
      outcome = rw text;
      diagnostic = refl;
      kind = refl;
    }
    validation-IsAccepted _ h = ground arith

    pub semantic_validation-IsAccepted : IsAccepted (
        finish none (record (failed_run a sql validation_failed m) {
          unauthorized_reference = false;
          dangerous_sql = false;
          semantic_error = true;
        }))
    unfolding finish validate_run_outcome validate_recorded_diagnostic validate_failure_kind
        is_machine_code
    semantic_validation-IsAccepted = record { outcome = rw text; diagnostic = refl; kind = refl }

    -- A refusal by the dry run.
    pub dry_run-IsAccepted :
        (k : Code)
        → diagnostic_stage k ≡ dry_run
        → IsAccepted (
            finish (some k) (record (failed_run a sql dry_run_failed m) {
              unauthorized_reference = has_category unauthorized_reference k;
              dangerous_sql = has_category dangerous_sql k;
              scan_limit_exceeded = has_category scan_limit_exceeded k;
              semantic_error = false;
            }))
    unfolding finish validate_run_outcome validate_recorded_diagnostic validate_failure_kind
        is_machine_code
    dry_run-IsAccepted dry_run_bytes_missing h = record {
      outcome = rw text;
      diagnostic = refl;
      kind = refl;
    }
    dry_run-IsAccepted _ h = ground arith

    pub semantic_dry_run-IsAccepted : IsAccepted (
        finish none (record (failed_run a sql dry_run_failed m) {
          unauthorized_reference = false;
          dangerous_sql = false;
          scan_limit_exceeded = false;
          semantic_error = true;
        }))
    unfolding finish validate_run_outcome validate_recorded_diagnostic validate_failure_kind
        is_machine_code
    semantic_dry_run-IsAccepted = record { outcome = rw text; diagnostic = refl; kind = refl }

    -- A refusal by the execution.
    pub execution-IsAccepted :
        (k : Code)
        → diagnostic_stage k ≡ execution
        → IsAccepted (
            finish (some k) (record (failed_run a sql execution_failed m) {
              scan_limit_exceeded = has_category scan_limit_exceeded k;
            }))
    unfolding finish validate_run_outcome validate_recorded_diagnostic validate_failure_kind
        is_machine_code
    execution-IsAccepted execution_bytes_missing h = record {
      outcome = rw text;
      diagnostic = refl;
      kind = refl;
    }
    execution-IsAccepted _ h = ground arith

    pub result-IsAccepted : IsAccepted (
        finish none (record (failed_run a sql result_failed m) {
          sql_execution_succeeded = true;
          semantic_error = true;
        }))
    unfolding finish validate_run_outcome validate_recorded_diagnostic validate_failure_kind
        is_machine_code
    result-IsAccepted = record { outcome = rw text; diagnostic = refl; kind = refl }

    -- What a run records after its rendering.
    abbrev pub rendered_run : Failure → List Row → Bool → Run
    rendered_run f rows done = record (failed_run a sql f m) {
      sql_execution_succeeded = true;
      actual_rows = rows;
      render_succeeded = done;
    }

    pub rendering-IsAccepted :
        (rows : List Row)
        → IsAccepted (finish none (rendered_run rendering_failed rows false))
          × IsAccepted (finish none (rendered_run renderer_failed rows false))
          × IsAccepted (finish none (rendered_run completed rows true))
    unfolding finish validate_run_outcome validate_recorded_diagnostic validate_failure_kind
        is_machine_code
    rendering-IsAccepted rows = (
      record { outcome = rw text; diagnostic = refl; kind = refl },
      record { outcome = rw text; diagnostic = refl; kind = refl },
      record { outcome = rw text; diagnostic = refl; kind = refl },
    )
