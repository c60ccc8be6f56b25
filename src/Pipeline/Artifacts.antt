-- ===== src/Pipeline/Artifacts.antt =====
-- `build_manifest_artifacts` of manifest_artifacts.py, for one planned run: what the loop adds to a
-- recording, and the artifacts that it keeps with it.
use repchat.Prelude.{Bool, ◌&&◌, Option, none, some, if◌then◌else◌}
use text.Mathlib.Text.{◌==◌ as str_eq}
use repchat.Diagnostic.{Code}
use repchat.Outcome.{
  Stage, scope_discovery, analysis_contract_generation, Run, Fault, Verdict, accepted, rejected,
  failure_kind_for_diagnostic,
}
use repchat.Outcome.Diagnosed.{serialize_sql_diagnostic, validate_recorded_diagnostic}
use repchat.Pipeline.Attempts.{Snapshot, Contract, PreflightAttempt, RenderingAttempt}
use repchat.Pipeline.Result.{Raise, Result, ok, err}
use repchat.Pipeline.Recording.{Recording, Measurement, record_rendering}

-- The messages of `ManifestArtifactError`, and the two errors that it wraps.
pub data ArtifactError : Type 0 where
  recording_raised : Raise → ArtifactError
  identity_differs : ArtifactError
  diagnostic_rejected : Fault → ArtifactError
  scope_failure_with_artifacts snapshot_missing : ArtifactError
  contract_failure_with_contract contract_absent : ArtifactError
  attempts_mismatch measurements_mismatch measurement_invalid : ArtifactError
  snapshot_changed contract_changed : ArtifactError

pub data Artifact (A : Type 0) : Type 0 where
  built : A → Artifact A
  refused : ArtifactError → Artifact A

-- `_preflight(attempt)`
abbrev pub preflight_of : RenderingAttempt → PreflightAttempt
preflight_of a =
    a.result_attempt.execution_attempt.dry_run_attempt.validated_attempt.generated_attempt.planned_attempt.preflight_attempt

-- `attempt.result_attempt.execution_attempt.diagnostic`
abbrev pub diagnostic_of : RenderingAttempt → Option Code
diagnostic_of a = a.result_attempt.execution_attempt.diagnostic

-- The two fields that are set on the run.
unfoldable pub finish : Option Code → Run → Run
unfolding serialize_sql_diagnostic failure_kind_for_diagnostic
finish d r = record r {
  diagnostic = serialize_sql_diagnostic d;
  failure_kind =
      some
        (failure_kind_for_diagnostic r.failure_stage (serialize_sql_diagnostic d) r.failure_code);
}

-- What the loop keeps of one run: its recording, its scope snapshot and its contract.
pub record Entry : Type 0 where
  pub recording : Recording
  pub snapshot : Option Snapshot
  pub contract : Option Contract

abbrev pub same_identity : Recording → PreflightAttempt → Bool
same_identity r p =
    str_eq r.schema_id p.schema_id && str_eq r.case_id p.case_id && str_eq r.run.run_id p.run_id

-- The branches on the stage: which artifacts must be there.
abbrev pub keep_artifacts : Stage → Recording → Option Snapshot → Option Contract → Artifact Entry
keep_artifacts scope_discovery r none none =
    built (record { recording = r; snapshot = none; contract = none })
keep_artifacts scope_discovery r _ _ = refused scope_failure_with_artifacts
keep_artifacts analysis_contract_generation r none c = refused snapshot_missing
keep_artifacts analysis_contract_generation r (some d) none =
    built (record { recording = r; snapshot = some d; contract = none })
keep_artifacts analysis_contract_generation r (some d) (some c) =
    refused contract_failure_with_contract
keep_artifacts _ r none c = refused snapshot_missing
keep_artifacts _ r (some d) none = refused contract_absent
keep_artifacts _ r (some d) (some c) =
    built (record { recording = r; snapshot = some d; contract = some c })

abbrev pub check_finished : Verdict → RenderingAttempt → Recording → Artifact Entry
check_finished (rejected f) a r = refused (diagnostic_rejected f)
check_finished accepted a r =
    keep_artifacts r.run.failure_stage r (preflight_of a).result.discovery
      (preflight_of a).result.contract

abbrev pub finish_recording : RenderingAttempt → Result Recording → Artifact Entry
finish_recording a (err e) = refused (recording_raised e)
finish_recording a (ok r) =
    if same_identity r (preflight_of a)
    then (let r' : Recording = record r { run = finish (diagnostic_of a) r.run } in
        check_finished (validate_recorded_diagnostic r'.run) a r')
    else refused identity_differs

-- One round of the loop of `build_manifest_artifacts`.
unfoldable pub build_entry : RenderingAttempt → Measurement → Artifact Entry
unfolding record_rendering finish validate_recorded_diagnostic
build_entry a m = finish_recording a (record_rendering a m)
