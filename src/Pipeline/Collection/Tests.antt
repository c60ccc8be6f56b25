-- ===== src/Pipeline/Collection/Tests.antt =====
-- The artifacts of two runs of one case.
use repchat.Prelude.{◌≡◌, refl, Option, some, List, [], ◌∷◌}
use repchat.Pipeline.Attempts.{PreflightAttempt, RenderingAttempt}
use repchat.Pipeline.Recording.{Recording, Measurement}
use repchat.Pipeline.Artifacts.{
  built, refused, attempts_mismatch, snapshot_changed, preflight_of, build_entry,
}
use repchat.Pipeline.Collection.{
  Texts, Table, Collection, identity_of, observe_attempts, add_artifacts, collect,
  build_manifest_artifacts,
}
use repchat.Pipeline.Collection.Whole.{IsWhole, build_manifest_artifacts-IsWhole}
use repchat.Pipeline.Measured.{
  attempts, measured_attempt, not_once, execute_once, executes, measure_attempt,
  measure_attempt_exact,
}
use repchat.Pipeline.Tests.{finished_run, finished_entry, measured}

-- The run of the pipeline's tests with another preflight.
abbrev with_preflight : PreflightAttempt → RenderingAttempt
with_preflight p = record finished_run {
  result_attempt = record finished_run.result_attempt {
    execution_attempt = record finished_run.result_attempt.execution_attempt {
      dry_run_attempt = record finished_run.result_attempt.execution_attempt.dry_run_attempt {
        validated_attempt =
            record finished_run.result_attempt.execution_attempt.dry_run_attempt.validated_attempt {
              generated_attempt =
                  record finished_run.result_attempt.execution_attempt.dry_run_attempt.validated_attempt.generated_attempt {
                    planned_attempt =
                        record finished_run.result_attempt.execution_attempt.dry_run_attempt.validated_attempt.generated_attempt.planned_attempt {
                          preflight_attempt = p;
                        };
                  };
            };
      };
    };
  };
}

abbrev second_run : RenderingAttempt
second_run = with_preflight (record (preflight_of finished_run) { run_id = "retail-2" })

-- The second run where the scope has another snapshot.
abbrev changed_run : RenderingAttempt
changed_run = with_preflight (record (preflight_of finished_run) {
  run_id = "retail-2";
  result = record (preflight_of finished_run).result {
    discovery =
        some (record { content_json = "[]"; fingerprint = "5b"; retrieved_at = "2026-01-02" });
  };
})

abbrev planned : List Texts
planned = ("retail" ∷ "sales" ∷ "retail-1" ∷ []) ∷ ("retail" ∷ "sales" ∷ "retail-2" ∷ []) ∷ []

abbrev measurements : Table (Option Measurement)
measurements =
    ("retail" ∷ "sales" ∷ "retail-1" ∷ [], some measured)
    ∷ ("retail" ∷ "sales" ∷ "retail-2" ∷ [], some measured)
    ∷ []

abbrev second_recording : Recording
second_recording = record finished_entry.recording {
  run = record finished_entry.recording.run { run_id = "retail-2" };
}

abbrev collection : Collection
collection = record {
  runs = finished_entry.recording ∷ second_recording ∷ [];
  snapshots = ("retail" ∷ [], "{}" ∷ "2026-01-01" ∷ []) ∷ [];
  contracts = ("retail" ∷ "sales" ∷ [], "{}" ∷ []) ∷ [];
}

-- The attempts come in another order than the planned runs.
artifacts_are_built :
    build_manifest_artifacts planned (second_run ∷ finished_run ∷ []) measurements
    ≡ built collection
unfolding build_manifest_artifacts observe_attempts collect add_artifacts build_entry
artifacts_are_built = refl

attempt_is_missing :
    build_manifest_artifacts planned (finished_run ∷ []) measurements ≡ refused attempts_mismatch
unfolding build_manifest_artifacts observe_attempts
attempt_is_missing = refl

snapshot_differs :
    build_manifest_artifacts planned (finished_run ∷ changed_run ∷ []) measurements
    ≡ refused snapshot_changed
unfolding build_manifest_artifacts observe_attempts collect add_artifacts build_entry
snapshot_differs = refl

build_manifest_artifacts-IsWhole_example :
    IsWhole planned (second_run ∷ finished_run ∷ []) measurements collection
build_manifest_artifacts-IsWhole_example =
    build_manifest_artifacts-IsWhole planned (second_run ∷ finished_run ∷ []) measurements
      collection artifacts_are_built

abbrev first_identity : Texts
first_identity = "retail" ∷ "sales" ∷ "retail-1" ∷ []

run_is_measured :
    measure_attempt first_identity (attempts (finished_run ∷ []) ∷ []) (some (some measured))
    ≡ measured_attempt finished_run measured
unfolding measure_attempt execute_once executes
run_is_measured = refl

second_execution :
    measure_attempt first_identity
      (attempts (finished_run ∷ []) ∷ attempts (finished_run ∷ []) ∷ [])
      (some (some measured))
    ≡ not_once
unfolding measure_attempt execute_once executes
second_execution = refl

measure_attempt_exact_example :
    (attempts (finished_run ∷ []) ∷ [] ≡ attempts (finished_run ∷ []) ∷ [])
    × (identity_of finished_run ≡ first_identity)
    × (some (some measured) ≡ some (some measured))
measure_attempt_exact_example =
    (measure_attempt_exact first_identity (attempts (finished_run ∷ []) ∷ []) (some (some measured))
        finished_run measured).0
      run_is_measured
