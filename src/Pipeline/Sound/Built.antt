-- ===== src/Pipeline/Sound/Built.antt =====
-- The artifacts that `build_manifest_artifacts` keeps of a whole run.
use repchat.Prelude.{◌≡◌, refl, Option, none, some}
use repchat.Outcome.{Stage, scope_discovery, analysis_contract_generation, planning}
use repchat.Pipeline.Attempts.{Snapshot, Contract, RenderingAttempt}
use repchat.Pipeline.Result.{Result, ok, err}
use repchat.Pipeline.Recording.{Recording, Measurement, record_rendering}
use repchat.Pipeline.Boundary.{Boundary, IsLawful}
use repchat.Pipeline.Accepted.{IsAccepted}
use repchat.Pipeline.Artifacts.{
  built, Entry, preflight_of, diagnostic_of, finish, keep_artifacts, finish_recording, build_entry,
}
use repchat.Pipeline.Run.{PlannedRun, run_rendering}
use repchat.Pipeline.Sound.{HasArtifacts, Records, Post}
use repchat.Pipeline.Sound.Evidence.{WasExecuted, HasEvidence}
use repchat.Prelude.{sym, true}
use mathlib.Core.Path.{◌∙◌, subst}
use repchat.Pipeline.Sound.Rendered.{Covers, IsRendered, run_rendering-IsRendered}

keep-built :
    (s : Stage) (r : Recording) (d : Option Snapshot) (c : Option Contract)
    → HasArtifacts s d c
    → (e : Entry) × (keep_artifacts s r d c ≡ built e) × (e.recording ≡ r)
keep-built scope_discovery r none none h = (_, refl, refl)
keep-built scope_discovery r none (some c) h = absurd h
keep-built scope_discovery r (some d) c h = absurd h
keep-built analysis_contract_generation r none c h = absurd h
keep-built analysis_contract_generation r (some d) none h = (_, refl, refl)
keep-built analysis_contract_generation r (some d) (some c) h = absurd h
keep-built planning r (some d) (some c) h = (_, refl, refl)
keep-built _ r (some d) (some c) h = (_, refl, refl)
keep-built _ r none c h = absurd h
keep-built _ r (some d) none h = absurd h

-- A recording that the validators accept goes into the artifacts, with its evidence.
finish_recording-built :
    (b : Boundary) (a : RenderingAttempt) (r : Result Recording)
    → Records (preflight_of a) (diagnostic_of a) r
    → HasEvidence b r
    → (e : Entry) × (finish_recording a r ≡ built e)
      × IsAccepted e.recording.run
      × HasEvidence b (ok e.recording)
unfolding finish
finish_recording-built b a (ok r) (h, same, k) evidence =
    let r' : Recording = record r { run = finish (diagnostic_of a) r.run } in
    let (e, q, i) =
      keep-built r.run.failure_stage r' (preflight_of a).result.discovery
        (preflight_of a).result.contract k in
    (e, rw (same, h.diagnostic, q) refl, rw i h, rw i evidence)
finish_recording-built b a (err e) h evidence = absurd h

-- On a lawful boundary, whatever the run has produced or failed at, its artifacts can be built from
-- any measurement that covers the executed bytes, and the three validators accept what they hold.
pub artifact_run-IsAccepted :
    (b : Boundary) (p : PlannedRun) (m : Measurement) (a : RenderingAttempt)
    → IsLawful b
    → run_rendering b p ≡ ok a
    → Covers m a.result_attempt.bytes_processed
    → (e : Entry) × (build_entry a m ≡ built e) × IsAccepted e.recording.run
unfolding build_entry
artifact_run-IsAccepted b p m a law e h =
    let (records, evidence) =
      subst (Post (IsRendered b law m)) e (run_rendering-IsRendered b law m p) h in
    let (entry, q, good, _) = finish_recording-built b a (record_rendering a m) records evidence in
    (entry, q, good)

built-injective : (x y : Entry) → built x ≡ built y → x ≡ y
built-injective x y h = cc

-- On a lawful boundary, where the artifacts of a run hold a recording that claims an execution, its
-- SQL text is one that local validation made, that the dry run let through and that the execution
-- answered, all under one contract; the execution was asked for at most one row more than the
-- policy of that contract allows.
pub executed_only_checked :
    (b : Boundary) (p : PlannedRun) (m : Measurement) (a : RenderingAttempt) (e : Entry)
    → IsLawful b
    → run_rendering b p ≡ ok a
    → Covers m a.result_attempt.bytes_processed
    → build_entry a m ≡ built e
    → e.recording.run.sql_execution_succeeded ≡ true
    → WasExecuted b e.recording.run.generated_sql
unfolding build_entry
executed_only_checked b p m a e law h covers made claimed =
    let (records, evidence) =
      subst (Post (IsRendered b law m)) h (run_rendering-IsRendered b law m p) covers in
    let (entry, q, _, kept) = finish_recording-built b a (record_rendering a m) records evidence in
    let same : entry ≡ e = built-injective entry e (sym q ∙ made) in
    subst (λ (x : Entry). HasEvidence b (ok x.recording)) same kept claimed
