-- ===== src/Pipeline/Sound/Preflight.antt =====
-- The invariant of the preflight, where the pipeline starts.
use repchat.Prelude.{◌≤◌, String, refl, Option, none, some, arith}
use repchat.Pipeline.Attempts.{Failure, Snapshot, Usage}
use repchat.Pipeline.Recording.{Measurement, record_preflight, failed_run}
use repchat.Pipeline.Boundary.{
  Boundary, Discovery, discovered, discovery_infrastructure, discovery_error, Generation, generated,
  generation_infrastructure, generation_error,
}
use repchat.Pipeline.Accepted.{IsEarly, early-IsAccepted}
use repchat.Pipeline.Stages.{run_preflight, after_discovery, after_contract, failed_preflight}
use repchat.Pipeline.Run.{PlannedRun, preflight_attempt, attempt_of}
use repchat.Pipeline.Sound.{rank, HasArtifacts, Records-with_run}
use repchat.Pipeline.Sound.Planned.{IsPreflight}

module _ (m : Measurement) (p : PlannedRun) where
  failed_preflight-IsPreflight :
      (q : String) (d : Option Snapshot) (u : Option Usage) (f : Failure)
      → IsEarly f
      → rank f.stage ≤ 1
      → HasArtifacts f.stage d none
      → IsPreflight m (attempt_of p (failed_preflight q d u f))
  unfolding record_preflight
  failed_preflight-IsPreflight q d u f h r k =
      let a = attempt_of p (failed_preflight q d u f) in
      (r, Records-with_run a none (failed_run a "" f m) refl (early-IsAccepted a m f h) k)

  after_contract-IsPreflight :
      (q : String) (d : Snapshot) (g : Generation)
      → IsPreflight m (attempt_of p (after_contract q d g))
  after_contract-IsPreflight q d generation_infrastructure =
      failed_preflight-IsPreflight q (some d) none _ IsEarly.contract_infrastructure (omega arith)
        tt
  after_contract-IsPreflight q d generation_error =
      failed_preflight-IsPreflight q (some d) none _ IsEarly.contract_error (omega arith) tt
  after_contract-IsPreflight q d (generated d' c u) = (d', refl, refl)

  after_discovery-IsPreflight :
      (b : Boundary) (q : String) (d : Discovery)
      → IsPreflight m (attempt_of p (after_discovery b q d))
  after_discovery-IsPreflight b q discovery_infrastructure =
      failed_preflight-IsPreflight q none none _ IsEarly.scope_infrastructure (omega arith) tt
  after_discovery-IsPreflight b q discovery_error =
      failed_preflight-IsPreflight q none _ _ IsEarly.scope_error (omega arith) tt
  after_discovery-IsPreflight b q (discovered d) =
      after_contract-IsPreflight q d (b.generate_contract d)

  pub preflight_attempt-IsPreflight : (b : Boundary) → IsPreflight m (preflight_attempt b p)
  unfolding run_preflight
  preflight_attempt-IsPreflight b = after_discovery-IsPreflight b p.question b.discover
