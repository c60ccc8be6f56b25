-- ===== src/Pipeline/Sound.antt =====
-- The invariant of the attempts: a failed attempt has a recording that the validators accept, and
-- a successful one has all that the next stage reads.
pub mod Preflight
pub mod Evidence
pub mod Planned
pub mod Validated
pub mod Inspected
pub mod Rendered
pub mod Built
use text.Mathlib.TextPositions.{eq_refl}
use text.Mathlib.Text.{◌==◌ as str_eq}
use repchat.Prelude.{
  ℕ, ◌+◌, ◌≤◌, ◌<◌, String, ◌≡◌, refl, sym, Bool, true, false, not, ◌&&◌, ◌||◌, Option, none, some,
  List, [], ◌∷◌, arith, ltb, inl, inr, Bool-cases, if◌then◌else◌,
}
use repchat.Text.{is_blank, strip, is_blank-strip, is_revision}
use repchat.Diagnostic.{Code}
use repchat.Outcome.{
  Stage, no_failure, scope_discovery, analysis_contract_generation, planning, sql_generation,
  sql_validation, dry_run, execution, result_validation, rendering, unsupported, Run, Row,
}
use repchat.Pipeline.Attempts.{
  Failure, Snapshot, Contract, PreflightAttempt, Plan, Panel, Section, PlannedAttempt,
  GeneratedAttempt, ValidatedAttempt, Inspection, DryRunAttempt, QueryExecution, ExecutionAttempt,
  DashboardResult, ResultAttempt, RenderingAttempt,
}
use repchat.Pipeline.Result.{
  Raise, Result, ok, err, ◌>>=◌, incomplete_output, contract_missing, panel_count_invalid,
  row_limit_invalid, cost_invalid, specification_mismatch, no_normalized_sql, no_inspection,
  no_execution, section_unsupported, context_invalid, call_raised,
}
use repchat.Pipeline.Recording.{
  Recording, Measurement, failed_run, with_run, is_stage, record_preflight, record_planned,
  record_generated,
}
use repchat.Pipeline.Boundary.{
  Boundary, Number, non_negative, other_number, Planning, planned, output_error,
}
use repchat.Pipeline.Artifacts.{finish, same_identity}
use repchat.Pipeline.Accepted.{IsAccepted, IsEarly, early-IsAccepted}
use repchat.Pipeline.Stages.{
  planning_failed, sql_generation_failed, failed_plan, failed_generation, plan_step, plan_attempt,
  read_plan, plan_with, plan_events, is_empty, is_single, is_fingerprint,
}

-- The place of a stage in the pipeline.
abbrev pub rank : Stage → ℕ
rank scope_discovery = 0
rank analysis_contract_generation = 1
rank planning = 2
rank sql_generation = 3
rank sql_validation = 4
rank dry_run = 5
rank execution = 6
rank result_validation = 7
rank rendering = 8
rank no_failure = 9
rank unsupported = 9

-- A stage does not take an earlier failure for its own.
pub is_stage-later : (own s : Stage) → rank s < rank own → rank own < 9 → is_stage own s ≡ false
is_stage-later planning s h n = ground arith
is_stage-later _ s h n = ground arith

-- The snapshot and the contract are there as far as the stage says.
abbrev pub HasArtifacts : Stage → Option Snapshot → Option Contract → Type 0
HasArtifacts scope_discovery none none = Unit
HasArtifacts scope_discovery _ _ = ⊥
HasArtifacts analysis_contract_generation (some d) none = Unit
HasArtifacts analysis_contract_generation _ _ = ⊥
HasArtifacts _ (some d) (some c) = Unit
HasArtifacts _ _ _ = ⊥

-- A recording of the attempt, with the diagnostic `d`, that the validators accept.
abbrev pub Records : PreflightAttempt → Option Code → Result Recording → Type 0
Records p d (err e) = ⊥
Records p d (ok r) =
    IsAccepted (finish d r.run)
    × (same_identity r p ≡ true)
    × HasArtifacts r.run.failure_stage p.result.discovery p.result.contract

pub Records-with_run :
    (p : PreflightAttempt) (d : Option Code) (r : Run)
    → r.run_id ≡ p.run_id
    → IsAccepted (finish d r)
    → HasArtifacts r.failure_stage p.result.discovery p.result.contract
    → Records p d (ok (with_run p r))
Records-with_run p d r e h k = (h, rw (e, eq_refl, eq_refl, eq_refl), k)

-- The snapshot and the contract of a successful preflight.
abbrev pub HasContract : PreflightAttempt → Contract → Type 0
HasContract p c = (d : Snapshot) × (p.result.discovery ≡ some d) × (p.result.contract ≡ some c)

HasArtifacts-some :
    (s : Stage) (d : Snapshot) (c : Contract) → 1 < rank s → HasArtifacts s (some d) (some c)
HasArtifacts-some scope_discovery d c h = absurd (omega arith)
HasArtifacts-some analysis_contract_generation d c h = absurd (omega arith)
HasArtifacts-some planning d c h = tt
HasArtifacts-some _ d c h = tt

pub HasArtifacts-of_contract :
    (p : PreflightAttempt) (c : Contract) (s : Stage)
    → 1 < rank s
    → HasContract p c
    → HasArtifacts s p.result.discovery p.result.contract
HasArtifacts-of_contract p c s h (d, ed, ec) = rw (ed, ec) (HasArtifacts-some s d c h)

-- The errors that a boundary call may cause; the pipeline raises no other.
abbrev pub IsBoundaryRaise : Raise → Type 0
IsBoundaryRaise specification_mismatch = Unit
IsBoundaryRaise cost_invalid = Unit
IsBoundaryRaise no_normalized_sql = Unit
IsBoundaryRaise row_limit_invalid = Unit
IsBoundaryRaise no_inspection = Unit
IsBoundaryRaise no_execution = Unit
IsBoundaryRaise section_unsupported = Unit
IsBoundaryRaise context_invalid = Unit
IsBoundaryRaise call_raised = Unit
IsBoundaryRaise _ = ⊥

abbrev pub Post : {A : Type 0} → (A → Type 0) → Result A → Type 0
Post P (ok a) = P a
Post P (err e) = IsBoundaryRaise e

pub Post-bind :
    {A B : Type 0} (P : A → Type 0) (Q : B → Type 0) (m : Result A) (f : A → Result B)
    → Post P m
    → ((a : A) → P a → Post Q (f a))
    → Post Q (m >>= f)
Post-bind P Q (ok a) f h k = k a h
Post-bind P Q (err e) f h k = h

pub Post-if :
    {A : Type 0} (P : A → Type 0) (b : Bool) (x y : Result A)
    → (b ≡ true → Post P x)
    → (b ≡ false → Post P y)
    → Post P (if b then x else y)
Post-if P true x y hx hy = hx refl
Post-if P false x y hx hy = hy refl

-- A failed attempt: how far the pipeline came, and its recording.
abbrev pub IsFailed : ℕ → Failure → PreflightAttempt → Option Code → Result Recording → Type 0
IsFailed n f p d r = (rank f.stage ≤ n) × Records p d r
