-- ===== src/Pipeline/Sound/Planned.antt =====
-- The invariant through the preflight, the planning and the SQL generation.
use repchat.Prelude.{String, ◌≡◌, refl, true, false, ◌&&◌, Option, none, some, List, [], ◌∷◌, arith}
use repchat.Text.{is_blank, is_blank-strip, is_revision}
use repchat.Outcome.{planning, sql_generation}
use repchat.Pipeline.Attempts.{
  Failure, Contract, PreflightAttempt, Plan, Panel, Section, PlannedAttempt, GeneratedAttempt,
}
use repchat.Pipeline.Recording.{Measurement, record_preflight, record_planned, record_generated}
use repchat.Pipeline.Boundary.{
  Boundary, Number, non_negative, other_number, Planning, planned, output_error, planning_raised,
}
use repchat.Pipeline.Accepted.{IsEarly, early-IsAccepted}
use repchat.Pipeline.Stages.{
  planning_failed, sql_generation_failed, failed_plan, failed_generation, plan_step, plan_attempt,
  read_plan, plan_with, plan_events, is_empty, is_single, is_fingerprint,
}
use repchat.Pipeline.Result.{◌>>=◌}
use repchat.Pipeline.Boundary.{
  Context, Answer, Generating, answered, generating_error, generating_raised,
}
use repchat.Pipeline.Stages.{
  section_of, context_of, generate_step, generate_attempt, accept_answer, read_answer,
  refused_answer,
}
use mathlib.Core.Path.{◌∙◌}
use repchat.Pipeline.Sound.{
  is_stage-later, Records-with_run, HasContract, HasArtifacts-of_contract, Post, Post-if, IsFailed,
}

single_panel : (o : Option (List Panel)) → is_single o ≡ true → (q : Panel) × (o ≡ some (q ∷ []))
single_panel none h = cc
single_panel (some []) h = cc
single_panel (some (q ∷ [])) h = (q, refl)
single_panel (some (q ∷ r ∷ qs)) h = cc

module _ (m : Measurement) where
  abbrev pub PreflightCase : PreflightAttempt → Option Failure → Option Contract → Type 0
  PreflightCase a (some f) c = IsFailed 1 f a none (record_preflight a m)
  PreflightCase a none (some c) = HasContract a c
  PreflightCase a none none = ⊥

  abbrev pub IsPreflight : PreflightAttempt → Type 0
  IsPreflight a = PreflightCase a a.result.failure a.result.contract

  abbrev pub PlannedCase : PlannedAttempt → Option Failure → Option Plan → Type 0
  PlannedCase a (some f) p = IsFailed 2 f a.preflight_attempt none (record_planned a m)
  PlannedCase a none (some p) =
      ((c : Contract) × HasContract a.preflight_attempt c)
      × ((q : Panel) × (p.panels ≡ some (q ∷ [])))
  PlannedCase a none none = ⊥

  abbrev pub IsPlanned : PlannedAttempt → Type 0
  IsPlanned a = PlannedCase a a.failure a.plan

  planning_failed-IsPlanned :
      (a : PreflightAttempt) (c : Contract)
      → HasContract a c
      → IsPlanned (failed_plan a planning_failed)
  unfolding record_planned
  planning_failed-IsPlanned a c h = (
    omega arith,
    Records-with_run a none _ refl (early-IsAccepted a m planning_failed IsEarly.planning_error)
        (HasArtifacts-of_contract a c planning (omega arith) h),
  )

  read_plan-IsPlanned :
      (b : Boundary) (a : PreflightAttempt) (c : Contract) (es : List (Option Plan × Number))
      → HasContract a c
      → Post IsPlanned (read_plan b a c es)
  read_plan-IsPlanned b a c [] h = planning_failed-IsPlanned a c h
  read_plan-IsPlanned b a c ((p, n) ∷ e ∷ es) h = planning_failed-IsPlanned a c h
  read_plan-IsPlanned b a c ((none, n) ∷ []) h = planning_failed-IsPlanned a c h
  read_plan-IsPlanned b a c ((some p, other_number) ∷ []) h = planning_failed-IsPlanned a c h
  read_plan-IsPlanned b a c ((some p, non_negative cost) ∷ []) h =
      Post-if IsPlanned (is_revision p.revision && is_empty p.clarifications && is_single p.panels)
        _ _
        (λ e.
          Post-if IsPlanned (is_fingerprint p.analysis_contract_fingerprint c.fingerprint) _ _
            (λ e'.
              Post-if IsPlanned (b.meets_specification p c) _ _
                (λ e''. ((c, h), single_panel p.panels (ground arith))) (λ e''. tt))
            (λ e'. planning_failed-IsPlanned a c h))
        (λ e. planning_failed-IsPlanned a c h)

  plan_with-IsPlanned :
      (b : Boundary) (a : PreflightAttempt) (c : Contract) (r : Planning)
      → HasContract a c
      → Post IsPlanned (plan_with b a c r)
  plan_with-IsPlanned b a c output_error h = planning_failed-IsPlanned a c h
  plan_with-IsPlanned b a c planning_raised h = tt
  plan_with-IsPlanned b a c (planned es) h = read_plan-IsPlanned b a c (plan_events es) h

  plan_step-IsPlanned :
      (b : Boundary) (a : PreflightAttempt) (f : Option Failure) (c : Option Contract)
      → PreflightCase a f c
      → Post IsPlanned (plan_step b a f c)
  unfolding record_planned
  plan_step-IsPlanned b a (some f) c (r, h) =
      (omega arith, rw (is_stage-later planning f.stage (omega arith) (omega arith)) h)
  plan_step-IsPlanned b a none (some c) h =
      plan_with-IsPlanned b a c (b.run_planner c a.result.question) h
  plan_step-IsPlanned b a none none h = absurd h

  pub plan_attempt-IsPlanned :
      (b : Boundary) (a : PreflightAttempt) → IsPreflight a → Post IsPlanned (plan_attempt b a)
  unfolding plan_attempt
  plan_attempt-IsPlanned b a h = plan_step-IsPlanned b a a.result.failure a.result.contract h

  abbrev pub GeneratedCase :
      GeneratedAttempt → Option Failure → Option Section → Option String → Type 0
  GeneratedCase a (some f) s sql =
      IsFailed 3 f a.planned_attempt.preflight_attempt none (record_generated a m)
  GeneratedCase a none (some s) (some sql) =
      ((c : Contract) × HasContract a.planned_attempt.preflight_attempt c) × (is_blank sql ≡ false)
  GeneratedCase a none _ _ = ⊥

  abbrev pub IsGenerated : GeneratedAttempt → Type 0
  IsGenerated a = GeneratedCase a a.failure a.section a.generated_sql

  generation_failed-IsGenerated :
      (a : PlannedAttempt) (c : Contract)
      → HasContract a.preflight_attempt c
      → IsGenerated (failed_generation a sql_generation_failed)
  unfolding record_generated
  generation_failed-IsGenerated a c h = (
    omega arith,
    Records-with_run a.preflight_attempt none _ refl
        (early-IsAccepted a.preflight_attempt m sql_generation_failed IsEarly.generation_error)
        (HasArtifacts-of_contract a.preflight_attempt c sql_generation (omega arith) h),
  )

  accept_answer-IsGenerated :
      (a : PlannedAttempt) (c : Contract) (s : Section) (w : Answer) (sql : Option String)
      (n : Option Number)
      → HasContract a.preflight_attempt c
      → Post IsGenerated (accept_answer a s w sql n)
  accept_answer-IsGenerated a c s w none n h = generation_failed-IsGenerated a c h
  accept_answer-IsGenerated a c s w (some sql) none h =
      Post-if IsGenerated (refused_answer w sql) _ _ (λ e. generation_failed-IsGenerated a c h)
        (λ e. tt)
  accept_answer-IsGenerated a c s w (some sql) (some other_number) h =
      Post-if IsGenerated (refused_answer w sql) _ _ (λ e. generation_failed-IsGenerated a c h)
        (λ e. tt)
  accept_answer-IsGenerated a c s w (some sql) (some (non_negative cost)) h =
      Post-if IsGenerated (refused_answer w sql) _ _ (λ e. generation_failed-IsGenerated a c h)
        (λ e. ((c, h), is_blank-strip sql ∙ ground arith))

  read_answer-IsGenerated :
      (a : PlannedAttempt) (c : Contract) (s : Section) (r : Generating)
      → HasContract a.preflight_attempt c
      → Post IsGenerated (read_answer a s r)
  read_answer-IsGenerated a c s generating_error h = generation_failed-IsGenerated a c h
  read_answer-IsGenerated a c s generating_raised h = tt
  read_answer-IsGenerated a c s (answered none n) h = generation_failed-IsGenerated a c h
  read_answer-IsGenerated a c s (answered (some w) n) h =
      accept_answer-IsGenerated a c s w w.sql n h

  generate_section-IsGenerated :
      (b : Boundary) (a : PlannedAttempt) (c : Contract) (s : Option Section) (x : Option Context)
      → HasContract a.preflight_attempt c
      → Post IsGenerated
          (section_of s >>= λ t. context_of x >>= λ y. read_answer a t (b.generate_sql t y))
  generate_section-IsGenerated b a c none x h = tt
  generate_section-IsGenerated b a c (some s) none h = tt
  generate_section-IsGenerated b a c (some s) (some x) h =
      read_answer-IsGenerated a c s (b.generate_sql s x) h

  generate_step-IsGenerated :
      (b : Boundary) (a : PlannedAttempt) (f : Option Failure) (p : Option Plan)
      → PlannedCase a f p
      → Post IsGenerated (generate_step b a f a.preflight_attempt.result.contract p)
  unfolding record_generated
  generate_step-IsGenerated b a (some f) p (r, h) =
      (omega arith, rw (is_stage-later sql_generation f.stage (omega arith) (omega arith)) h)
  generate_step-IsGenerated b a none (some p) ((c, h), (q, single)) =
      simp (h.2, single)
        (generate_section-IsGenerated b a c (b.build_section q) (b.planning_context c) h)
  generate_step-IsGenerated b a none none h = absurd h

  pub generate_attempt-IsGenerated :
      (b : Boundary) (a : PlannedAttempt) → IsPlanned a → Post IsGenerated (generate_attempt b a)
  unfolding generate_attempt
  generate_attempt-IsGenerated b a h = generate_step-IsGenerated b a a.failure a.plan h
