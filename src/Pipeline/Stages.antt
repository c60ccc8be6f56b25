-- ===== src/Pipeline/Stages.antt =====
-- The preflight, the planning and the SQL generation: preflight.py, manifest_planning.py and
-- manifest_sql_generation.py.
use repchat.Prelude.{
  String, Bool, true, false, not, ◌&&◌, ◌||◌, Option, none, some, List, [], ◌∷◌, if◌then◌else◌,
}
use text.Mathlib.Text.{◌==◌ as str_eq}
use repchat.Text.{is_blank, strip, is_revision}
use repchat.Outcome.{scope_discovery, analysis_contract_generation, planning, sql_generation}
use repchat.Pipeline.Attempts.{
  Failure, Snapshot, Contract, Usage, PreflightResult, PreflightAttempt, Plan, Panel, Section,
  PlannedAttempt, GeneratedAttempt,
}
use repchat.Pipeline.Result.{
  Result, ok, err, ◌>>=◌, section_unsupported, context_invalid, call_raised, contract_missing,
  panel_count_invalid, cost_invalid, specification_mismatch,
}
use repchat.Pipeline.Boundary.{
  Boundary, Discovery, discovered, discovery_infrastructure, discovery_error, Generation, generated,
  generation_infrastructure, generation_error, Number, non_negative, other_number, Event,
  plan_event, other_event, Planning, planned, output_error, planning_raised, Context, Answer,
  Generating, answered, generating_error, generating_raised,
}

abbrev pub no_usage : Usage
no_usage = record { input_tokens = 0; output_tokens = 0 }

abbrev pub failed_preflight : String → Option Snapshot → Option Usage → Failure → PreflightResult
failed_preflight q d u f = record {
  question = q;
  discovery = d;
  contract = none;
  usage = u;
  failure = some f;
}

abbrev pub after_contract : String → Snapshot → Generation → PreflightResult
after_contract q d generation_infrastructure = failed_preflight q (some d) none (record {
  stage = analysis_contract_generation;
  code = "analysis_contract_generation_infrastructure_failed";
})
after_contract q d generation_error =
    failed_preflight q (some d) none (record {
      stage = analysis_contract_generation;
      code = "analysis_contract_generation_failed";
    })
after_contract q d (generated d' c u) = record {
  question = q;
  discovery = some d';
  contract = some c;
  usage = some u;
  failure = none;
}

abbrev pub after_discovery : Boundary → String → Discovery → PreflightResult
after_discovery b q discovery_infrastructure =
    failed_preflight q none none
      (record { stage = scope_discovery; code = "scope_discovery_infrastructure_failed" })
after_discovery b q discovery_error =
    failed_preflight q none (some no_usage)
      (record { stage = scope_discovery; code = "scope_discovery_failed" })
after_discovery b q (discovered d) = after_contract q d (b.generate_contract d)

-- `run_preflight` of preflight.py
unfoldable pub run_preflight : Boundary → String → PreflightResult
run_preflight b q = after_discovery b q b.discover

abbrev pub failed_plan : PreflightAttempt → Failure → PlannedAttempt
failed_plan a f = record {
  preflight_attempt = a;
  plan = none;
  planning_cost_jpy = none;
  failure = some f;
}

abbrev pub planning_failed : Failure
planning_failed = record { stage = planning; code = "planning_failed" }

-- The events of type "plan".
abbrev pub plan_events : List Event → List (Option Plan × Number)
plan_events [] = []
plan_events (plan_event p n ∷ es) = (p, n) ∷ plan_events es
plan_events (other_event ∷ es) = plan_events es

abbrev pub is_empty : Option (List String) → Bool
is_empty (some []) = true
is_empty _ = false

abbrev pub is_single : Option (List String) → Bool
is_single (some (x ∷ [])) = true
is_single _ = false

abbrev pub is_fingerprint : Option String → String → Bool
is_fingerprint none s = false
is_fingerprint (some t) s = str_eq t s

-- The tests on the plan and its cost; the last clause is a plan or a cost of another type.
abbrev pub accept_plan :
    Boundary → PreflightAttempt → Contract → Option Plan → Number → Result PlannedAttempt
accept_plan b a c (some p) (non_negative cost) =
    if is_revision p.revision && is_empty p.clarifications && is_single p.panels
    then (if is_fingerprint p.analysis_contract_fingerprint c.fingerprint
        then (if b.meets_specification p c
            then ok (record {
              preflight_attempt = a;
              plan = some p;
              planning_cost_jpy = some cost;
              failure = none;
            })
            else err specification_mismatch)
        else ok (failed_plan a planning_failed))
    else ok (failed_plan a planning_failed)
accept_plan b a c _ _ = ok (failed_plan a planning_failed)

abbrev pub read_plan :
    Boundary → PreflightAttempt → Contract → List (Option Plan × Number) → Result PlannedAttempt
read_plan b a c ((p, n) ∷ []) = accept_plan b a c p n
read_plan b a c _ = ok (failed_plan a planning_failed)

abbrev pub plan_with : Boundary → PreflightAttempt → Contract → Planning → Result PlannedAttempt
plan_with b a c output_error = ok (failed_plan a planning_failed)
plan_with b a c planning_raised = err call_raised
plan_with b a c (planned es) = read_plan b a c (plan_events es)

abbrev pub plan_contract : Boundary → PreflightAttempt → Option Contract → Result PlannedAttempt
plan_contract b a none = err contract_missing
plan_contract b a (some c) = plan_with b a c (b.run_planner c a.result.question)

abbrev pub plan_step :
    Boundary → PreflightAttempt → Option Failure → Option Contract → Result PlannedAttempt
plan_step b a (some f) c = ok (failed_plan a f)
plan_step b a none c = plan_contract b a c

-- `_plan_attempt` of manifest_planning.py
unfoldable pub plan_attempt : Boundary → PreflightAttempt → Result PlannedAttempt
plan_attempt b a = plan_step b a a.result.failure a.result.contract

abbrev pub failed_generation : PlannedAttempt → Failure → GeneratedAttempt
failed_generation a f = record {
  planned_attempt = a;
  section = none;
  generated_sql = none;
  sql_generation_cost_jpy = none;
  failure = some f;
}

abbrev pub sql_generation_failed : Failure
sql_generation_failed = record { stage = sql_generation; code = "sql_generation_failed" }

-- The tests on the answer of the SQL role.
abbrev pub refused_answer : Answer → String → Bool
refused_answer w sql =
    is_blank sql
    || not w.reason_is_text
    || not (is_empty w.undefined_terms)
    || not w.clarification_is_text

abbrev pub accept_answer :
    PlannedAttempt → Section → Answer → Option String → Option Number → Result GeneratedAttempt
accept_answer a s w none n = ok (failed_generation a sql_generation_failed)
accept_answer a s w (some sql) n =
    if refused_answer w sql then ok (failed_generation a sql_generation_failed) else elim n [
      | none ↦ err call_raised
      | some other_number ↦ err cost_invalid
      | some (non_negative cost) ↦ ok (record {
        planned_attempt = a;
        section = some s;
        generated_sql = some (strip sql);
        sql_generation_cost_jpy = some cost;
        failure = none;
      })
    ]

abbrev pub read_answer : PlannedAttempt → Section → Generating → Result GeneratedAttempt
read_answer a s generating_error = ok (failed_generation a sql_generation_failed)
read_answer a s generating_raised = err call_raised
read_answer a s (answered none n) = ok (failed_generation a sql_generation_failed)
read_answer a s (answered (some w) n) = accept_answer a s w w.sql n

abbrev pub section_of : Option Section → Result Section
section_of none = err section_unsupported
section_of (some s) = ok s

abbrev pub context_of : Option Context → Result Context
context_of none = err context_invalid
context_of (some x) = ok x

abbrev pub generate_panels :
    Boundary → PlannedAttempt → Contract → Option (List Panel) → Result GeneratedAttempt
generate_panels b a c (some (p ∷ [])) = do
  s ← section_of (b.build_section p)
  x ← context_of (b.planning_context c)
  read_answer a s (b.generate_sql s x)
generate_panels b a c _ = err panel_count_invalid

abbrev pub generate_plan :
    Boundary → PlannedAttempt → Option Contract → Option Plan → Result GeneratedAttempt
generate_plan b a (some c) (some p) = generate_panels b a c p.panels
generate_plan b a _ _ = err contract_missing

abbrev pub generate_step :
    Boundary
    → PlannedAttempt
    → Option Failure
    → Option Contract
    → Option Plan
    → Result GeneratedAttempt
generate_step b a (some f) c p = ok (failed_generation a f)
generate_step b a none c p = generate_plan b a c p

-- `_generate_attempt` of manifest_sql_generation.py
unfoldable pub generate_attempt : Boundary → PlannedAttempt → Result GeneratedAttempt
generate_attempt b a = generate_step b a a.failure a.preflight_attempt.result.contract a.plan
