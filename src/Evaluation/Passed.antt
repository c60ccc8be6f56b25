-- ===== src/Evaluation/Passed.antt =====
-- What a passed report, a passed case and a valid run have.
use text.Mathlib.Text.{◌==◌ as str_eq}
use repchat.Prelude.{
  ℕ, ◌≤◌, ◌≡◌, refl, Bool, true, false, ◌&&◌, ◌||◌, some, List, [], ◌∷◌, map, arith, inl, inr,
  Bool-cases, all, length, get_elem?, all-get, count-get, length-filter-get, all-filter-get,
}
use repchat.Text.{is_machine_code}
use repchat.Outcome.{
  Run, no_failure, Verdict, accepted, rejected, Fault, require, outcome_conflict, stage_unsupported,
  code_unsafe, is_supported, check_kind, ◌>>◌, validate_run_outcome, is_no_failure, Stage,
  outcome_fits,
}
use repchat.Evaluation.{Case, Schema, Thresholds, Bundle}
use repchat.Evaluation.Validation.{
  validate_reference, validate_runtime_inputs, validate_fingerprints, validate_bundle,
  validate_structure, validate_thresholds, validate_runs, validate_run, is_accepted,
}
use repchat.Evaluation.Summary.{is_quality, quality_runs, is_safe, is_unsafe}
use repchat.Evaluation.Reports.{
  SchemaReport, Report, summarize_case, summarize_schema, report, evaluate_bundle,
}

all-map :
    {A B : Type 0} (p : B → Bool) (f : A → B) (xs : List A)
    → all p (map f xs) ≡ all (λ x. p (f x)) xs
all-map p f [] = refl
all-map p f (x ∷ xs) = rw (all-map p f xs) refl

-- A bundle that is scored was valid, and its report is the one of its schemas.
pub scored :
    (b : Bundle) (r : Report)
    → evaluate_bundle b ≡ some r
    → (validate_bundle b ≡ true) × (r ≡ report b)
unfolding evaluate_bundle
scored b r h = elim (Bool-cases (validate_bundle b)) [
  | inl e ↦ (e, let h' = rw e at h in cc)
  | inr e ↦ absurd (let h' = rw e at h in cc)
]

pub report-schema :
    (b : Bundle) (i : ℕ) (s : Schema)
    → (report b).passed ≡ true
    → get_elem? b.schemas i ≡ some s
    → (summarize_schema b.thresholds s).passed ≡ true
unfolding report
report-schema b i s h e =
    let every =
      all-map (λ (r : SchemaReport). r.passed) (summarize_schema b.thresholds) b.schemas in
    all-get (λ x. (summarize_schema b.thresholds x).passed) b.schemas i s (ground (arith, every)) e

pub schema-case :
    (t : Thresholds) (s : Schema) (j : ℕ) (c : Case)
    → (summarize_schema t s).passed ≡ true
    → get_elem? s.cases j ≡ some c
    → (summarize_case t c).passed ≡ true
unfolding summarize_schema
schema-case t s j c h e = all-get (λ x. (summarize_case t x).passed) s.cases j c (ground arith) e

pub case_facts :
    (t : Thresholds) (c : Case)
    → (summarize_case t c).passed ≡ true
    → (t.minimum_runs_per_case ≤ length (quality_runs c.runs))
      × (all (λ (r : Run). r.render_succeeded) (quality_runs c.runs) ≡ true)
      × (is_safe c.runs ≡ true)
      × (length c.runs ≤ length (quality_runs c.runs))
unfolding summarize_case
case_facts t c h = (ground arith, ground arith, ground arith, ground arith)

is_safe-get :
    (rs : List Run) (k : ℕ) (q : Run)
    → is_safe rs ≡ true
    → get_elem? rs k ≡ some q
    → is_unsafe q ≡ false
is_safe-get rs k q h e =
    let semantic = count-get (λ (r : Run). r.semantic_error) rs k q (ground arith) e in
    let reference = count-get (λ (r : Run). r.unauthorized_reference) rs k q (ground arith) e in
    let dangerous = count-get (λ (r : Run). r.dangerous_sql) rs k q (ground arith) e in
    let scan = count-get (λ (r : Run). r.scan_limit_exceeded) rs k q (ground arith) e in
    rw (semantic, reference, dangerous, scan) refl

-- In a case that passed, a run is no infrastructure failure, rendered and safe.
pub case-run :
    (t : Thresholds) (c : Case) (k : ℕ) (q : Run)
    → (summarize_case t c).passed ≡ true
    → get_elem? c.runs k ≡ some q
    → (is_quality q ≡ true) × (q.render_succeeded ≡ true) × (is_unsafe q ≡ false)
case-run t c k q h e =
    let (enough, rendered, safe, every) = case_facts t c h in
    let quality = length-filter-get is_quality c.runs k q every e in
    (
      quality,
      all-filter-get is_quality (λ (r : Run). r.render_succeeded) c.runs k q rendered quality e,
      is_safe-get c.runs k q safe e,
    )

is_accepted-true : (v : Verdict) → is_accepted v ≡ true → v ≡ accepted
is_accepted-true accepted h = refl
is_accepted-true (rejected f) h = cc

pub is_no_failure-true : (s : Stage) → is_no_failure s ≡ true → s ≡ no_failure
is_no_failure-true no_failure h = refl
is_no_failure-true _ h = ground arith

sequence-last : (v w : Verdict) → v >> w ≡ accepted → w ≡ accepted
sequence-last accepted w h = h
sequence-last (rejected f) w h = cc

require-true : (b : Bool) (f : Fault) → require b f ≡ accepted → b ≡ true
require-true true f h = refl
require-true false f h = cc

-- The tests of `validate_run_outcome` before the last.
abbrev leading_tests : Run → Verdict
leading_tests r =
    require (is_supported r.failure_stage) stage_unsupported
    >> require (str_eq r.failure_code "" || is_machine_code r.failure_code) code_unsafe
    >> check_kind r.failure_kind r.failure_stage

-- A valid run that was rendered has completed every stage.
pub rendered_completed :
    (q : Run)
    → validate_run_outcome q ≡ accepted
    → q.render_succeeded ≡ true
    → (q.failure_stage ≡ no_failure) × (q.sql_execution_succeeded ≡ true)
unfolding validate_run_outcome
rendered_completed q h done =
    let fits : outcome_fits q ≡ true =
      require-true (outcome_fits q) outcome_conflict
        (sequence-last (leading_tests q) (require (outcome_fits q) outcome_conflict) h) in
    elim (Bool-cases (is_no_failure q.failure_stage)) [
      | inl end ↦ (is_no_failure-true q.failure_stage end, ground arith)
      | inr early ↦ absurd (ground arith)
    ]

fourth_of_six : (a b c d e f : Bool) → (a && b && c && d && e && f) ≡ true → d ≡ true
fourth_of_six a b c d e f h = ground arith

last_of_two : (a b : Bool) → (a && b) ≡ true → b ≡ true
last_of_two a b h = ground arith

second_of_four : (a b c d : Bool) → (a && b && c && d) ≡ true → b ≡ true
second_of_four a b c d h = ground arith

pub valid_run :
    (b : Bundle) (i j k : ℕ) (s : Schema) (c : Case) (q : Run)
    → validate_bundle b ≡ true
    → get_elem? b.schemas i ≡ some s
    → get_elem? s.cases j ≡ some c
    → get_elem? c.runs k ≡ some q
    → validate_run_outcome q ≡ accepted
unfolding validate_bundle
valid_run b i j k s c q h es ec eq =
    let every =
      fourth_of_six (validate_structure b) (validate_thresholds b.thresholds)
        (all (λ x. all validate_reference x.cases) b.schemas)
        (all (λ x. all validate_runs x.cases) b.schemas) (all validate_runtime_inputs b.schemas)
        (validate_fingerprints b) h in
    let cases = all-get (λ (x : Schema). all validate_runs x.cases) b.schemas i s every es in
    let runs = all-get validate_runs s.cases j c cases ec in
    let run = all-get validate_run c.runs k q (last_of_two _ _ runs) eq in
    is_accepted-true (validate_run_outcome q) (second_of_four _ _ _ _ run)
