-- ===== src/Evaluation/Acceptance.antt =====
-- What the acceptance of a bundle says of its schemas, its cases and its runs.
use text.Mathlib.Text.{◌==◌ as str_eq}
use repchat.Prelude.{
  ℕ, ◌<◌, ◌≤◌, ◌≡◌, refl, sym, ap, Bool, true, false, not, ◌&&◌, some, arith, ◌==◌, all, length,
  get_elem?, all-get, length-filter, filter, any_of-get, filter-get, sum_by-positive,
  count-positive,
}
use repchat.Outcome.{Run, no_failure}
use repchat.Evaluation.{
  nested_unnest, multi_level_nesting, join, period_comparison, window_function, ordered_behavior,
  Capability, Reference, Case, Schema, Thresholds, Bundle,
}
use repchat.Evaluation.Validation.{
  validate_reference, validate_runtime_inputs, validate_fingerprints, validate_bundle,
  validate_structure, validate_thresholds, validate_runs, required_capabilities, same_capability,
  has_capability,
}
use repchat.Evaluation.Summary.{is_quality, is_unsafe, result_matches, run_succeeded_end_to_end}
use repchat.Evaluation.Matching.{Matches, rows_match_lem}
use mathlib.Core.Path.{◌∙◌}
use repchat.Evaluation.Reports.{
  Report, summarize_schema, capability_success_count, independently_reviewed, evaluate_bundle,
}
use repchat.Evaluation.Passed.{
  scored, report-schema, schema-case, case_facts, case-run, rendered_completed, valid_run,
  is_no_failure-true,
}

-- In a bundle that is evaluated and passes, every run of every case of every schema has completed:
-- it failed at no stage, its SQL was executed, it was rendered, no safety flag of it is set and it
-- is no infrastructure failure.
pub passed_completed :
    (b : Bundle) (r : Report) (i j k : ℕ) (s : Schema) (c : Case) (q : Run)
    → evaluate_bundle b ≡ some r
    → r.passed ≡ true
    → get_elem? b.schemas i ≡ some s
    → get_elem? s.cases j ≡ some c
    → get_elem? c.runs k ≡ some q
    → (q.failure_stage ≡ no_failure)
      × (q.sql_execution_succeeded ≡ true)
      × (q.render_succeeded ≡ true)
      × (is_unsafe q ≡ false)
      × (is_quality q ≡ true)
passed_completed b r i j k s c q h passed es ec eq =
    let (valid, same) = scored b r h in
    let schema = report-schema b i s (rw same at passed) es in
    let (quality, rendered, safe) =
      case-run b.thresholds c k q (schema-case b.thresholds s j c schema ec) eq in
    let (stage, executed) =
      rendered_completed q (valid_run b i j k s c q valid es ec eq) rendered in
    (stage, executed, rendered, safe, quality)

second_of_six : (a b c d e f : Bool) → (a && b && c && d && e && f) ≡ true → b ≡ true
second_of_six a b c d e f h = ground arith

valid_thresholds : (b : Bundle) → validate_bundle b ≡ true → validate_thresholds b.thresholds ≡ true
unfolding validate_bundle
valid_thresholds b h =
    second_of_six (validate_structure b) (validate_thresholds b.thresholds)
      (all (λ x. all validate_reference x.cases) b.schemas)
      (all (λ x. all validate_runs x.cases) b.schemas) (all validate_runtime_inputs b.schemas)
      (validate_fingerprints b) h

minimum_of_thresholds :
    (t : Thresholds) → validate_thresholds t ≡ true → 3 ≤ t.minimum_runs_per_case
minimum_of_thresholds t h = ground arith

is_counted : (n : ℕ) → not (n == 0) ≡ true → 0 < n
is_counted n h = ground arith

same_capability-true : (k l : Capability) → same_capability k l ≡ true → k ≡ l
same_capability-true nested_unnest nested_unnest h = refl
same_capability-true multi_level_nesting multi_level_nesting h = refl
same_capability-true join join h = refl
same_capability-true period_comparison period_comparison h = refl
same_capability-true window_function window_function h = refl
same_capability-true ordered_behavior ordered_behavior h = refl
same_capability-true _ _ h = ground arith

-- A run that failed at no stage, whose SQL was executed and had the rows of the reference, that was
-- rendered, and of which no safety flag is set.
pub record Succeeds (e : Reference) (q : Run) : Type 0 where
  pub stage : q.failure_stage ≡ no_failure
  pub executed : q.sql_execution_succeeded ≡ true
  pub rows : Matches e.is_ordered q.actual_rows e.expected_rows
  pub rendered : q.render_succeeded ≡ true
  pub semantic : q.semantic_error ≡ false
  pub reference : q.unauthorized_reference ≡ false
  pub dangerous : q.dangerous_sql ≡ false
  pub scan : q.scan_limit_exceeded ≡ false

-- A schema has a case with a capability and a run of it that succeeded.
pub record IsCovered (s : Schema) (k : Capability) : Type 0 where
  pub case_at : ℕ
  pub case : Case
  pub is_case : get_elem? s.cases case_at ≡ some case
  pub capability_at : ℕ
  pub capable : get_elem? case.capabilities capability_at ≡ some k
  pub run_at : ℕ
  pub run : Run
  pub is_run : get_elem? case.runs run_at ≡ some run
  pub succeeded : Succeeds case.reference run

run_succeeded_end_to_end-Succeeds :
    (e : Reference) (q : Run) → run_succeeded_end_to_end e q ≡ true → Succeeds e q
unfolding run_succeeded_end_to_end result_matches
run_succeeded_end_to_end-Succeeds e q h = record {
  stage = is_no_failure-true q.failure_stage (ground arith);
  executed = ground arith;
  rows = rows_match_lem e q.actual_rows (ground arith);
  rendered = ground arith;
  semantic = ground arith;
  reference = ground arith;
  dangerous = ground arith;
  scan = ground arith;
}

-- A capability that counts a success is covered.
capability_success_count-IsCovered :
    (s : Schema) (k : Capability) → 0 < capability_success_count s.cases k → IsCovered s k
unfolding capability_success_count
capability_success_count-IsCovered s k h =
    let (n, (c, kept, some_run)) = sum_by-positive _ (filter (has_capability k) s.cases) h in
    let (j, at_case, has) = filter-get (has_capability k) s.cases n c kept in
    let (l, (k', at_capability, same)) = any_of-get (same_capability k) c.capabilities has in
    let (i, (q, at_run, done)) =
      count-positive (run_succeeded_end_to_end c.reference) c.runs some_run in
    record {
      case_at = j;
      case = c;
      is_case = at_case;
      capability_at = l;
      capable = at_capability ∙ ap (λ x. some x) (sym (same_capability-true k k' same));
      run_at = i;
      run = q;
      is_run = at_run;
      succeeded = run_succeeded_end_to_end-Succeeds c.reference q done;
    }

schema_facts :
    (t : Thresholds) (s : Schema)
    → (summarize_schema t s).passed ≡ true
    → (all (λ k. not (capability_success_count s.cases k == 0)) required_capabilities ≡ true)
      × (all independently_reviewed s.cases ≡ true)
unfolding summarize_schema
schema_facts t s h = (ground arith, ground arith)

is_required : (k : Capability) → (i : ℕ) × (get_elem? required_capabilities i ≡ some k)
is_required join = (0, refl)
is_required multi_level_nesting = (1, refl)
is_required nested_unnest = (2, refl)
is_required ordered_behavior = (3, refl)
is_required period_comparison = (4, refl)
is_required window_function = (5, refl)

-- In a bundle that is evaluated and passes, every case of every schema has at least three runs, and
-- its reference was not reviewed by its author; and for each capability every schema has a case
-- that lists it and a run of that case that failed at no stage, whose SQL was executed and had the
-- rows of the reference, that was rendered, and of which no safety flag is set.
pub passed_policy :
    (b : Bundle) (r : Report) (i j : ℕ) (s : Schema) (c : Case) (k : Capability)
    → evaluate_bundle b ≡ some r
    → r.passed ≡ true
    → get_elem? b.schemas i ≡ some s
    → get_elem? s.cases j ≡ some c
    → (3 ≤ length c.runs)
      × (str_eq c.reference.author_id c.reference.reviewer_id ≡ false)
      × IsCovered s k
passed_policy b r i j s c k h passed es ec =
    let (valid, same) = scored b r h in
    let schema = report-schema b i s (rw same at passed) es in
    let (capable, reviewed) = schema_facts b.thresholds s schema in
    let least = minimum_of_thresholds b.thresholds (valid_thresholds b valid) in
    let (enough, _, _, _) = case_facts b.thresholds c (schema-case b.thresholds s j c schema ec) in
    let independent = all-get independently_reviewed s.cases j c reviewed ec in
    let (n, e) = is_required k in
    let succeeded =
      all-get (λ x. not (capability_success_count s.cases x == 0)) required_capabilities n k capable
        e in
    (
      omega (arith, enough, least, length-filter is_quality c.runs),
      ground arith,
      capability_success_count-IsCovered s k
          (is_counted (capability_success_count s.cases k) succeeded),
    )
