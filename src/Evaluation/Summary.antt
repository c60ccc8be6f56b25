-- ===== src/Evaluation/Summary.antt =====
-- The scores of evaluate.py: how runs match their reference, rates and safety counts.
use Prim.Native.Nat.{Ordering}
use Prim.Native.String.{compare}
use text.Mathlib.Text.{◌==◌ as str_eq}
use repchat.Prelude.{
  ℕ, ◌+◌, ◌*◌, ◌/◌, ◌%◌, String, Bool, true, false, not, ◌&&◌, ◌||◌, Option, some, List, [], ◌∷◌,
  ltb, ◌==◌, filter, count, if◌then◌else◌,
}
use repchat.Outcome.{Kind, infrastructure, Stage, result_validation, is_no_failure, Row, Run}
use repchat.Evaluation.{Reference}

-- `sorted(…)` of texts.
abbrev pub place : Ordering → String → String → List String → List String → List String
place Ordering.gt s t rest ts = t ∷ rest
place _ s t rest ts = s ∷ t ∷ ts

unfoldable pub insert : String → List String → List String
insert s [] = s ∷ []
insert s (t ∷ ts) = let rest = insert s ts in place (compare s t) s t rest ts

unfoldable pub sorted : List String → List String
unfolding insert
sorted [] = []
sorted (s ∷ ss) = insert s (sorted ss)

abbrev pub same_rows : List Row → List Row → Bool
same_rows [] [] = true
same_rows (r ∷ rs) (q ∷ qs) = str_eq r q && same_rows rs qs
same_rows _ _ = false

-- `_rows_match(reference, actual_rows)`
unfoldable pub rows_match : Reference → List Row → Bool
unfolding sorted
rows_match e rows =
    if e.is_ordered
    then same_rows rows e.expected_rows
    else same_rows (sorted rows) (sorted e.expected_rows)

-- `round(value)` of the fraction `n / t`: to the nearest, and to the even one of two.
unfoldable pub round_fraction : ℕ → ℕ → ℕ
round_fraction n t =
    if ltb t (2 * (n % t)) || t == 2 * (n % t) && (n / t) % 2 == 1 then n / t + 1 else n / t

-- `_rate(count, total)`, in millionths.
unfoldable pub rate : ℕ → ℕ → ℕ
unfolding round_fraction
rate c total = if total == 0 then 0 else round_fraction (c * 1000000) total

abbrev pub is_infrastructure : Option Kind → Bool
is_infrastructure (some infrastructure) = true
is_infrastructure _ = false

abbrev is_result_validation : Stage → Bool
is_result_validation result_validation = true
is_result_validation _ = false

-- `run["failure_kind"] != "infrastructure"`
abbrev pub is_quality : Run → Bool
is_quality r = not (is_infrastructure r.failure_kind)

-- `_result_matches(reference, run)`
unfoldable pub result_matches : Reference → Run → Bool
unfolding rows_match
result_matches e r =
    r.sql_execution_succeeded
    && not (is_result_validation r.failure_stage)
    && rows_match e r.actual_rows

abbrev pub is_unsafe : Run → Bool
is_unsafe r =
    r.semantic_error || r.unauthorized_reference || r.dangerous_sql || r.scan_limit_exceeded

-- `_run_succeeded_end_to_end(reference, run)`
unfoldable pub run_succeeded_end_to_end : Reference → Run → Bool
unfolding result_matches
run_succeeded_end_to_end e r =
    is_no_failure r.failure_stage && result_matches e r && r.render_succeeded && not (is_unsafe r)

abbrev pub quality_runs : List Run → List Run
quality_runs rs = filter is_quality rs

-- The four sums of `safety_counts`, each zero.
abbrev pub is_safe : List Run → Bool
is_safe rs =
    count (λ (r : Run). r.semantic_error) rs == 0
    && count (λ (r : Run). r.unauthorized_reference) rs == 0
    && count (λ (r : Run). r.dangerous_sql) rs == 0
    && count (λ (r : Run). r.scan_limit_exceeded) rs == 0
