-- ===== src/Evaluation/Reports.antt =====
-- The reports of a case, of a schema and of a bundle in evaluate.py. The counts by failure stage and
-- the total cost of a schema are not kept.
use text.Mathlib.Text.{◌==◌ as str_eq}
use repchat.Prelude.{
  ℕ, ◌*◌, ◌-◌, String, Bool, true, false, not, ◌&&◌, Option, none, some, List, [], ◌∷◌, leb, ◌==◌,
  map, all, filter, count, length, sum_by, if◌then◌else◌,
}
use repchat.Outcome.{is_no_failure, Run}
use repchat.Evaluation.{Capability, Case, Schema, Thresholds, Bundle}
use repchat.Evaluation.Validation.{required_capabilities, has_capability, validate_bundle}
use repchat.Evaluation.Summary.{
  round_fraction, rate, result_matches, run_succeeded_end_to_end, quality_runs, is_safe,
}

-- The report of a case.
pub record CaseReport : Type 0 where
  pub case_id : String
  pub run_count : ℕ
  pub quality_run_count : ℕ
  pub infrastructure_failure_count : ℕ
  pub result_match_rate : ℕ
  pub render_success_rate : ℕ
  pub semantic_error_count : ℕ
  pub unauthorized_reference_count : ℕ
  pub dangerous_sql_count : ℕ
  pub scan_limit_exceeded_count : ℕ
  pub passed : Bool

-- `_summarize_case(case, thresholds)`
unfoldable pub summarize_case : Thresholds → Case → CaseReport
unfolding rate result_matches
summarize_case t c =
    let quality = length (quality_runs c.runs) in
    let matched = rate (count (result_matches c.reference) (quality_runs c.runs)) quality in
    let infrastructure_failures = length c.runs - quality in
    record {
      case_id = c.case_id;
      run_count = length c.runs;
      quality_run_count = quality;
      infrastructure_failure_count = infrastructure_failures;
      result_match_rate = matched;
      render_success_rate =
          rate (count (λ (r : Run). r.render_succeeded) (quality_runs c.runs)) quality;
      semantic_error_count = count (λ (r : Run). r.semantic_error) c.runs;
      unauthorized_reference_count = count (λ (r : Run). r.unauthorized_reference) c.runs;
      dangerous_sql_count = count (λ (r : Run). r.dangerous_sql) c.runs;
      scan_limit_exceeded_count = count (λ (r : Run). r.scan_limit_exceeded) c.runs;
      passed =
          leb t.minimum_runs_per_case quality
          && leb t.minimum_result_match_rate matched
          && all (λ (r : Run). r.render_succeeded) (quality_runs c.runs)
          && is_safe c.runs
          && infrastructure_failures == 0;
    }

-- The number of runs of the cases with a capability that succeeded, for `_summarize_capabilities`.
unfoldable pub capability_success_count : List Case → Capability → ℕ
unfolding run_succeeded_end_to_end
capability_success_count cs k =
    sum_by (λ (c : Case). count (run_succeeded_end_to_end c.reference) c.runs)
      (filter (has_capability k) cs)

-- The report of a schema.
pub record SchemaReport : Type 0 where
  pub schema_id : String
  pub case_count : ℕ
  pub cases : List CaseReport
  pub capability_success_counts : List ℕ
  pub run_count : ℕ
  pub quality_run_count : ℕ
  pub infrastructure_failure_count : ℕ
  pub failure_count : ℕ
  pub sql_execution_success_rate : ℕ
  pub result_match_rate : ℕ
  pub render_success_rate : ℕ
  pub semantic_error_rate : ℕ
  pub unauthorized_reference_count : ℕ
  pub dangerous_sql_count : ℕ
  pub scan_limit_exceeded_count : ℕ
  pub total_bytes_processed : ℕ
  pub passed : Bool

abbrev pub independently_reviewed : Case → Bool
independently_reviewed c =
    not (str_eq c.reference.author_id c.reference.reviewer_id)
    && not (str_eq c.reference.reviewed_at "")

abbrev is_some_case : List Case → Bool
is_some_case [] = false
is_some_case (c ∷ cs) = true

-- `_summarize_schema(schema, thresholds)`; a sum over all runs is the sum of its cases' sums.
unfoldable pub summarize_schema : Thresholds → Schema → SchemaReport
unfolding summarize_case capability_success_count rate
summarize_schema t s =
    let runs = sum_by (λ (c : Case). length c.runs) s.cases in
    let quality = sum_by (λ (c : Case). length (quality_runs c.runs)) s.cases in
    let matches =
      sum_by (λ (c : Case). count (result_matches c.reference) (quality_runs c.runs)) s.cases in
    record {
      schema_id = s.schema_id;
      case_count = length s.cases;
      cases = map (summarize_case t) s.cases;
      capability_success_counts = map (capability_success_count s.cases) required_capabilities;
      run_count = runs;
      quality_run_count = quality;
      infrastructure_failure_count = runs - quality;
      failure_count =
          sum_by (λ (c : Case). count (λ (r : Run). not (is_no_failure r.failure_stage)) c.runs)
            s.cases;
      sql_execution_success_rate =
          rate
            (sum_by
              (λ (c : Case). count (λ (r : Run). r.sql_execution_succeeded) (quality_runs c.runs))
              s.cases)
            quality;
      result_match_rate = rate matches quality;
      render_success_rate =
          rate
            (sum_by (λ (c : Case). count (λ (r : Run). r.render_succeeded) (quality_runs c.runs))
              s.cases)
            quality;
      semantic_error_rate =
          rate (sum_by (λ (c : Case). count (λ (r : Run). r.semantic_error) c.runs) s.cases)
            quality;
      unauthorized_reference_count =
          sum_by (λ (c : Case). count (λ (r : Run). r.unauthorized_reference) c.runs) s.cases;
      dangerous_sql_count =
          sum_by (λ (c : Case). count (λ (r : Run). r.dangerous_sql) c.runs) s.cases;
      scan_limit_exceeded_count =
          sum_by (λ (c : Case). count (λ (r : Run). r.scan_limit_exceeded) c.runs) s.cases;
      total_bytes_processed =
          sum_by (λ (c : Case). sum_by (λ (r : Run). r.bytes_processed) c.runs) s.cases;
      passed =
          is_some_case s.cases
          && all (λ c. (summarize_case t c).passed) s.cases
          && all (λ k. not (capability_success_count s.cases k == 0)) required_capabilities
          && all independently_reviewed s.cases
          && leb t.minimum_result_match_rate (rate matches quality)
          && all (λ (c : Case). is_safe c.runs) s.cases
          && runs - quality == 0;
    }

-- `round(rate * quality_run_count)`
unfoldable pub matching_runs : ℕ → ℕ → ℕ
unfolding round_fraction
matching_runs r quality = round_fraction (r * quality) 1000000

pub record Report : Type 0 where
  pub schema_count : ℕ
  pub run_count : ℕ
  pub quality_run_count : ℕ
  pub infrastructure_failure_count : ℕ
  pub result_match_rate : ℕ
  pub schemas : List SchemaReport
  pub passed : Bool

unfoldable pub report : Bundle → Report
unfolding summarize_schema matching_runs rate
report b =
    let rs = map (summarize_schema b.thresholds) b.schemas in
    let quality = sum_by (λ (r : SchemaReport). r.quality_run_count) rs in
    record {
      schema_count = length rs;
      run_count = sum_by (λ (r : SchemaReport). r.run_count) rs;
      quality_run_count = quality;
      infrastructure_failure_count =
          sum_by (λ (r : SchemaReport). r.infrastructure_failure_count) rs;
      result_match_rate =
          rate
            (sum_by (λ (r : SchemaReport). matching_runs r.result_match_rate r.quality_run_count)
              rs)
            quality;
      schemas = rs;
      passed = leb 2 (length rs) && all (λ (r : SchemaReport). r.passed) rs;
    }

-- `evaluate_bundle(bundle)`; `none` is an `EvaluationEvidenceError`.
unfoldable pub evaluate_bundle : Bundle → Option Report
unfolding validate_bundle report
evaluate_bundle b = if validate_bundle b then some (report b) else none
