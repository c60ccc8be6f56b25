-- ===== src/Evaluation/Tests.antt =====
-- A bundle of two schemas with one case each, and the theorems at it.
use text.Mathlib.Text.{◌==◌ as str_eq}
use repchat.Prelude.{◌≤◌, String, ◌≡◌, refl, true, false, some, [], ◌∷◌, arith}
use repchat.Text.{is_blank, is_space, is_sha256}
use repchat.Outcome.{Run, no_failure, no_kind, absent}
use repchat.Evaluation.{
  nested_unnest, multi_level_nesting, join, period_comparison, window_function, ordered_behavior,
  Case, Schema, Bundle,
}
use repchat.Evaluation.Summary.{is_unsafe, is_quality, rate}
use repchat.Evaluation.Reports.{report, evaluate_bundle, matching_runs}
use repchat.Evaluation.Acceptance.{IsCovered, passed_completed, passed_policy}
use repchat.Evaluation.Summary.{rows_match}
use repchat.Evaluation.Matching.{Matches, rows_match_lem}
use repchat.Evaluation.Rate.{matching_runs-rate}

abbrev digest : String
digest = "0123456789abcdef0123456789abcdef0123456789abcdef0123456789abcdef"

abbrev other_digest : String
other_digest = "fedcba9876543210fedcba9876543210fedcba9876543210fedcba9876543210"

abbrev run_of : String → String → Run
run_of scope name = record {
  run_id = name;
  fingerprints = record { runtime = digest; prompt = digest; configuration = digest };
  runtime_input = record {
    scope_snapshot_fingerprint = some scope;
    analysis_contract_fingerprint = some digest;
    question = "How much?";
  };
  generated_sql = "SELECT 1";
  failure_stage = no_failure;
  failure_code = "";
  failure_kind = some no_kind;
  diagnostic = absent;
  sql_execution_succeeded = true;
  actual_rows = "2" ∷ "1" ∷ [];
  unauthorized_reference = false;
  dangerous_sql = false;
  scan_limit_exceeded = false;
  semantic_error = false;
  render_succeeded = true;
  bytes_processed = 12;
  cost_jpy = 30;
}

abbrev case_of : String → Case
case_of scope = record {
  case_id = "sales";
  question = "How much?";
  capabilities =
      join ∷ multi_level_nesting ∷ nested_unnest ∷ ordered_behavior ∷ period_comparison
      ∷ window_function ∷ [];
  reference = record {
    sql = "SELECT 2";
    expected_rows = "1" ∷ "2" ∷ [];
    is_ordered = false;
    author_id = "ann";
    reviewer_id = "bob";
    reviewed_at = "2026-01-01";
  };
  runs = run_of scope "one" ∷ run_of scope "two" ∷ run_of scope "three" ∷ [];
}

abbrev schema_of_scope : String → String → Schema
schema_of_scope name scope = record {
  schema_id = name;
  scope_snapshot_fingerprint = scope;
  cases = case_of scope ∷ [];
}

abbrev bundle : Bundle
bundle = record {
  schemas = schema_of_scope "retail" digest ∷ schema_of_scope "travel" other_digest ∷ [];
  thresholds = record { minimum_runs_per_case = 3; minimum_result_match_rate = 900000 };
}

bundle_scored : evaluate_bundle bundle ≡ some (report bundle)
unfolding evaluate_bundle is_blank is_space is_sha256
bundle_scored = refl

bundle_passed : (report bundle).passed ≡ true
unfolding report
bundle_passed = refl

passed_completed_example :
    let q = run_of other_digest "two" in
    (q.failure_stage ≡ no_failure)
    × (q.sql_execution_succeeded ≡ true)
    × (q.render_succeeded ≡ true)
    × (is_unsafe q ≡ false)
    × (is_quality q ≡ true)
passed_completed_example =
    passed_completed bundle (report bundle) 1 0 1 (schema_of_scope "travel" other_digest)
      (case_of other_digest) (run_of other_digest "two") bundle_scored bundle_passed refl refl refl

passed_policy_example :
    (3 ≤ 3) × (str_eq "ann" "bob" ≡ false) × IsCovered (schema_of_scope "retail" digest) join
passed_policy_example =
    passed_policy bundle (report bundle) 0 0 (schema_of_scope "retail" digest) (case_of digest) join
      bundle_scored bundle_passed refl refl

matching_runs-rate_example : matching_runs (rate 2 3) 3 ≡ 2
matching_runs-rate_example = matching_runs-rate 2 3 (omega arith) (omega arith)

rows_match_unordered : rows_match (case_of digest).reference ("2" ∷ "1" ∷ []) ≡ true
unfolding rows_match
rows_match_unordered = refl

rows_match_lem_example : Matches false ("2" ∷ "1" ∷ []) ("1" ∷ "2" ∷ [])
rows_match_lem_example =
    rows_match_lem (case_of digest).reference ("2" ∷ "1" ∷ []) rows_match_unordered
