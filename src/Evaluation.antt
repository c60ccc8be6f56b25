-- ===== src/Evaluation.antt =====
-- The evidence bundle of an evaluation and its acceptance: evaluate.py and evaluation_capabilities.py
-- of spikes/schema-generalization-evaluation, on values of the types that its fields must have.
pub mod Validation
pub mod Summary
pub mod Reports
pub mod Passed
pub mod Acceptance
pub mod Rate
pub mod Matching
mod Tests
use repchat.Prelude.{ℕ, String, Bool, List}
use repchat.Outcome.{Row, Run}

-- `REQUIRED_CAPABILITIES`
pub data Capability : Type 0 where
  nested_unnest multi_level_nesting join period_comparison window_function ordered_behavior :
      Capability

pub record Reference : Type 0 where
  pub sql : String
  pub expected_rows : List Row
  -- `row_order` is "ordered" or "unordered".
  pub is_ordered : Bool
  pub author_id : String
  pub reviewer_id : String
  pub reviewed_at : String

pub record Case : Type 0 where
  pub case_id : String
  pub question : String
  pub capabilities : List Capability
  pub reference : Reference
  pub runs : List Run

pub record Schema : Type 0 where
  pub schema_id : String
  pub scope_snapshot_fingerprint : String
  pub cases : List Case

-- The match rate is the least number of millionths that meets it.
pub record Thresholds : Type 0 where
  pub minimum_runs_per_case : ℕ
  pub minimum_result_match_rate : ℕ

pub record Bundle : Type 0 where
  pub schemas : List Schema
  pub thresholds : Thresholds
