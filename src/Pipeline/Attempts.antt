-- ===== src/Pipeline/Attempts.antt =====
-- The attempt of each stage. Every later attempt holds the one before it.
use repchat.Prelude.{ℕ, String, Bool, true, false, Option, none, some, List}
use repchat.Diagnostic.{Code}
use repchat.Outcome.{Stage, Row, Fingerprints}

-- `failure_stage` and `failure_code`, which every constructor call sets together.
pub record Failure : Type 0 where
  pub stage : Stage
  pub code : String

-- `succeeded`
abbrev pub succeeded : Option Failure → Bool
succeeded none = true
succeeded (some f) = false

-- `DiscoverySnapshot`, of which the pipeline reads three fields.
pub record Snapshot : Type 0 where
  pub content_json : String
  pub fingerprint : String
  pub retrieved_at : String

-- `AnalysisContract`
pub record Contract : Type 0 where
  pub content_json : String
  pub fingerprint : String

pub record Usage : Type 0 where
  pub input_tokens : ℕ
  pub output_tokens : ℕ

-- `PreflightResult` of preflight.py
pub record PreflightResult : Type 0 where
  pub question : String
  pub discovery : Option Snapshot
  pub contract : Option Contract
  pub usage : Option Usage
  pub failure : Option Failure

-- `PlannedPreflightAttempt` of manifest_preflight.py
pub record PreflightAttempt : Type 0 where
  pub schema_id : String
  pub case_id : String
  pub run_id : String
  pub pipeline_fingerprints : Fingerprints
  pub result : PreflightResult

-- A panel of a plan, by its canonical JSON text.
abbrev pub Panel : Type 0
Panel = String

-- The fields of a plan `dict` that are read; `none` is a missing value or one of another type.
pub record Plan : Type 0 where
  pub revision : String
  pub clarifications : Option (List String)
  pub panels : Option (List Panel)
  pub analysis_contract_fingerprint : Option String

-- `PlannedAnalysisAttempt` of manifest_planning.py
pub record PlannedAttempt : Type 0 where
  pub preflight_attempt : PreflightAttempt
  pub plan : Option Plan
  pub planning_cost_jpy : Option ℕ
  pub failure : Option Failure

-- A section `dict`; `max_result_rows` is `none` where it is no positive integer.
pub record Section : Type 0 where
  pub content : String
  pub max_result_rows : Option ℕ

-- `GeneratedSQLAttempt` of manifest_sql_generation.py
pub record GeneratedAttempt : Type 0 where
  pub planned_attempt : PlannedAttempt
  pub section : Option Section
  pub generated_sql : Option String
  pub sql_generation_cost_jpy : Option ℕ
  pub failure : Option Failure

-- `ValidatedSQLAttempt` of manifest_sql_validation.py
pub record ValidatedAttempt : Type 0 where
  pub generated_attempt : GeneratedAttempt
  pub validated_sql : Option String
  pub failure : Option Failure
  pub unauthorized_reference : Bool
  pub dangerous_sql : Bool
  pub semantic_error : Bool
  pub diagnostic : Option Code

-- `DryRunInspection` of bigquery_execution.py
pub record Inspection : Type 0 where
  pub schema : List (List String)
  pub estimated_bytes_processed : ℕ

-- `DryRunAttempt` of manifest_dry_run.py
pub record DryRunAttempt : Type 0 where
  pub validated_attempt : ValidatedAttempt
  pub dry_run_schema : Option (List (List String))
  pub estimated_bytes_processed : Option ℕ
  pub failure : Option Failure
  pub unauthorized_reference : Bool
  pub dangerous_sql : Bool
  pub scan_limit_exceeded : Bool
  pub semantic_error : Bool
  pub diagnostic : Option Code

-- `QueryExecution` of bigquery_execution.py
pub record QueryExecution : Type 0 where
  pub rows : List Row
  pub columns : List String
  pub bytes_processed : ℕ

-- `ExecutionAttempt` of manifest_execution.py
pub record ExecutionAttempt : Type 0 where
  pub dry_run_attempt : DryRunAttempt
  pub rows : Option (List Row)
  pub columns : Option (List String)
  pub bytes_processed : Option ℕ
  pub failure : Option Failure
  pub scan_limit_exceeded : Bool
  pub diagnostic : Option Code

-- What `validate_dashboard_result` of result_validation.py returns.
pub record DashboardResult : Type 0 where
  pub rows : List Row
  pub columns : List String
  pub visualization : String

-- `ResultValidationAttempt` of manifest_result_validation.py
pub record ResultAttempt : Type 0 where
  pub execution_attempt : ExecutionAttempt
  pub rows : Option (List Row)
  pub columns : Option (List String)
  pub visualization : Option String
  pub bytes_processed : Option ℕ
  pub failure : Option Failure
  pub semantic_error : Bool

-- `RenderingAttempt` of manifest_rendering.py
pub record RenderingAttempt : Type 0 where
  pub result_attempt : ResultAttempt
  pub render_succeeded : Bool
  pub failure : Option Failure
