-- ===== src/Pipeline/Boundary.antt =====
-- What the pipeline calls: the common modules of spikes/report-generation and, through them, the
-- BigQuery client, the Vertex client and the renderer process. One value answers the calls of one
-- planned run, so an answer may differ from run to run.
use repchat.Prelude.{ℕ, String, ◌≡◌, Bool, false, Option, none, some, List}
use repchat.Text.{is_blank}
use repchat.Diagnostic.{Code}
use repchat.Outcome.{Row, sql_validation, dry_run, execution}
use repchat.Outcome.Diagnosed.{diagnostic_stage}
use repchat.BigQuery.Validation.{Policy}
use repchat.Pipeline.Result.{Result, ok, err, context_invalid}
use repchat.Pipeline.Attempts.{
  Snapshot, Contract, Usage, Panel, Plan, Section, Inspection, QueryExecution, DashboardResult,
}

-- `discover_scope(bq, scope)`: a snapshot, `ScopeDiscoveryInfrastructureError`, or another
-- `ScopeDiscoveryError`.
pub data Discovery : Type 0 where
  discovered : Snapshot → Discovery
  discovery_infrastructure discovery_error : Discovery

-- `generate_discovered_contract_artifacts(…)`: the artifacts,
-- `ScopeDiscoveryInfrastructureError`, or `ContractCompilerError` or `ScopeDiscoveryError`.
pub data Generation : Type 0 where
  generated : Snapshot → Contract → Usage → Generation
  generation_infrastructure generation_error : Generation

-- A number where a cost is expected: finite and not negative, or anything else.
pub data Number : Type 0 where
  non_negative : ℕ → Number
  other_number : Number

-- An event of the planner: of type "plan", with its plan (`none` where that is no `dict`) and its
-- cost, or of another type.
pub data Event : Type 0 where
  plan_event : Option Plan → Number → Event
  other_event : Event

-- `planning_runner(…)`: the events that it emits, `AnalysisWorkflowOutputError`, or another
-- exception.
pub data Planning : Type 0 where
  planned : List Event → Planning
  output_error planning_raised : Planning

-- `planning_period(contract)` and `sql_rules(contract)`
pub record Context : Type 0 where
  pub period : Option String
  pub rules : String

-- The answer `dict` of the SQL role; a field is `none` or `false` where its type is another.
pub record Answer : Type 0 where
  pub sql : Option String
  pub reason_is_text : Bool
  pub undefined_terms : Option (List String)
  pub clarification_is_text : Bool

-- `sql_runner(…)`: the answer (`none` where it is no `dict`) with its cost by `vertex_cost_jpy`
-- (`none` where that raises `KeyError`), `SQLGenerationError`, or another exception.
pub data Generating : Type 0 where
  answered : Option Answer → Option Number → Generating
  generating_error generating_raised : Generating

-- `renderer(payload)`: its result, `RendererInfrastructureError`, or another exception.
pub data Rendering : Type 0 where
  rendered : Bool → Rendering
  renderer_infrastructure renderer_raised : Rendering

pub record Boundary : Type 0 where
  pub discover : Discovery
  pub generate_contract : Snapshot → Generation
  pub run_planner : Contract → String → Planning
  -- `require_specification_contract` lets the plan through.
  pub meets_specification : Plan → Contract → Bool
  -- `build_planned_analysis_section(panel)`; `none` is `UnsupportedVisualizationError` or a
  -- `KeyError`.
  pub build_section : Panel → Option Section
  -- What `sql_runner` is given of the contract; `none` is `AnalysisContextError`.
  pub planning_context : Contract → Option Context
  pub generate_sql : Section → Context → Generating
  -- `execution_policy(contract)`; `none` is `AnalysisContextError`.
  pub execution_policy : Contract → Option Policy
  -- `validate_sql_diagnostic`: the normalized text and the refusal.
  pub validate_sql : String → Policy → Option String × Option Code
  -- `contract_period_diagnostic` finds something.
  pub period_refused : String → Policy → Bool
  -- `validate_generated_dashboard_sql` raises `SQLContractError`.
  pub dashboard_refused : Section → String → Policy → Bool
  -- `inspect_bq_dry_run_diagnostic`
  pub inspect_dry_run : String → Policy → Option Inspection × Option Code
  -- `contract_result_diagnostic` finds something.
  pub result_refused : Section → List (List String) → Policy → Bool
  -- `validate_dashboard_dry_run_schema` raises `SQLContractError`.
  pub schema_refused : Section → List (List String) → Bool
  -- `execute_bq_diagnostic`
  pub execute : String → ℕ → Policy → Option QueryExecution × Option Code
  -- `validate_dashboard_result`; `none` is `ResultValidationError`.
  pub validate_result : Section → List Row → List String → ℕ → Policy → Option DashboardResult
  pub render : String → List String → List Row → Rendering

-- What the pipeline relies on: a text that local validation accepts is not blank; a refusal of
-- local validation has a code of that stage; and on a text that local validation has accepted, the
-- dry run and the execution refuse only with codes of their own stages.
pub record IsLawful (b : Boundary) : Type 0 where
  pub accepted_not_blank :
      (s t : String) (p : Policy) → b.validate_sql s p ≡ (some t, none) → is_blank t ≡ false
  pub validation_codes :
      (s : String) (p : Policy) (t : Option String) (k : Code)
      → b.validate_sql s p ≡ (t, some k)
      → diagnostic_stage k ≡ sql_validation
  pub dry_run_codes :
      (s t : String) (p : Policy) (i : Option Inspection) (k : Code)
      → b.validate_sql s p ≡ (some t, none)
      → b.inspect_dry_run t p ≡ (i, some k)
      → diagnostic_stage k ≡ dry_run
  pub execution_codes :
      (s t : String) (p : Policy) (n : ℕ) (x : Option QueryExecution) (k : Code)
      → b.validate_sql s p ≡ (some t, none)
      → b.execute t n p ≡ (x, some k)
      → diagnostic_stage k ≡ execution

-- A call for the policy of a contract, whose `AnalysisContextError` no stage catches.
abbrev pub policy_of : Option Policy → Result Policy
policy_of none = err context_invalid
policy_of (some p) = ok p
