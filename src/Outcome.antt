-- ===== src/Outcome.antt =====
-- One recorded run of an evaluation and the validators of its outcome: run_outcome.py of
-- spikes/schema-generalization-evaluation.
pub mod Diagnosed
use text.Mathlib.Text.{◌==◌ as str_eq, starts_with}
use repchat.Prelude.{
  ℕ, String, Bool, true, false, not, ◌&&◌, ◌||◌, Option, none, some, List, [], ◌∷◌, if◌then◌else◌,
}
use repchat.Text.{is_blank, is_machine_code}
use repchat.Diagnostic.{
  Category, Code, sql_diagnostic, value_of, invalid_request, unauthorized_reference, dangerous_sql,
  scan_limit_exceeded, provider_failure, infrastructure_failure, cancelled,
}

-- A text in `failure_stage`; `unsupported` is any value outside the closed set.
pub data Stage : Type 0 where
  no_failure scope_discovery analysis_contract_generation planning sql_generation : Stage
  sql_validation dry_run execution result_validation rendering unsupported : Stage

-- A text in `failure_kind`; `unsupported_kind` is any value outside the closed set.
pub data Kind : Type 0 where
  no_kind quality infrastructure unsupported_kind : Kind

-- A value in `diagnostic`: `None`, a value that is no dict of exactly `code` and `category` (with
-- what its `get("category")` gives), or such a dict, where `none` is an unknown identifier.
pub data Recorded : Type 0 where
  absent : Recorded
  malformed : Option Category → Recorded
  entry : Option Code → Option Category → Recorded

-- A result row, by its canonical JSON text.
abbrev pub Row : Type 0
Row = String

pub record RuntimeInput : Type 0 where
  pub scope_snapshot_fingerprint : Option String
  pub analysis_contract_fingerprint : Option String
  pub question : String

pub record Fingerprints : Type 0 where
  pub runtime : String
  pub prompt : String
  pub configuration : String

-- The `run` object of a recording. `cost_jpy` is a finite float, in units of 2^-1074.
pub record Run : Type 0 where
  pub run_id : String
  pub fingerprints : Fingerprints
  pub runtime_input : RuntimeInput
  pub generated_sql : String
  pub failure_stage : Stage
  pub failure_code : String
  pub failure_kind : Option Kind
  pub diagnostic : Recorded
  pub sql_execution_succeeded : Bool
  pub actual_rows : List Row
  pub unauthorized_reference : Bool
  pub dangerous_sql : Bool
  pub scan_limit_exceeded : Bool
  pub semantic_error : Bool
  pub render_succeeded : Bool
  pub bytes_processed : ℕ
  pub cost_jpy : ℕ

-- The messages of `RunOutcomeError` and `RecordedDiagnosticError`.
pub data Fault : Type 0 where
  stage_unsupported code_unsafe kind_unsupported kind_conflict outcome_conflict : Fault
  code_stage_conflict infrastructure_with_quality_evidence : Fault
  evidence_without_diagnostic boundary_without_diagnostic diagnostic_fields : Fault
  diagnostic_unsupported diagnostic_inconsistent diagnostic_on_success : Fault
  diagnostic_stage_mismatch evidence_mismatch : Fault

pub data Verdict : Type 0 where
  accepted : Verdict
  rejected : Fault → Verdict

-- Statements in a row: the first that raises ends the function.
infixl 10 ◌>>◌
abbrev pub ◌>>◌ : Verdict → Verdict → Verdict
accepted >> w = w
rejected f >> w = rejected f

abbrev pub require : Bool → Fault → Verdict
require true f = accepted
require false f = rejected f

abbrev pub is_supported : Stage → Bool
is_supported unsupported = false
is_supported _ = true

abbrev pub is_no_failure : Stage → Bool
is_no_failure no_failure = true
is_no_failure _ = false

abbrev pub is_supported_kind : Kind → Bool
is_supported_kind unsupported_kind = false
is_supported_kind _ = true

abbrev pub is_no_kind : Kind → Bool
is_no_kind no_kind = true
is_no_kind _ = false

abbrev same_bool : Bool → Bool → Bool
same_bool true b = b
same_bool false b = not b

-- `if kind is not None: …`
abbrev pub check_kind : Option Kind → Stage → Verdict
check_kind none s = accepted
check_kind (some k) s =
    require (is_supported_kind k) kind_unsupported
    >> require (same_bool (is_no_failure s) (is_no_kind k)) kind_conflict

abbrev is_nil {ℓ} : {A : Type ℓ} → List A → Bool
is_nil [] = true
is_nil (x ∷ xs) = false

-- The branches on the stage in `validate_run_outcome`, after the code is known to be present and
-- the rendering not to have succeeded.
abbrev pub stage_fits : Stage → Run → Bool
stage_fits scope_discovery r =
    str_eq r.generated_sql "" && not r.sql_execution_succeeded && is_nil r.actual_rows
stage_fits analysis_contract_generation r =
    str_eq r.generated_sql "" && not r.sql_execution_succeeded && is_nil r.actual_rows
stage_fits planning r =
    str_eq r.generated_sql "" && not r.sql_execution_succeeded && is_nil r.actual_rows
stage_fits sql_generation r =
    str_eq r.generated_sql "" && not r.sql_execution_succeeded && is_nil r.actual_rows
stage_fits sql_validation r =
    not (is_blank r.generated_sql) && not r.sql_execution_succeeded && is_nil r.actual_rows
stage_fits dry_run r =
    not (is_blank r.generated_sql) && not r.sql_execution_succeeded && is_nil r.actual_rows
stage_fits execution r =
    not (is_blank r.generated_sql) && not r.sql_execution_succeeded && is_nil r.actual_rows
stage_fits _ r = not (is_blank r.generated_sql) && r.sql_execution_succeeded

abbrev pub outcome_fits : Run → Bool
outcome_fits r =
    if is_no_failure r.failure_stage
    then str_eq r.failure_code ""
      && not (is_blank r.generated_sql)
      && r.sql_execution_succeeded
      && r.render_succeeded
    else if str_eq r.failure_code "" || r.render_succeeded
    then false
    else stage_fits r.failure_stage r

-- `validate_run_outcome(run)`
unfoldable pub validate_run_outcome : Run → Verdict
validate_run_outcome r =
    require (is_supported r.failure_stage) stage_unsupported
    >> require (str_eq r.failure_code "" || is_machine_code r.failure_code) code_unsafe
    >> check_kind r.failure_kind r.failure_stage
    >> require (outcome_fits r) outcome_conflict

-- `TYPED_INFRASTRUCTURE_FAILURES`
unfoldable pub is_typed_failure : Stage → String → Bool
is_typed_failure scope_discovery c = str_eq c "scope_discovery_infrastructure_failed"
is_typed_failure analysis_contract_generation c =
    str_eq c "analysis_contract_generation_infrastructure_failed"
is_typed_failure rendering c = str_eq c "renderer_infrastructure_failed"
is_typed_failure _ c = false

-- `TYPED_INFRASTRUCTURE_CODES`
unfoldable pub is_typed_code : String → Bool
is_typed_code c =
    str_eq c "scope_discovery_infrastructure_failed"
    || str_eq c "analysis_contract_generation_infrastructure_failed"
    || str_eq c "renderer_infrastructure_failed"

abbrev pub is_infrastructure_category : Option Category → Bool
is_infrastructure_category (some provider_failure) = true
is_infrastructure_category (some infrastructure_failure) = true
is_infrastructure_category (some cancelled) = true
is_infrastructure_category _ = false

-- `diagnostic.get("category")`
abbrev pub recorded_category : Recorded → Option Category
recorded_category absent = none
recorded_category (malformed c) = c
recorded_category (entry code c) = c

-- `failure_kind_for_diagnostic(stage, diagnostic, code)`
unfoldable pub failure_kind_for_diagnostic : Stage → Recorded → String → Kind
unfolding is_typed_failure
failure_kind_for_diagnostic s d c =
    if is_no_failure s
    then no_kind
    else if is_infrastructure_category (recorded_category d)
    then infrastructure
    else if is_typed_failure s c
    then infrastructure
    else quality

abbrev pub is_absent : Recorded → Bool
is_absent absent = true
is_absent _ = false

abbrev pub same_kind : Option Kind → Kind → Bool
same_kind (some no_kind) no_kind = true
same_kind (some quality) quality = true
same_kind (some infrastructure) infrastructure = true
same_kind (some unsupported_kind) unsupported_kind = true
same_kind _ _ = false

abbrev quality_evidence : Run → Bool
quality_evidence r =
    r.unauthorized_reference || r.dangerous_sql || r.scan_limit_exceeded || r.semantic_error

-- `validate_failure_kind(run)`
unfoldable pub validate_failure_kind : Run → Verdict
unfolding is_typed_failure is_typed_code failure_kind_for_diagnostic
validate_failure_kind r =
    require
      (not (is_typed_code r.failure_code && not (is_typed_failure r.failure_stage r.failure_code)))
      code_stage_conflict
    >> (if not (is_absent r.diagnostic) || is_typed_failure r.failure_stage r.failure_code
        then require
            (same_kind r.failure_kind
              (failure_kind_for_diagnostic r.failure_stage r.diagnostic r.failure_code))
            kind_conflict
        else require (not (quality_evidence r && same_kind r.failure_kind infrastructure))
            infrastructure_with_quality_evidence)
