-- ===== src/BigQuery/DryRun.antt =====
-- `_inspect_bq_dry_run` and `_dry_run_metadata_diagnostic`, by their diagnostics.
use Prim.Native.String.{◌++◌}
use text.Mathlib.Text.{◌==◌ as str_eq}
use repchat.Prelude.{
  ℕ, String, Bool, true, false, not, Option, none, some, List, [], ◌∷◌, map, ltb, if◌then◌else◌,
}
use repchat.Diagnostic.{Code}
use repchat.Pipeline.Attempts.{Inspection}
use repchat.BigQuery.Scan.{is_scan_limit}
use repchat.BigQuery.Validation.{
  Policy, Validated, passed, refused, contains, validate_sql_diagnostic,
}

-- A Python object where a number is expected.
pub data Value : Type 0 where
  integer : ℕ → Value
  negative_integer boolean other_value : Value

-- An `int`, no `bool`, that is not negative.
abbrev pub count_of : Value → Option ℕ
count_of (integer n) = some n
count_of _ = none

-- An exception: `errors[0].get("message", "")` where `errors` is a list that starts with a `dict`,
-- the attribute `message`, and `str(error)`.
pub record Exception : Type 0 where
  pub first_message : Option String
  pub message : Option String
  pub text : String

-- What a call of the client answers or raises.
pub data Reply (A : Type 0) : Type 0 where
  answered : A → Reply A
  raised : Exception → Reply A

abbrev or_else : Option String → String → String
or_else none t = t
or_else (some s) t = if str_eq s "" then t else s

-- `why`
unfoldable pub why : Exception → String
why e = or_else e.first_message (or_else e.message e.text)

-- An attribute that is missing, `None` or empty is `none` or the empty text.
pub record TableReference : Type 0 where
  pub project : Option String
  pub dataset_id : Option String
  pub table_id : Option String

pub record SchemaField : Type 0 where
  pub name : String
  pub field_type : String
  pub mode : Option String

-- A dry run by the attributes that are read.
pub record DryRunJob : Type 0 where
  pub statement_type : Option String
  pub referenced_tables : List TableReference
  pub schema : List SchemaField
  pub total_bytes_processed : Value

pub record JobConfig : Type 0 where
  pub dry_run : Bool
  pub maximum_bytes_billed : ℕ
  pub use_query_cache : Bool

abbrev pub present : Option String → Option String
present none = none
present (some s) = if str_eq s "" then none else some s

abbrev pub dotted : Option String → Option String → Option String → Option String
dotted (some p) (some d) (some t) = some (p ++ ("." ++ (d ++ ("." ++ t))))
dotted _ _ _ = none

-- The name of a reference, if it is complete.
unfoldable pub full_name : TableReference → Option String
full_name r = dotted (present r.project) (present r.dataset_id) (present r.table_id)

abbrev pub check_reference : List String → Option String → Option Code → Option Code
check_reference tables none rest = some Code.dry_run_reference_incomplete
check_reference tables (some n) rest =
    if not (contains tables n) then some Code.dry_run_table_outside_scope else rest

-- The loop over the references.
abbrev pub reference_diagnostic : List String → List TableReference → Option Code
reference_diagnostic tables [] = none
reference_diagnostic tables (r ∷ rs) =
    check_reference tables (full_name r) (reference_diagnostic tables rs)

abbrev pub references_diagnostic : List String → List TableReference → Option Code
references_diagnostic tables [] = some Code.dry_run_references_missing
references_diagnostic tables (r ∷ rs) = reference_diagnostic tables (r ∷ rs)

abbrev pub is_select_type : Option String → Bool
is_select_type none = false
is_select_type (some s) = str_eq s "SELECT"

-- `_dry_run_metadata_diagnostic(job, policy)`
unfoldable pub dry_run_metadata_diagnostic : DryRunJob → Policy → Option Code
unfolding full_name
dry_run_metadata_diagnostic j p =
    if not (is_select_type j.statement_type)
    then some Code.dry_run_statement_not_select
    else references_diagnostic p.job_tables j.referenced_tables

abbrev pub field_tuple : SchemaField → List String
field_tuple f = elim f.mode [
  | none ↦ f.name ∷ f.field_type ∷ []
  | some m ↦ f.name ∷ f.field_type ∷ m ∷ []
]

abbrev pub Diagnosed : Type 0 → Type 0
Diagnosed A = Option A × Option Code

abbrev pub check_estimate : Inspection → Policy → Option Code → Diagnosed Inspection
check_estimate i p (some k) = (some i, some k)
check_estimate i p none =
    if ltb p.maximum_bytes_billed i.estimated_bytes_processed
    then (some i, some Code.dry_run_scan_limit_exceeded)
    else (some i, none)

abbrev pub inspect_bytes : DryRunJob → Policy → Option ℕ → Diagnosed Inspection
inspect_bytes j p none = (none, some Code.dry_run_bytes_missing)
inspect_bytes j p (some n) =
    check_estimate (record { schema = map field_tuple j.schema; estimated_bytes_processed = n }) p
      (dry_run_metadata_diagnostic j p)

abbrev pub inspect_reply : Reply DryRunJob → Policy → Diagnosed Inspection
inspect_reply (answered j) p = inspect_bytes j p (count_of j.total_bytes_processed)
inspect_reply (raised e) p = (
  none,
  some (
      if is_scan_limit (why e)
      then Code.dry_run_scan_limit_exceeded
      else Code.dry_run_provider_failure),
)

abbrev pub dry_run_config : Policy → JobConfig
dry_run_config p = record {
  dry_run = true;
  maximum_bytes_billed = p.maximum_bytes_billed;
  use_query_cache = false;
}

-- `inspect_bq_dry_run_diagnostic` on a query that is validated, with `bq.query` given.
abbrev pub inspect_checked :
    (String → JobConfig → Reply DryRunJob) → Validated String → Policy → Diagnosed Inspection
inspect_checked query (refused k) p = (none, some k)
inspect_checked query (passed s) p = inspect_reply (query s (dry_run_config p)) p

module _ (wide_word : ℕ → Bool) (contract_error : String → Policy → Bool) where
  -- `inspect_bq_dry_run_diagnostic(bq, sql, policy=policy)`
  unfoldable pub inspect_bq_dry_run_diagnostic :
      (String → JobConfig → Reply DryRunJob) → String → Option Policy → Diagnosed Inspection
  inspect_bq_dry_run_diagnostic query sql none = (none, some Code.analysis_contract_required)
  inspect_bq_dry_run_diagnostic query sql (some p) =
      inspect_checked query (validate_sql_diagnostic wide_word contract_error sql (some p)) p
