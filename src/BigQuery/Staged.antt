-- ===== src/BigQuery/Staged.antt =====
-- The stage of the codes that each call of bigquery_execution.py refuses with.
use repchat.Prelude.{
  ℕ, String, ◌≡◌, refl, Bool, true, false, not, Option, none, some, List, [], ◌∷◌, ltb, inl, inr,
  Bool-cases, if◌then◌else◌,
}
use repchat.Diagnostic.{Code, value_of}
use repchat.Outcome.{Stage, sql_validation, dry_run, execution}
use repchat.Outcome.Diagnosed.{diagnostic_stage}
use repchat.BigQuery.Replace.{TableMatch, table_matches}
use repchat.BigQuery.Scan.{is_scan_limit, is_select, has_forbidden, has_select_star}
use repchat.BigQuery.Validation.{
  Policy, contains, is_decorated, table_diagnostic, tables_diagnostic, check_contract,
  text_diagnostic, has_semicolon, code_of_text,
}
use repchat.BigQuery.DryRun.{
  Reply, Exception, answered, raised, why, TableReference, DryRunJob, full_name, check_reference,
  reference_diagnostic, references_diagnostic, dry_run_metadata_diagnostic, check_estimate,
  inspect_bytes, inspect_reply, count_of, is_select_type,
}
use repchat.Pipeline.Attempts.{Inspection}
use repchat.BigQuery.Execution.{QueryJob, RowIterator, execution_failure, read_rows, read_reply}

-- A refusal, if there is one, has a code of the stage.
abbrev pub AtStage : Stage → Option Code → Type 0
AtStage s none = Unit {0}
AtStage s (some k) = diagnostic_stage k ≡ s

if_AtStage :
    (s : Stage) (b : Bool) (k : Code) (o : Option Code)
    → diagnostic_stage k ≡ s
    → AtStage s o
    → AtStage s (if b then some k else o)
if_AtStage s true k o h r = h
if_AtStage s false k o h r = r

either_AtStage :
    (s : Stage) (b : Bool) (k l : Code)
    → diagnostic_stage k ≡ s
    → diagnostic_stage l ≡ s
    → diagnostic_stage (if b then k else l) ≡ s
either_AtStage s true k l h r = h
either_AtStage s false k l h r = r

table_diagnostic-AtStage :
    (ts : List String) (ms : List TableMatch) → AtStage sql_validation (table_diagnostic ts ms)
unfolding diagnostic_stage value_of
table_diagnostic-AtStage ts [] = tt
table_diagnostic-AtStage ts (m ∷ ms) = if_AtStage sql_validation (is_decorated m) _ _ refl (
    if_AtStage sql_validation (not (contains ts m.reference)) _ _ refl
      (table_diagnostic-AtStage ts ms))

tables_diagnostic-AtStage :
    (ts : List String) (ms : List TableMatch) → AtStage sql_validation (tables_diagnostic ts ms)
unfolding diagnostic_stage value_of
tables_diagnostic-AtStage ts [] = refl
tables_diagnostic-AtStage ts (m ∷ ms) = table_diagnostic-AtStage ts (m ∷ ms)

refusals-AtStage :
    (a b c d : Bool) (o : Option Code)
    → AtStage sql_validation o
    → AtStage sql_validation (
        if a
        then some Code.not_select
        else if b
        then some Code.multiple_statements
        else if c
        then some Code.forbidden_keyword
        else if d
        then some Code.select_star
        else o)
unfolding diagnostic_stage value_of
refusals-AtStage true b c d o h = refl
refusals-AtStage false true c d o h = refl
refusals-AtStage false false true d o h = refl
refusals-AtStage false false false true o h = refl
refusals-AtStage false false false false o h = h

module _ (w : ℕ → Bool) (c : String → Policy → Bool) where
  check_contract-AtStage :
      (s : String) (p : Policy) (o : Option Code)
      → AtStage sql_validation o
      → AtStage sql_validation (check_contract w c s p o)
  unfolding diagnostic_stage value_of
  check_contract-AtStage s p none h = if_AtStage sql_validation (c s p) _ none refl tt
  check_contract-AtStage s p (some k) h = h

  pub text_diagnostic-AtStage :
      (s : String) (p : Policy) → AtStage sql_validation (text_diagnostic w c s p)
  unfolding text_diagnostic diagnostic_stage value_of
  text_diagnostic-AtStage s p =
      refusals-AtStage (not (is_select w s)) (has_semicolon s) (has_forbidden w (code_of_text s))
        (has_select_star w (code_of_text s))
        (check_contract w c s p (tables_diagnostic p.query_tables (table_matches (code_of_text s))))
        (check_contract-AtStage s p
          (tables_diagnostic p.query_tables (table_matches (code_of_text s)))
          (tables_diagnostic-AtStage p.query_tables (table_matches (code_of_text s))))

check_reference-AtStage :
    (ts : List String) (n : Option String) (o : Option Code)
    → AtStage dry_run o
    → AtStage dry_run (check_reference ts n o)
unfolding diagnostic_stage value_of
check_reference-AtStage ts none o h = refl
check_reference-AtStage ts (some n) o h = if_AtStage dry_run (not (contains ts n)) _ o refl h

reference_diagnostic-AtStage :
    (ts : List String) (rs : List TableReference) → AtStage dry_run (reference_diagnostic ts rs)
reference_diagnostic-AtStage ts [] = tt
reference_diagnostic-AtStage ts (r ∷ rs) =
    check_reference-AtStage ts (full_name r) _ (reference_diagnostic-AtStage ts rs)

references_diagnostic-AtStage :
    (ts : List String) (rs : List TableReference) → AtStage dry_run (references_diagnostic ts rs)
unfolding diagnostic_stage value_of
references_diagnostic-AtStage ts [] = refl
references_diagnostic-AtStage ts (r ∷ rs) = reference_diagnostic-AtStage ts (r ∷ rs)

metadata-AtStage : (j : DryRunJob) (p : Policy) → AtStage dry_run (dry_run_metadata_diagnostic j p)
unfolding dry_run_metadata_diagnostic diagnostic_stage value_of
metadata-AtStage j p =
    if_AtStage dry_run (not (is_select_type j.statement_type)) _ _ refl
      (references_diagnostic-AtStage p.job_tables j.referenced_tables)

check_estimate-AtStage :
    (i : Inspection) (p : Policy) (o : Option Code)
    → AtStage dry_run o
    → AtStage dry_run (check_estimate i p o).1
unfolding diagnostic_stage value_of
check_estimate-AtStage i p (some k) h = h
check_estimate-AtStage i p none h =
    elim (Bool-cases (ltb p.maximum_bytes_billed i.estimated_bytes_processed)) [
      | inl k ↦ rw k refl
      | inr k ↦ rw k tt
    ]

inspect_bytes-AtStage :
    (j : DryRunJob) (p : Policy) (n : Option ℕ) → AtStage dry_run (inspect_bytes j p n).1
unfolding diagnostic_stage value_of
inspect_bytes-AtStage j p none = refl
inspect_bytes-AtStage j p (some n) = check_estimate-AtStage _ p _ (metadata-AtStage j p)

pub inspect_reply-AtStage :
    (a : Reply DryRunJob) (p : Policy) → AtStage dry_run (inspect_reply a p).1
unfolding diagnostic_stage value_of
inspect_reply-AtStage (answered j) p = inspect_bytes-AtStage j p (count_of j.total_bytes_processed)
inspect_reply-AtStage (raised e) p = either_AtStage dry_run (is_scan_limit (why e)) _ _ refl refl

execution_failure-AtStage : (e : Exception) → AtStage execution (execution_failure e).1
unfolding execution_failure diagnostic_stage value_of
execution_failure-AtStage e = elim (Bool-cases (is_scan_limit (why e))) [
  | inl k ↦ rw k refl
  | inr k ↦ rw k refl
]

read_rows-AtStage : (a : Reply RowIterator) (n : Option ℕ) → AtStage execution (read_rows a n).1
unfolding diagnostic_stage value_of
read_rows-AtStage (raised e) n = execution_failure-AtStage e
read_rows-AtStage (answered it) none = refl
read_rows-AtStage (answered it) (some n) = tt

pub read_reply-AtStage :
    (a : Reply QueryJob) (limit : Option ℕ) → AtStage execution (read_reply a limit).1
read_reply-AtStage (raised e) limit = execution_failure-AtStage e
read_reply-AtStage (answered j) limit =
    read_rows-AtStage (j.result limit) (count_of j.total_bytes_processed)
