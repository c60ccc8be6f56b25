-- ===== src/BigQuery/Inspected.antt =====
-- What a dry run that lets a query through has seen.
use repchat.Prelude.{
  ℕ, zero, suc, ◌≤◌, ◌<◌, String, ◌≡◌, refl, Bool, true, Option, none, some, List, [], ◌∷◌, map,
  inl, inr, arith, ltb, Bool-cases, length, get_elem?,
}
use repchat.Diagnostic.{Code}
use repchat.Pipeline.Attempts.{Inspection}
use repchat.BigQuery.Validation.{
  Policy, Validated, passed, refused, contains, validate_sql_diagnostic,
}
use repchat.BigQuery.DryRun.{
  Value, integer, negative_integer, boolean, other_value, count_of, Reply, answered, raised,
  TableReference, DryRunJob, JobConfig, full_name, check_reference, reference_diagnostic,
  references_diagnostic, is_select_type, dry_run_metadata_diagnostic, field_tuple, check_estimate,
  inspect_bytes, inspect_reply, dry_run_config, inspect_checked, inspect_bq_dry_run_diagnostic,
}

-- Each reference is complete and names a table of the list.
abbrev pub RefersTo : List String → List TableReference → Type 0
RefersTo tables rs =
    (i : ℕ) (r : TableReference)
    → get_elem? rs i ≡ some r
    → (n : String) × (full_name r ≡ some n) × (contains tables n ≡ true)

check_reference-none :
    (ts : List String) (n : Option String) (rest : Option Code)
    → check_reference ts n rest ≡ none
    → ((m : String) × (n ≡ some m) × (contains ts m ≡ true)) × (rest ≡ none)
check_reference-none ts none rest h = cc
check_reference-none ts (some m) rest h = elim (Bool-cases (contains ts m)) [
  | inl k ↦ ((m, refl, k), rw k at h)
  | inr k ↦ absurd (let h' = rw k at h in cc)
]

reference_diagnostic-RefersTo :
    (ts : List String) (rs : List TableReference)
    → reference_diagnostic ts rs ≡ none
    → RefersTo ts rs
reference_diagnostic-RefersTo ts [] h i r e = cc
reference_diagnostic-RefersTo ts (x ∷ rs) h zero r e =
    let (found, _) = check_reference-none ts (full_name x) _ h in
    let q : x ≡ r = cc in rw (← q) found
reference_diagnostic-RefersTo ts (x ∷ rs) h (suc i) r e =
    let (_, rest) = check_reference-none ts (full_name x) _ h in
    reference_diagnostic-RefersTo ts rs rest i r e

references_diagnostic-RefersTo :
    (ts : List String) (rs : List TableReference)
    → references_diagnostic ts rs ≡ none
    → (0 < length rs) × RefersTo ts rs
references_diagnostic-RefersTo ts [] h = cc
references_diagnostic-RefersTo ts (r ∷ rs) h =
    (omega arith, reference_diagnostic-RefersTo ts (r ∷ rs) h)

-- The dry run of a text, and its metadata.
pub record IsInspected (query : String → JobConfig → Reply DryRunJob) (p : Policy) (t : String)
    (i : Inspection) : Type 0 where
  pub job : DryRunJob
  pub asked : query t (dry_run_config p) ≡ answered job
  pub selects : is_select_type job.statement_type ≡ true
  pub some_reference : 0 < length job.referenced_tables
  pub in_scope : RefersTo p.job_tables job.referenced_tables
  pub schema : i.schema ≡ map field_tuple job.schema
  pub estimate : job.total_bytes_processed ≡ integer i.estimated_bytes_processed
  pub within : i.estimated_bytes_processed ≤ p.maximum_bytes_billed

metadata-none :
    (j : DryRunJob) (p : Policy)
    → dry_run_metadata_diagnostic j p ≡ none
    → (is_select_type j.statement_type ≡ true)
      × (references_diagnostic p.job_tables j.referenced_tables ≡ none)
unfolding dry_run_metadata_diagnostic
metadata-none j p h = elim (Bool-cases (is_select_type j.statement_type)) [
  | inl k ↦ (k, rw k at h)
  | inr k ↦ absurd (let h' = rw k at h in cc)
]

check_estimate-none :
    (i i' : Inspection) (p : Policy) (k : Option Code)
    → check_estimate i p k ≡ (some i', none)
    → (k ≡ none) × (i ≡ i') × (i.estimated_bytes_processed ≤ p.maximum_bytes_billed)
check_estimate-none i i' p (some k) h = cc
check_estimate-none i i' p none h =
    elim (Bool-cases (ltb p.maximum_bytes_billed i.estimated_bytes_processed)) [
      | inl k ↦ absurd (let h' = rw k at h in cc)
      | inr k ↦ (refl, (let h' = rw k at h in cc), ground arith)
    ]

count_of-some : (v : Value) (n : ℕ) → count_of v ≡ some n → v ≡ integer n
count_of-some (integer m) n h = cc
count_of-some negative_integer n h = cc
count_of-some boolean n h = cc
count_of-some other_value n h = cc

module _ (query : String → JobConfig → Reply DryRunJob) (p : Policy) (t : String) where
  inspect_bytes-IsInspected :
      (j : DryRunJob) (i : Inspection) (o : Option ℕ)
      → query t (dry_run_config p) ≡ answered j
      → count_of j.total_bytes_processed ≡ o
      → inspect_bytes j p o ≡ (some i, none)
      → IsInspected query p t i
  inspect_bytes-IsInspected j i none asked c h = cc
  inspect_bytes-IsInspected j i (some n) asked c h =
      let (k, same, within) = check_estimate-none _ i p _ h in
      let (selects, k') = metadata-none j p k in
      let (one, scope) = references_diagnostic-RefersTo p.job_tables j.referenced_tables k' in
      rw (← same) (record {
        job = j;
        asked = asked;
        selects = selects;
        some_reference = one;
        in_scope = scope;
        schema = refl;
        estimate = count_of-some j.total_bytes_processed n c;
        within = within;
      })

  inspect_reply-IsInspected :
      (a : Reply DryRunJob) (i : Inspection)
      → query t (dry_run_config p) ≡ a
      → inspect_reply a p ≡ (some i, none)
      → IsInspected query p t i
  inspect_reply-IsInspected (raised e) i asked h = cc
  inspect_reply-IsInspected (answered j) i asked h =
      inspect_bytes-IsInspected j i (count_of j.total_bytes_processed) asked refl h

inspect_checked-IsInspected :
    (query : String → JobConfig → Reply DryRunJob) (p : Policy) (c : Validated String)
    (i : Inspection)
    → inspect_checked query c p ≡ (some i, none)
    → (t : String) × (c ≡ passed t) × IsInspected query p t i
inspect_checked-IsInspected query p (refused k) i h = cc
inspect_checked-IsInspected query p (passed t) i h =
    (t, refl, inspect_reply-IsInspected query p t _ i refl h)

-- A dry run that lets a text through has validated it, and the job that BigQuery parsed from its
-- normalized form is a SELECT that refers to at least one table, only to complete references among
-- the policy's, and its estimate, the one returned, is within the policy's maximum.
pub inspect_bq_dry_run_diagnostic-IsInspected :
    (wide_word : ℕ → Bool) (contract_error : String → Policy → Bool)
    (query : String → JobConfig → Reply DryRunJob) (sql : String) (p : Policy) (i : Inspection)
    → inspect_bq_dry_run_diagnostic wide_word contract_error query sql (some p) ≡ (some i, none)
    → (t : String) × (validate_sql_diagnostic wide_word contract_error sql (some p) ≡ passed t)
      × IsInspected query p t i
unfolding inspect_bq_dry_run_diagnostic
inspect_bq_dry_run_diagnostic-IsInspected w c query sql p i h =
    inspect_checked-IsInspected query p (validate_sql_diagnostic w c sql (some p)) i h
