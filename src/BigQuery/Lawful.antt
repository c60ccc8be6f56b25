-- ===== src/BigQuery/Lawful.antt =====
-- The calls of bigquery_execution.py in the place of the boundary's, where the stages of the
-- pipeline make them: with the policy of the contract and no cancel event.
use Prim.Native.Char.{Char, code}
use repchat.Prelude.{
  ℕ, ◌≤◌, String, ◌≡◌, refl, ap, Bool, true, false, Option, none, some, inl, inr, arith, ◌==◌,
  Bool-cases,
}
use mathlib.Core.Path.{subst}
use repchat.Text.{is_space, is_blank}
use repchat.Diagnostic.{Code}
use repchat.Outcome.{Stage, sql_validation, dry_run, execution}
use repchat.Outcome.Diagnosed.{diagnostic_stage}
use repchat.Pipeline.Attempts.{Inspection, QueryExecution}
use repchat.Pipeline.Boundary.{Boundary, IsLawful}
use repchat.BigQuery.Scan.{fold_case, after_folded, has_keyword, is_select}
use repchat.BigQuery.Validation.{
  Policy, Validated, passed, refused, answer_text, normalize, validate_sql_diagnostic,
}
use repchat.BigQuery.Contract.{contract_sql_diagnostic}
use repchat.BigQuery.Words.{is_select-StartsQuery}
use repchat.BigQuery.Allowed.{validate_sql_diagnostic_exact, validate_sql_diagnostic-again}
use repchat.BigQuery.DryRun.{
  Reply, DryRunJob, JobConfig, Diagnosed, dry_run_config, inspect_reply,
  inspect_bq_dry_run_diagnostic,
}
use repchat.BigQuery.Execution.{QueryJob, read_reply, execution_config, execute_bq_diagnostic}
use repchat.BigQuery.Staged.{
  AtStage, text_diagnostic-AtStage, inspect_reply-AtStage, read_reply-AtStage,
}

-- What the calls rest on: the characters of words, `str.casefold`, `str.upper`, and the client's `query`, for a dry run and for a query.
pub record Client : Type 0 where
  pub wide_word : ℕ → Bool
  pub casefold : String → String
  pub upper : String → String
  pub query_dry_run : String → JobConfig → Reply DryRunJob
  pub query_job : String → JobConfig → Reply QueryJob

-- `contract_sql_diagnostic` finds an error.
abbrev pub schema_check : Client → String → Policy → Bool
schema_check q = contract_sql_diagnostic q.casefold q.upper

abbrev pub pair : Validated String → Option String × Option Code
pair (passed t) = (some t, none)
pair (refused k) = (none, some k)

module _ (q : Client) where
  unfoldable pub validate : String → Policy → Validated String
  validate s p = validate_sql_diagnostic q.wide_word (schema_check q) s (some p)

  -- A boundary whose calls of bigquery_execution.py are the module's.
  unfoldable pub with_bigquery : Boundary → Boundary
  with_bigquery b = record b {
    validate_sql = λ s p. pair (validate s p);
    inspect_dry_run = λ s p.
        inspect_bq_dry_run_diagnostic q.wide_word (schema_check q) q.query_dry_run s (some p);
    execute =
        λ s n p. execute_bq_diagnostic q.wide_word (schema_check q) q.query_job s (some n) (some p);
  }

fold_case-space : (c : ℕ) → is_space c ≡ true → fold_case c ≡ c
unfolding is_space fold_case
fold_case-space c h = ground arith

-- A space is no letter, whatever its case.
fold_case-letter : (p c : ℕ) → 97 ≤ p → p ≤ 122 → is_space c ≡ true → (p == fold_case c) ≡ false
unfolding is_space
fold_case-letter p c l u h = rw (fold_case-space c h) (ground arith)

module _ (w : ℕ → Bool) where
  has_keyword-is_blank :
      (p : Char) (k s : String)
      → 97 ≤ code p
      → code p ≤ 122
      → has_keyword w (String.◌∷◌ p k) s ≡ true
      → is_blank s ≡ false
  unfolding has_keyword after_folded is_blank
  has_keyword-is_blank p k String.[] l u h = cc
  has_keyword-is_blank p k (String.◌∷◌ c s) l u h = elim (Bool-cases (is_space (code c))) [
    | inl e ↦
        absurd (let h' = rw (fold_case-letter (code p) (code c) l u e, has_keyword) at h in cc)
    | inr e ↦ rw e refl
  ]

  is_select-is_blank : (s : String) → is_select w s ≡ true → is_blank s ≡ false
  unfolding is_select
  is_select-is_blank s h = elim (Bool-cases (has_keyword w "select" s)) [
    | inl e ↦ has_keyword-is_blank "s" "elect" s (omega arith) (omega arith) e
    | inr e ↦ has_keyword-is_blank "w" "ith" s (omega arith) (omega arith) (rw e at h)
  ]

pub pair-passed : (x : Validated String) (t : String) → pair x ≡ (some t, none) → x ≡ passed t
pair-passed (passed u) t h = (let q : u ≡ t = cc in ap (λ (v : String). passed v) q)
pair-passed (refused k) t h = cc

pair_answer-AtStage :
    (n : String) (o : Option Code) (t : Option String) (k : Code)
    → AtStage sql_validation o
    → pair (answer_text n o) ≡ (t, some k)
    → diagnostic_stage k ≡ sql_validation
pair_answer-AtStage n none t k h e = cc
pair_answer-AtStage n (some l) t k h e = let q : l ≡ k = cc in rw (← q) h

refusal-AtStage :
    {A : Type 0} (s : Stage) (x : Diagnosed A) (v : Option A) (k : Code)
    → AtStage s x.1
    → x ≡ (v, some k)
    → diagnostic_stage k ≡ s
refusal-AtStage s x v k h e = subst (λ y. AtStage s y.1) e h

module _ (q : Client) where
  pub validate-again :
      (s t : String) (p : Policy)
      → pair (validate q s p) ≡ (some t, none)
      → validate q t p ≡ passed t
  unfolding validate
  validate-again s t p h =
      validate_sql_diagnostic-again q.wide_word (schema_check q) s t p
        (pair-passed (validate q s p) t h)

  validate-is_blank :
      (s t : String) (p : Policy) → pair (validate q s p) ≡ (some t, none) → is_blank t ≡ false
  unfolding validate
  validate-is_blank s t p h =
      let (_, a) =
        (validate_sql_diagnostic_exact q.wide_word (schema_check q) s t p).0
          (pair-passed (validate q s p) t h) in
      is_select-is_blank q.wide_word t ((is_select-StartsQuery q.wide_word t).1 a.starts)

  validate-AtStage :
      (s : String) (p : Policy) (t : Option String) (k : Code)
      → pair (validate q s p) ≡ (t, some k)
      → diagnostic_stage k ≡ sql_validation
  unfolding validate validate_sql_diagnostic
  validate-AtStage s p t k h =
      pair_answer-AtStage (normalize s) _ t k
        (text_diagnostic-AtStage q.wide_word (schema_check q) (normalize s) p) h

  inspect_lem :
      (t : String) (p : Policy) (i : Option Inspection) (k : Code)
      → validate q t p ≡ passed t
      → inspect_bq_dry_run_diagnostic q.wide_word (schema_check q) q.query_dry_run t (some p)
        ≡ (i, some k)
      → diagnostic_stage k ≡ dry_run
  unfolding validate inspect_bq_dry_run_diagnostic
  inspect_lem t p i k v e =
      refusal-AtStage dry_run (inspect_reply (q.query_dry_run t (dry_run_config p)) p) i k
        (inspect_reply-AtStage (q.query_dry_run t (dry_run_config p)) p) (rw v at e)

  execute_lem :
      (t : String) (p : Policy) (n : ℕ) (x : Option QueryExecution) (k : Code)
      → validate q t p ≡ passed t
      → execute_bq_diagnostic q.wide_word (schema_check q) q.query_job t (some n) (some p)
        ≡ (x, some k)
      → diagnostic_stage k ≡ execution
  unfolding validate execute_bq_diagnostic
  execute_lem t p n x k v e =
      let a = q.query_job t (execution_config p) in
      refusal-AtStage execution (read_reply a (some n)) x k (read_reply-AtStage a (some n))
        (rw v at e)

  -- The calls of bigquery_execution.py satisfy what the pipeline relies on, whatever the client
  -- answers: a text that validation accepts is not blank, validation refuses only with codes of its
  -- own stage, and on a text that validation has accepted the dry run and the execution, which
  -- validate it again, refuse only with codes of theirs.
  pub with_bigquery-IsLawful : (b : Boundary) → IsLawful (with_bigquery q b)
  unfolding with_bigquery
  with_bigquery-IsLawful b = record {
    accepted_not_blank = λ s t p h. validate-is_blank s t p h;
    validation_codes = λ s p t k h. validate-AtStage s p t k h;
    dry_run_codes = λ s t p i k h e. inspect_lem t p i k (validate-again s t p h) e;
    execution_codes = λ s t p n x k h e. execute_lem t p n x k (validate-again s t p h) e;
  }
