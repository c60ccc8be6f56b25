-- ===== src/BigQuery/Composed.antt =====
-- The pipeline on the calls of bigquery_execution.py.
use mathlib.Core.Path.{subst}
use repchat.Prelude.{
  ℕ, ◌+◌, ◌≤◌, String, ◌≡◌, refl, sym, ◌∙◌, inl, inr, Bool-cases, true, none, some,
}
use repchat.Pipeline.Attempts.{Contract, Inspection, QueryExecution, RenderingAttempt}
use repchat.Pipeline.Result.{ok}
use repchat.Pipeline.Recording.{Measurement}
use repchat.Pipeline.Boundary.{Boundary}
use repchat.Pipeline.Artifacts.{Entry, built, build_entry}
use repchat.Pipeline.Run.{PlannedRun, run_rendering}
use repchat.Pipeline.Sound.Rendered.{Covers}
use repchat.Pipeline.Sound.Evidence.{WasExecuted}
use repchat.Pipeline.Sound.Built.{executed_only_checked}
use repchat.BigQuery.Validation.{Policy, passed}
use repchat.BigQuery.Allowed.{IsAllowed, validate_sql_diagnostic_exact}
use repchat.BigQuery.Scan.{is_scan_limit}
use repchat.BigQuery.DryRun.{why, Reply, answered, raised, inspect_bq_dry_run_diagnostic}
use repchat.BigQuery.Inspected.{IsInspected, inspect_bq_dry_run_diagnostic-IsInspected}
use repchat.BigQuery.Execution.{
  QueryJob, execution_config, read_reply, execution_failure, execute_bq_diagnostic,
}
use repchat.BigQuery.Lawful.{
  Client, schema_check, validate, validate-again, with_bigquery, with_bigquery-IsLawful,
}

-- One contract whose policy bounds a text: it is allowed by the policy, its dry run saw only tables
-- of the policy and an estimate within its maximum, and the client answered it as a query with that
-- maximum, read for at most one row more than the policy's.
pub record IsInPolicy (q : Client) (b : Boundary) (t : String) : Type 0 where
  pub contract : Contract
  pub policy : Policy
  pub of_contract : b.execution_policy contract ≡ some policy
  pub allowed : IsAllowed q.wide_word (schema_check q) policy t
  pub inspection : Inspection
  pub inspected : IsInspected q.query_dry_run policy t inspection
  pub job : QueryJob
  pub sent : q.query_job t (execution_config policy) ≡ answered job
  pub limit : ℕ
  pub few_rows : limit ≤ policy.maximum_result_rows + 1
  pub execution : QueryExecution
  pub read : read_reply (answered job) (some limit) ≡ (some execution, none)

passed-injective : (u t : String) → passed u ≡ passed t → u ≡ t
passed-injective u t h = cc

module _ (q : Client) where
  sent_job :
      (a : Reply QueryJob) (n : ℕ) (x : QueryExecution)
      → read_reply a (some n) ≡ (some x, none)
      → (j : QueryJob) × (a ≡ answered j) × (read_reply (answered j) (some n) ≡ (some x, none))
  unfolding execution_failure
  sent_job (answered j) n x h = (j, refl, h)
  sent_job (raised e) n x h = elim (Bool-cases (is_scan_limit (why e))) [
    | inl k ↦ absurd (let h' = rw k at h in cc)
    | inr k ↦ absurd (let h' = rw k at h in cc)
  ]

  executed_lem :
      (t : String) (p : Policy) (n : ℕ) (x : QueryExecution)
      → validate q t p ≡ passed t
      → execute_bq_diagnostic q.wide_word (schema_check q) q.query_job t (some n) (some p)
        ≡ (some x, none)
      → read_reply (q.query_job t (execution_config p)) (some n) ≡ (some x, none)
  unfolding validate execute_bq_diagnostic
  executed_lem t p n x v h = rw v at h

  inspected_lem :
      (t : String) (p : Policy) (i : Inspection)
      → validate q t p ≡ passed t
      → inspect_bq_dry_run_diagnostic q.wide_word (schema_check q) q.query_dry_run t (some p)
        ≡ (some i, none)
      → IsInspected q.query_dry_run p t i
  unfolding validate
  inspected_lem t p i v h =
      let (u, w, done) =
        inspect_bq_dry_run_diagnostic-IsInspected q.wide_word (schema_check q) q.query_dry_run t p i
          h in
      let same : u ≡ t = passed-injective u t (sym w ∙ v) in
      subst (λ y. IsInspected q.query_dry_run p y i) same done

  allowed_lem :
      (t : String) (p : Policy)
      → validate q t p ≡ passed t
      → IsAllowed q.wide_word (schema_check q) p t
  unfolding validate
  allowed_lem t p v = ((validate_sql_diagnostic_exact q.wide_word (schema_check q) t t p).0 v).1

  WasExecuted-IsInPolicy :
      (b : Boundary) (t : String) → WasExecuted (with_bigquery q b) t → IsInPolicy q b t
  unfolding with_bigquery
  WasExecuted-IsInPolicy b t (c, (p, ep, (sql, v), (i, d), (n, few, (x, e)))) =
      let again = validate-again q sql t p v in
      let (j, sent, rows) =
        sent_job (q.query_job t (execution_config p)) n x (executed_lem t p n x again e) in
      record {
        contract = c;
        policy = p;
        of_contract = ep;
        allowed = allowed_lem t p again;
        inspection = i;
        inspected = inspected_lem t p i again d;
        job = j;
        sent = sent;
        limit = n;
        few_rows = few;
        execution = x;
        read = rows;
      }

-- Where the calls of the pipeline are those of bigquery_execution.py, whatever the client, the
-- models and the renderer answer: where the artifacts of a run hold a recording that claims an
-- execution, its SQL text is bounded by the policy of one contract. It passes validation: it begins
-- with the word SELECT or WITH, has no semicolon, and what is left of it when first its `--` and
-- `/* */` comments and then its single-quoted literals are replaced has none of the ten writing
-- keywords as a word and matches the pattern of a table only at tables of the policy; a comment
-- mark inside a literal counts as the start of a comment. BigQuery's dry run of it referred only to
-- tables of the policy and estimated no more than the policy's maximum, and the executed query
-- carried that maximum and was read for at most one row more than the policy allows.
pub executed_in_scope :
    (q : Client) (b : Boundary) (p : PlannedRun) (m : Measurement) (a : RenderingAttempt)
    (e : Entry)
    → run_rendering (with_bigquery q b) p ≡ ok a
    → Covers m a.result_attempt.bytes_processed
    → build_entry a m ≡ built e
    → e.recording.run.sql_execution_succeeded ≡ true
    → IsInPolicy q b e.recording.run.generated_sql
executed_in_scope q b p m a e h covers made claimed =
    WasExecuted-IsInPolicy q b e.recording.run.generated_sql (
      executed_only_checked (with_bigquery q b) p m a e (with_bigquery-IsLawful q b) h covers made
        claimed)
