-- ===== src/Pipeline/Sound/Inspected.antt =====
-- The invariant through the dry run and the execution.
use Prim.Native.Nat.{min}
use repchat.Prelude.{ℕ, ◌+◌, ◌<◌, String, ◌≡◌, refl, false, Option, none, some, List, arith, leb}
use repchat.Text.{is_blank}
use repchat.Diagnostic.{Code}
use repchat.Outcome.{dry_run, execution, Row}
use repchat.Outcome.Diagnosed.{diagnostic_stage}
use repchat.Pipeline.Attempts.{
  Failure, Contract, Section, ValidatedAttempt, Inspection, DryRunAttempt, QueryExecution,
  ExecutionAttempt,
}
use repchat.Pipeline.Recording.{Measurement, text_of, record_dry_run, record_execution}
use repchat.Pipeline.Boundary.{Boundary, IsLawful}
use repchat.Pipeline.Accepted.{
  dry_run-IsAccepted, semantic_dry_run-IsAccepted, execution-IsAccepted,
}
use repchat.Pipeline.Inspection.{
  dry_run_step, dry_run_attempt, read_dry_run, refuse_dry_run, semantic_dry_run, execute_step,
  execute_attempt, read_execution, row_limit,
}
use repchat.Pipeline.Sound.{
  is_stage-later, Records-with_run, HasArtifacts-of_contract, Post, Post-if, Post-bind, IsFailed,
}
use repchat.BigQuery.Validation.{Policy}
use repchat.Pipeline.Sound.Evidence.{Inspected, WasExecuted}
use repchat.Prelude.{◌≤◌}
use repchat.Pipeline.Sound.Validated.{origin, HasSql, ValidatedCase, IsValidated}

module _ (b : Boundary) (law : IsLawful b) (m : Measurement) where
  abbrev pub DryRunCase :
      DryRunAttempt → Option Failure → Option (List (List String)) → Option ℕ → Type 0
  DryRunCase a (some f) schema n =
      IsFailed 5 f (origin a.validated_attempt.generated_attempt) a.diagnostic (record_dry_run a m)
  DryRunCase a none (some schema) (some n) =
      (t : String) × (a.validated_attempt.validated_sql ≡ some t)
      × ((h : HasSql b law m a.validated_attempt.generated_attempt t) × Inspected b t h.3.0)
  DryRunCase a none _ _ = ⊥

  abbrev pub IsDryRun : DryRunAttempt → Type 0
  IsDryRun a = DryRunCase a a.failure a.dry_run_schema a.estimated_bytes_processed

  pub not_blank :
      (a : ValidatedAttempt) (t : String)
      → a.validated_sql ≡ some t
      → HasSql b law m a.generated_attempt t
      → is_blank (text_of a.validated_sql) ≡ false
  not_blank a t e (c, h, s, (p, ep, (sql, v))) = rw e (law.accepted_not_blank sql t p v)

  module _ (a : ValidatedAttempt) (t : String) (et : a.validated_sql ≡ some t)
      (h : HasSql b law m a.generated_attempt t) where
    refuse_dry_run-IsDryRun :
        (i : Option Inspection) (k : Code)
        → diagnostic_stage k ≡ dry_run
        → IsDryRun (refuse_dry_run a i k)
    unfolding record_dry_run
    refuse_dry_run-IsDryRun i k e = (
      omega arith,
      Records-with_run (origin a.generated_attempt) (some k) _ refl
          (dry_run-IsAccepted (origin a.generated_attempt) m (text_of a.validated_sql)
            (not_blank a t et h) k e)
          (HasArtifacts-of_contract (origin a.generated_attempt) h.0 dry_run (omega arith) h.1),
    )

    semantic_dry_run-IsDryRun : (i : Inspection) → IsDryRun (semantic_dry_run a i)
    unfolding record_dry_run
    semantic_dry_run-IsDryRun i = (
      omega arith,
      Records-with_run (origin a.generated_attempt) none _ refl
          (semantic_dry_run-IsAccepted (origin a.generated_attempt) m (text_of a.validated_sql)
            (not_blank a t et h))
          (HasArtifacts-of_contract (origin a.generated_attempt) h.0 dry_run (omega arith) h.1),
    )

    read_dry_run-IsDryRun :
        (s : Section) (sql : String) (r : Option Inspection × Option Code)
        → b.validate_sql sql h.3.0 ≡ (some t, none)
        → b.inspect_dry_run t h.3.0 ≡ r
        → Post IsDryRun (read_dry_run b a h.3.0 s r)
    read_dry_run-IsDryRun s sql (i, some k) v e =
        refuse_dry_run-IsDryRun i k (law.dry_run_codes sql t h.3.0 i k v e)
    read_dry_run-IsDryRun s sql (none, none) v e = tt
    read_dry_run-IsDryRun s sql (some i, none) v e =
        Post-if IsDryRun (b.result_refused s i.schema h.3.0) _ _ (λ p. semantic_dry_run-IsDryRun i)
          (λ p.
            Post-if IsDryRun (b.schema_refused s i.schema) _ _ (λ q. semantic_dry_run-IsDryRun i)
              (λ q. (t, et, (h, (i, e)))))

  dry_run_step-IsDryRun :
      (a : ValidatedAttempt) (f : Option Failure) (t : Option String)
      → a.validated_sql ≡ t
      → ValidatedCase b law m a f t
      → Post IsDryRun (
          dry_run_step b a f
            (origin a.generated_attempt).result.contract
            a.generated_attempt.section
            t)
  unfolding record_dry_run
  dry_run_step-IsDryRun a (some f) t et (r, h) =
      (omega arith, rw (is_stage-later dry_run f.stage (omega arith) (omega arith)) h)
  dry_run_step-IsDryRun a none (some t) et (c, h, (s, es), (p, ep, (sql, v))) =
      simp (h.2, es, ep)
        (read_dry_run-IsDryRun a t et (c, h, (s, es), (p, ep, (sql, v))) s sql
          (b.inspect_dry_run t p) v refl)
  dry_run_step-IsDryRun a none none et h = absurd h

  pub dry_run_attempt-IsDryRun :
      (a : ValidatedAttempt) → IsValidated b law m a → Post IsDryRun (dry_run_attempt b a)
  unfolding dry_run_attempt
  dry_run_attempt-IsDryRun a h = dry_run_step-IsDryRun a a.failure a.validated_sql refl h

  -- The evidence of an execution: its bytes, and the text that was executed.
  abbrev pub ExecutionCase :
      ExecutionAttempt
      → Option Failure
      → Option (List Row)
      → Option (List String)
      → Option ℕ
      → Type 0
  ExecutionCase a (some f) rows columns n =
      IsFailed 6 f (origin a.dry_run_attempt.validated_attempt.generated_attempt) a.diagnostic
        (record_execution a m)
  ExecutionCase a none (some rows) (some columns) (some n) =
      (a.diagnostic ≡ none)
      × ((t : String) × (a.dry_run_attempt.validated_attempt.validated_sql ≡ some t)
          × WasExecuted b t
          × HasSql b law m a.dry_run_attempt.validated_attempt.generated_attempt t)
  ExecutionCase a none _ _ _ = ⊥

  abbrev pub IsExecuted : ExecutionAttempt → Type 0
  IsExecuted a = ExecutionCase a a.failure a.rows a.columns a.bytes_processed

  read_execution-IsExecuted :
      (a : DryRunAttempt) (t sql : String) (c : Contract) (p : Policy) (n : ℕ)
      (r : Option QueryExecution × Option Code)
      → a.validated_attempt.validated_sql ≡ some t
      → HasSql b law m a.validated_attempt.generated_attempt t
      → b.execution_policy c ≡ some p
      → b.validate_sql sql p ≡ (some t, none)
      → Inspected b t p
      → n ≤ p.maximum_result_rows + 1
      → b.execute t n p ≡ r
      → Post IsExecuted (read_execution a r)
  unfolding record_execution
  read_execution-IsExecuted a t sql c p n (x, some k) et h ep v q le e = (
    omega arith,
    Records-with_run (origin a.validated_attempt.generated_attempt) (some k) _ refl
        (execution-IsAccepted (origin a.validated_attempt.generated_attempt) m
          (text_of a.validated_attempt.validated_sql) (not_blank a.validated_attempt t et h) k
          (law.execution_codes sql t p n x k v e))
        (HasArtifacts-of_contract (origin a.validated_attempt.generated_attempt) h.0 execution
          (omega arith) h.1),
  )
  read_execution-IsExecuted a t sql c p n (none, none) et h ep v q le e = tt
  read_execution-IsExecuted a t sql c p n (some x, none) et h ep v q le e =
      (refl, (t, et, (c, (p, ep, (sql, v), q, (n, le, (x, e)))), h))

  pub row_limit-Post : (o : Option ℕ) → Post (λ n. 0 < n) (row_limit o)
  row_limit-Post none = tt
  row_limit-Post (some n) = Post-if (λ n. 0 < n) (leb 1 n) _ _ (λ e. ground arith) (λ e. tt)

  execute_step-IsExecuted :
      (a : DryRunAttempt) (f : Option Failure) (schema : Option (List (List String))) (n : Option ℕ)
      → DryRunCase a f schema n
      → let g = a.validated_attempt.generated_attempt in
        Post IsExecuted (
          execute_step b a f
            (origin g).result.contract
            g.section
            a.validated_attempt.validated_sql
            schema
            n)
  unfolding record_execution
  execute_step-IsExecuted a (some f) schema n (r, h) =
      (omega arith, rw (is_stage-later execution f.stage (omega arith) (omega arith)) h)
  execute_step-IsExecuted a none (some schema) (some n)
        (t, et, ((c, h, (s, es), (p, ep, (sql, v))), q)) =
      simp (h.2, es, et, ep)
        (Post-bind (λ k. 0 < k) IsExecuted (row_limit s.max_result_rows) _
          (row_limit-Post s.max_result_rows)
          (λ k pos.
            read_execution-IsExecuted a t sql c p (min k p.maximum_result_rows + 1)
              (b.execute t (min k p.maximum_result_rows + 1) p) et
              (c, h, (s, es), (p, ep, (sql, v))) ep v q (omega arith) refl))
  execute_step-IsExecuted a none none n h = absurd h
  execute_step-IsExecuted a none (some schema) none h = absurd h

  pub execute_attempt-IsExecuted :
      (a : DryRunAttempt) → IsDryRun a → Post IsExecuted (execute_attempt b a)
  unfolding execute_attempt
  execute_attempt-IsExecuted a h =
      execute_step-IsExecuted a a.failure a.dry_run_schema a.estimated_bytes_processed h
