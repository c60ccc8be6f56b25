-- ===== src/Pipeline/Sound/Evidence.antt =====
-- What a recording that claims an execution has behind it.
use repchat.Prelude.{
  ℕ, ◌+◌, ◌≤◌, String, ◌≡◌, true, false, Option, none, some, refl, inl, inr, Bool-cases,
}
use repchat.Outcome.{planning, sql_generation, sql_validation, dry_run, execution}
use repchat.Pipeline.Attempts.{
  Failure, Contract, PreflightAttempt, PlannedAttempt, GeneratedAttempt, ValidatedAttempt,
  Inspection, DryRunAttempt, QueryExecution, ExecutionAttempt,
}
use repchat.Pipeline.Result.{Result, ok, err}
use repchat.Pipeline.Recording.{
  Recording, Measurement, is_stage, record_preflight, record_planned, record_generated,
  record_validated, record_dry_run, record_execution, preflight_record, planned_record,
  generated_record, validated_record, dry_run_record, execution_record,
}
use repchat.BigQuery.Validation.{Policy}
use repchat.Pipeline.Boundary.{Boundary}

-- The dry run let the text through.
abbrev pub Inspected : Boundary → String → Policy → Type 0
Inspected b t p = (i : Inspection) × (b.inspect_dry_run t p ≡ (some i, none))

-- One contract, with its policy, under which local validation made the text, the dry run let it through, and the
-- execution answered it, asked for at most one row more than the policy of the contract allows.
abbrev pub WasExecuted : Boundary → String → Type 0
WasExecuted b t =
    (c : Contract) × ((p : Policy) × (b.execution_policy c ≡ some p)
      × ((sql : String) × (b.validate_sql sql p ≡ (some t, none)))
      × Inspected b t p
      × ((k : ℕ) × (k ≤ p.maximum_result_rows + 1)
          × ((x : QueryExecution) × (b.execute t k p ≡ (some x, none)))))

abbrev pub HasEvidence : Boundary → Result Recording → Type 0
HasEvidence b (ok r) = r.run.sql_execution_succeeded ≡ true → WasExecuted b r.run.generated_sql
HasEvidence b (err e) = Unit

abbrev Unexecuted : Result Recording → Type 0
Unexecuted (ok r) = r.run.sql_execution_succeeded ≡ false
Unexecuted (err e) = Unit

module _ (m : Measurement) where
  preflight_lem : (o : Option Failure) (a : PreflightAttempt) → Unexecuted (preflight_record o a m)
  preflight_lem none a = tt
  preflight_lem (some f) a = refl

  planned_lem : (o : Option Failure) (a : PlannedAttempt) → Unexecuted (planned_record o a m)
  unfolding record_preflight
  planned_lem none a = tt
  planned_lem (some f) a = elim (Bool-cases (is_stage planning f.stage)) [
    | inl own ↦ rw own refl
    | inr earlier ↦
        rw earlier (preflight_lem a.preflight_attempt.result.failure a.preflight_attempt)
  ]

  generated_lem : (o : Option Failure) (a : GeneratedAttempt) → Unexecuted (generated_record o a m)
  unfolding record_planned
  generated_lem none a = tt
  generated_lem (some f) a = elim (Bool-cases (is_stage sql_generation f.stage)) [
    | inl own ↦ rw own refl
    | inr earlier ↦ rw earlier (planned_lem a.planned_attempt.failure a.planned_attempt)
  ]

  validated_lem : (o : Option Failure) (a : ValidatedAttempt) → Unexecuted (validated_record o a m)
  unfolding record_generated
  validated_lem none a = tt
  validated_lem (some f) a = elim (Bool-cases (is_stage sql_validation f.stage)) [
    | inl own ↦ rw own refl
    | inr earlier ↦ rw earlier (generated_lem a.generated_attempt.failure a.generated_attempt)
  ]

  dry_run_lem : (o : Option Failure) (a : DryRunAttempt) → Unexecuted (dry_run_record o a m)
  unfolding record_validated
  dry_run_lem none a = tt
  dry_run_lem (some f) a = elim (Bool-cases (is_stage dry_run f.stage)) [
    | inl own ↦ rw own refl
    | inr earlier ↦ rw earlier (validated_lem a.validated_attempt.failure a.validated_attempt)
  ]

  execution_lem : (o : Option Failure) (a : ExecutionAttempt) → Unexecuted (execution_record o a m)
  unfolding record_dry_run
  execution_lem none a = tt
  execution_lem (some f) a = elim (Bool-cases (is_stage execution f.stage)) [
    | inl own ↦ rw own refl
    | inr earlier ↦ rw earlier (dry_run_lem a.dry_run_attempt.failure a.dry_run_attempt)
  ]

  Unexecuted-HasEvidence : (b : Boundary) (r : Result Recording) → Unexecuted r → HasEvidence b r
  Unexecuted-HasEvidence b (ok r) h = λ e. cc
  Unexecuted-HasEvidence b (err e) h = tt

  -- The recording of a failure before the result claims no execution.
  pub record_execution-HasEvidence :
      (b : Boundary) (a : ExecutionAttempt) → HasEvidence b (record_execution a m)
  unfolding record_execution
  record_execution-HasEvidence b a =
      Unexecuted-HasEvidence b (execution_record a.failure a m) (execution_lem a.failure a)
