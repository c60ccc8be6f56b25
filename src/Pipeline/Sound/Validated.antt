-- ===== src/Pipeline/Sound/Validated.antt =====
-- The invariant through the local validation of the SQL.
use repchat.Prelude.{String, ◌≡◌, refl, false, Option, none, some, arith}
use repchat.Text.{is_blank}
use repchat.Diagnostic.{Code}
use repchat.Outcome.{sql_validation}
use repchat.Outcome.Diagnosed.{diagnostic_stage}
use repchat.Pipeline.Attempts.{
  Failure, Contract, PreflightAttempt, Section, GeneratedAttempt, ValidatedAttempt,
}
use repchat.Pipeline.Recording.{Measurement, text_of, record_validated}
use repchat.Pipeline.Boundary.{Boundary, IsLawful, policy_of}
use repchat.Pipeline.Result.{◌>>=◌}
use repchat.BigQuery.Validation.{Policy}
use repchat.Pipeline.Accepted.{validation-IsAccepted, semantic_validation-IsAccepted}
use repchat.Pipeline.Validation.{
  validate_step, validate_attempt, read_validation, refuse_validation, semantic_validation,
}
use repchat.Pipeline.Sound.{
  is_stage-later, Records-with_run, HasContract, HasArtifacts-of_contract, Post, Post-if, IsFailed,
}
use repchat.Pipeline.Sound.Planned.{GeneratedCase, IsGenerated}

-- The attempt of the preflight that a validated attempt holds.
abbrev pub origin : GeneratedAttempt → PreflightAttempt
origin a = a.planned_attempt.preflight_attempt

module _ (b : Boundary) (law : IsLawful b) (m : Measurement) where
  -- What local validation has accepted.
  abbrev pub HasSql : GeneratedAttempt → String → Type 0
  HasSql a t =
      (c : Contract) × HasContract (origin a) c
      × ((s : Section) × (a.section ≡ some s))
      × ((p : Policy) × (b.execution_policy c ≡ some p)
          × ((sql : String) × (b.validate_sql sql p ≡ (some t, none))))

  abbrev pub ValidatedCase : ValidatedAttempt → Option Failure → Option String → Type 0
  ValidatedCase a (some f) t =
      IsFailed 4 f (origin a.generated_attempt) a.diagnostic (record_validated a m)
  ValidatedCase a none (some t) = HasSql a.generated_attempt t
  ValidatedCase a none none = ⊥

  abbrev pub IsValidated : ValidatedAttempt → Type 0
  IsValidated a = ValidatedCase a a.failure a.validated_sql

  module _ (a : GeneratedAttempt) (c : Contract) (h : HasContract (origin a) c)
      (text : is_blank (text_of a.generated_sql) ≡ false) where
    refuse_validation-IsValidated :
        (k : Code) → diagnostic_stage k ≡ sql_validation → IsValidated (refuse_validation a k)
    unfolding record_validated
    refuse_validation-IsValidated k e = (
      omega arith,
      Records-with_run (origin a) (some k) _ refl
          (validation-IsAccepted (origin a) m (text_of a.generated_sql) text k e)
          (HasArtifacts-of_contract (origin a) c sql_validation (omega arith) h),
    )

    semantic_validation-IsValidated : IsValidated (semantic_validation a)
    unfolding record_validated
    semantic_validation-IsValidated = (
      omega arith,
      Records-with_run (origin a) none _ refl
          (semantic_validation-IsAccepted (origin a) m (text_of a.generated_sql) text)
          (HasArtifacts-of_contract (origin a) c sql_validation (omega arith) h),
    )

    read_validation-IsValidated :
        (s : Section) (p : Policy) (sql : String) (r : Option String × Option Code)
        → a.section ≡ some s
        → b.execution_policy c ≡ some p
        → b.validate_sql sql p ≡ r
        → Post IsValidated (read_validation b a p s r)
    read_validation-IsValidated s p sql (t, some k) es ep e =
        refuse_validation-IsValidated k (law.validation_codes sql p t k e)
    read_validation-IsValidated s p sql (none, none) es ep e = tt
    read_validation-IsValidated s p sql (some t, none) es ep e =
        Post-if IsValidated (b.period_refused t p) _ _ (λ x. semantic_validation-IsValidated)
          (λ x.
            Post-if IsValidated (b.dashboard_refused s t p) _ _
              (λ q. semantic_validation-IsValidated) (λ q. (c, h, (s, es), (p, ep, (sql, e)))))

  validate_policy-IsValidated :
      (a : GeneratedAttempt) (c : Contract) (s : Section) (sql : String) (o : Option Policy)
      → HasContract (origin a) c
      → is_blank (text_of a.generated_sql) ≡ false
      → a.section ≡ some s
      → b.execution_policy c ≡ o
      → Post IsValidated (policy_of o >>= λ p. read_validation b a p s (b.validate_sql sql p))
  validate_policy-IsValidated a c s sql none h text es ep = tt
  validate_policy-IsValidated a c s sql (some p) h text es ep =
      read_validation-IsValidated a c h text s p sql (b.validate_sql sql p) es ep refl

  validate_step-IsValidated :
      (a : GeneratedAttempt) (f : Option Failure) (s : Option Section) (sql : Option String)
      → a.section ≡ s
      → a.generated_sql ≡ sql
      → GeneratedCase m a f s sql
      → Post IsValidated (validate_step b a f (origin a).result.contract s sql)
  unfolding record_validated
  validate_step-IsValidated a (some f) s sql es eq (r, h) =
      (omega arith, rw (is_stage-later sql_validation f.stage (omega arith) (omega arith)) h)
  validate_step-IsValidated a none (some s) (some sql) es eq ((c, h), text) =
      simp (h.2)
        (validate_policy-IsValidated a c s sql (b.execution_policy c) h (rw eq text) es refl)
  validate_step-IsValidated a none none sql es eq h = absurd h
  validate_step-IsValidated a none (some s) none es eq h = absurd h

  pub validate_attempt-IsValidated :
      (a : GeneratedAttempt) → IsGenerated m a → Post IsValidated (validate_attempt b a)
  unfolding validate_attempt
  validate_attempt-IsValidated a h =
      validate_step-IsValidated a a.failure a.section a.generated_sql refl refl h
