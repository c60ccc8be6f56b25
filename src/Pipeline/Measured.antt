-- ===== src/Pipeline/Measured.antt =====
-- `_measure_attempt` of manifest_artifacts.py: one planned run inside the meter, which may call
-- `execute` any number of times and may swallow what it raises.
use repchat.Prelude.{
  ℕ, ◌+◌, ◌≤◌, ◌≡◌, ◌↔◌, ◌≢◌, ◌∙◌, refl, sym, ap, inl, inr, true, false, Option, none, some, List,
  [], ◌∷◌, arith, ◌==◌, length, Bool-cases, if◌then◌else◌,
}
use repchat.Pipeline.Attempts.{RenderingAttempt}
use repchat.Pipeline.Recording.{Measurement}
use repchat.Pipeline.Collection.{Texts, texts_eq, identity_of}
use repchat.Pipeline.Collection.Complete.{texts_eq_lem, texts_eq_refl}

-- What `rendering_runner` does: it returns a tuple of attempts or another object, or it raises.
pub data Rendered : Type 0 where
  attempts : List RenderingAttempt → Rendered
  other_result runner_raised : Rendered

-- The two variables of `execute`.
pub record Executions : Type 0 where
  pub execution_count : ℕ
  pub observed : Option RenderingAttempt

-- The attempt of a result that matches its run.
abbrev pub matching : Texts → Rendered → Option RenderingAttempt
matching i (attempts (a ∷ [])) = if texts_eq (identity_of a) i then some a else none
matching i _ = none

abbrev pub keep_observed : Option RenderingAttempt → Executions → Executions
keep_observed none s = s
keep_observed (some a) s = record s { observed = some a }

-- `execute()`, with what the runner would do.
unfoldable pub execute_once : Texts → Rendered → Executions → Executions
execute_once i r s =
    let counted : Executions = record s { execution_count = s.execution_count + 1 } in
    if counted.execution_count == 1 then keep_observed (matching i r) counted else counted

unfoldable pub executes : Texts → List Rendered → Executions → Executions
executes i [] s = s
executes i (r ∷ rs) s = executes i rs (execute_once i r s)

-- The attempt with its measurement, a `ManifestArtifactError`, or what the meter raises.
pub data MeasuredAttempt : Type 0 where
  measured_attempt : RenderingAttempt → Measurement → MeasuredAttempt
  not_once invalid_measurement meter_raised : MeasuredAttempt

abbrev pub with_measurement : RenderingAttempt → Option Measurement → MeasuredAttempt
with_measurement a none = invalid_measurement
with_measurement a (some m) = measured_attempt a m

abbrev pub with_observed : Option RenderingAttempt → Option Measurement → MeasuredAttempt
with_observed none m = not_once
with_observed (some a) m = with_measurement a m

abbrev pub after_meter : Executions → Option (Option Measurement) → MeasuredAttempt
after_meter s none = meter_raised
after_meter s (some m) = if s.execution_count == 1 then with_observed s.observed m else not_once

-- `_measure_attempt(identity, …)`, with the results of the runner for each call of `execute` and what
-- the meter returns: `none` where it raises, and no measurement where it is not valid.
unfoldable pub measure_attempt :
    Texts → List Rendered → Option (Option Measurement) → MeasuredAttempt
measure_attempt i rs m =
    after_meter (executes i rs (record { execution_count = 0; observed = none })) m

keep_observed-count :
    (o : Option RenderingAttempt) (s : Executions)
    → (keep_observed o s).execution_count ≡ s.execution_count
keep_observed-count none s = refl
keep_observed-count (some a) s = refl

execute_once-count :
    (i : Texts) (r : Rendered) (s : Executions)
    → (execute_once i r s).execution_count ≡ s.execution_count + 1
unfolding execute_once
execute_once-count i r s = elim (Bool-cases (s.execution_count + 1 == 1)) [
  | inl e ↦ simp e (keep_observed-count (matching i r) _)
  | inr e ↦ simp e
]

executes-count :
    (i : Texts) (rs : List Rendered) (s : Executions)
    → (executes i rs s).execution_count ≡ s.execution_count + length rs
unfolding executes
executes-count i [] s = omega arith
executes-count i (r ∷ rs) s =
    omega (arith, executes-count i rs (execute_once i r s), execute_once-count i r s)

abbrev no_executions : Executions
no_executions = record { execution_count = 0; observed = none }

once :
    (i : Texts) (a : RenderingAttempt) (r : Measurement)
    → texts_eq (identity_of a) i ≡ true
    → measure_attempt i (attempts (a ∷ []) ∷ []) (some (some r)) ≡ measured_attempt a r
unfolding measure_attempt executes execute_once
once i a r h = rw h refl

with_measurement-valid :
    (b a : RenderingAttempt) (m : Option Measurement) (r : Measurement)
    → with_measurement b m ≡ measured_attempt a r
    → (b ≡ a) × (m ≡ some r)
with_measurement-valid b a none r h = cc
with_measurement-valid b a (some m) r h = (cc, cc)

matched :
    (i : Texts) (b a : RenderingAttempt) (m : Option Measurement) (r : Measurement)
    → measure_attempt i (attempts (b ∷ []) ∷ []) (some m) ≡ measured_attempt a r
    → (b ≡ a) × (identity_of b ≡ i) × (m ≡ some r)
unfolding measure_attempt executes execute_once
matched i b a m r h = elim (Bool-cases (texts_eq (identity_of b) i)) [
  | inl e ↦
      let (p, q) = with_measurement-valid b a m r (rw e at h) in
      (p, texts_eq_lem (identity_of b) i e, q)
  | inr e ↦ absurd (let h' = rw e at h in cc)
]

too_often :
    (s : Executions) (m : Option Measurement) (a : RenderingAttempt) (r : Measurement)
    → 2 ≤ s.execution_count
    → after_meter s (some m) ≢ measured_attempt a r
too_often s m a r k h =
    let wrong : (s.execution_count == 1) ≡ false = ground arith in let h' = simp wrong at h in cc

forward :
    (i : Texts) (rs : List Rendered) (m : Option (Option Measurement)) (a : RenderingAttempt)
    (r : Measurement)
    → measure_attempt i rs m ≡ measured_attempt a r
    → (rs ≡ attempts (a ∷ []) ∷ []) × (identity_of a ≡ i) × (m ≡ some (some r))
unfolding measure_attempt executes execute_once
forward i rs none a r h = cc
forward i [] (some m) a r h = cc
forward i (other_result ∷ []) (some m) a r h = cc
forward i (runner_raised ∷ []) (some m) a r h = cc
forward i (attempts [] ∷ []) (some m) a r h = cc
forward i (attempts (b ∷ c ∷ bs) ∷ []) (some m) a r h = cc
forward i (attempts (b ∷ []) ∷ []) (some m) a r h =
    let (p, q, k) = matched i b a m r h in
    (ap (λ x. attempts (x ∷ []) ∷ []) p, sym (ap identity_of p) ∙ q, ap (λ x. some x) k)
forward i (x ∷ y ∷ zs) (some m) a r h = absurd (
    too_often (executes i (x ∷ y ∷ zs) no_executions) m a r
      (omega (arith, executes-count i (x ∷ y ∷ zs) no_executions)) h)

-- A run is measured exactly once: a measured attempt is had exactly where the meter executed the run
-- once, the runner returned that attempt alone, under the identity of the planned run, and the
-- meter returned the measurement.
pub measure_attempt_exact :
    (i : Texts) (rs : List Rendered) (m : Option (Option Measurement)) (a : RenderingAttempt)
    (r : Measurement)
    → (measure_attempt i rs m ≡ measured_attempt a r)
      ↔ ((rs ≡ attempts (a ∷ []) ∷ []) × (identity_of a ≡ i) × (m ≡ some (some r)))
measure_attempt_exact i rs m a r = (
  (λ h. forward i rs m a r h),
  λ (e, q, k). rw e (rw k (once i a r (rw (← q) (texts_eq_refl (identity_of a))))),
)
