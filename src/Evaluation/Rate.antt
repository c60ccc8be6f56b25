-- ===== src/Evaluation/Rate.antt =====
-- The rates of evaluate.py: from a rate and its total the counted runs can be had again.
use repchat.Prelude.{
  ℕ, zero, suc, ◌+◌, ◌*◌, ◌/◌, ◌%◌, ◌≤◌, ◌<◌, ◌≡◌, refl, false, ◌&&◌, ◌||◌, arith, ltb, ◌==◌, inl,
  inr, ◌⊎◌, Bool-cases,
}
use native.Mathlib.Nat.{div-add-mod, mod-lt, add-mul, mul_comm, one-mul}
use repchat.Evaluation.Summary.{round_fraction, rate}
use repchat.Evaluation.Reports.{matching_runs}

-- The fraction rounds up, or it rounds down, and its remainder says how far off that is.
round_cases :
    (n t : ℕ)
    → ((round_fraction n t ≡ n / t + 1) × (t ≤ 2 * (n % t)))
      ⊎ ((round_fraction n t ≡ n / t) × (2 * (n % t) ≤ t))
unfolding round_fraction
round_cases n t = elim (Bool-cases (ltb t (2 * (n % t)) || t == 2 * (n % t) && (n / t) % 2 == 1)) [
  | inl up ↦ inl (rw up refl, ground arith)
  | inr down ↦ inr (rw down refl, ground arith)
]

-- A rounded fraction is at most a half from the fraction.
round_bounds :
    (n t : ℕ)
    → 0 < t
    → (2 * (round_fraction n t * t) ≤ 2 * n + t) × (2 * n ≤ 2 * (round_fraction n t * t) + t)
round_bounds n t pos =
    let split = div-add-mod n t in
    let below = mod-lt n pos in
    let grown : (n / t + 1) * t ≡ t * (n / t) + t =
      rw (add-mul (n / t) 1 t, mul_comm (n / t) t, one-mul t) refl in
    let same : n / t * t ≡ t * (n / t) = mul_comm (n / t) t in
    elim (round_cases n t) [
      | inl (e, far) ↦ rw (e, grown) (omega arith, omega arith)
      | inr (e, near) ↦ rw (e, same) (omega arith, omega arith)
    ]

-- Only one whole number is less than a half from the fraction.
round_millionths :
    (n m : ℕ)
    → 2 * n < 2 * (m * 1000000) + 1000000
    → 2 * (m * 1000000) < 2 * n + 1000000
    → round_fraction n 1000000 ≡ m
round_millionths n m h k = elim (round_cases n 1000000) [
  | inl (e, far) ↦ rw e (omega arith)
  | inr (e, near) ↦ rw e (omega arith)
]

-- For fewer than a million runs, the number of matching runs that `evaluate_bundle` takes back from
-- a rounded rate and the number of runs is the number that the rate was made of.
pub matching_runs-rate : (m q : ℕ) → m ≤ q → q < 1000000 → matching_runs (rate m q) q ≡ m
unfolding matching_runs rate
matching_runs-rate m zero le small = let empty : m ≡ 0 = omega arith in rw empty refl
matching_runs-rate m (suc q) le small =
    let (low, high) = round_bounds (m * 1000000) (suc q) (omega arith) in
    let counted : (suc q == 0) ≡ false = ground arith in
    rw counted (
      round_millionths (round_fraction (m * 1000000) (suc q) * suc q) m (omega arith) (omega arith))
