-- ===== src/Budget/Amount/Bounds.antt =====
-- The bound on what `_amount` accepts: fewer than 10^38 micro-JPY, so that sums of a few amounts
-- have at most 48 digits.
use repchat.Prelude.{
  ℕ, zero, suc, ◌+◌, ◌-◌, ◌*◌, ◌/◌, ◌^◌, ◌≤◌, ◌<◌, ◌≡◌, Bool, true, false, Option, none, some,
  arith, ltb, inl, inr, Bool-cases, Option-cases,
}
use native.Mathlib.Nat.{
  add-zero, one-le-mul, pow-succ', pow-le-pow_right, one-le-pow, lt_of_lt_of_le,
  mul-lt-mul_of_pos_right,
}
use repchat.Budget.Amount.{
  Object, ℤ, pos, negsuc, finite, non_finite, not_decimal, digits_within, digit_count,
  adjusted_too_large, below_micro, micro, amount, Limits, make_limits, check_total,
}

digits_within_bound : (fuel n : ℕ) → n ≤ fuel → n < 10 ^ digits_within fuel n
unfolding digits_within
digits_within_bound zero n h = omega arith
digits_within_bound (suc fuel) n h = elim (Bool-cases (ltb n 10)) [
  | inl small ↦ rw small (ground arith)
  | inr large ↦ rw large (rw pow-succ' (ground (arith, digits_within_bound fuel (n / 10))))
]

-- A number is below ten to the number of its digits.
pub digit_count_bound : (n : ℕ) → n < 10 ^ digit_count n
unfolding digit_count
digit_count_bound n = digits_within_bound n n (omega arith)

pow-add : (b a : ℕ) → 10 ^ (a + b) ≡ 10 ^ a * 10 ^ b
pow-add zero a = rw add-zero (omega arith)
pow-add (suc b) a =
    let e : a + suc b ≡ suc (a + b) = omega arith in
    rw (e, pow-succ', pow-succ', pow-add b a) (omega arith)

-- A coefficient of `d` digits times ten to the `k` is below 10^38 if `d + k` is at most 38.
scale_bound : (c d k : ℕ) → c < 10 ^ d → d + k ≤ 38 → c * 10 ^ k < 10 ^ 38
scale_bound c d k h room =
    lt_of_lt_of_le (mul-lt-mul_of_pos_right h (one-le-pow k 10 (omega arith)))
      (rw (← pow-add k d) (pow-le-pow_right {n = 10} (omega arith) room))

micro_bound :
    (c : ℕ) (e : ℤ) → adjusted_too_large c e ≡ false → below_micro e ≡ false → micro c e < 10 ^ 38
unfolding micro adjusted_too_large
micro_bound c (pos e) h low =
    scale_bound c (digit_count c) (e + 6) (digit_count_bound c) (ground arith)
micro_bound c (negsuc n) h low =
    scale_bound c (digit_count c) (5 - n) (digit_count_bound c) (ground arith)

-- Every accepted amount is below 10^38 micro-JPY.
pub amount_bound : (positive : Bool) (o : Object) {v : ℕ} → amount positive o ≡ some v → v < 10 ^ 38
unfolding amount
amount_bound positive (finite negative c e) h = ground (arith, micro_bound c e)
amount_bound positive non_finite h = cc
amount_bound positive not_decimal h = cc

scale_pos : (c k : ℕ) → 0 < c → 0 < c * 10 ^ k
scale_pos c k h = one-le-mul h (one-le-pow k 10 (omega arith))

-- An amount accepted as positive is not 0.
pub amount_pos : (o : Object) {v : ℕ} → amount true o ≡ some v → 0 < v
unfolding amount micro
amount_pos (finite negative c (pos e)) h = ground (arith, scale_pos c (e + 6))
amount_pos (finite negative c (negsuc n)) h = ground (arith, scale_pos c (5 - n))
amount_pos non_finite h = cc
amount_pos not_decimal h = cc

abbrev IsBounded : Option ℕ → Type 0
IsBounded none = Unit
IsBounded (some v) = v < 10 ^ 38

amount-IsBounded : (o : Object) → IsBounded (amount true o)
amount-IsBounded o = elim (Option-cases (amount true o)) [
  | inl bad ↦ rw bad tt
  | inr (v, e) ↦ rw e (amount_bound true o e)
]

check_total_bounds :
    (v b t : Option ℕ) {l : Limits}
    → IsBounded v
    → IsBounded b
    → IsBounded t
    → check_total v b t ≡ some l
    → (l.vertex_jpy < 10 ^ 38)
      × (l.bigquery_jpy < 10 ^ 38)
      × (l.total_jpy < 10 ^ 38)
      × (l.total_jpy ≤ l.vertex_jpy + l.bigquery_jpy)
unfolding check_total
check_total_bounds (some v) (some b) (some t) hv hb ht h = ground arith
check_total_bounds none b t hv hb ht h = cc
check_total_bounds (some v) none t hv hb ht h = cc
check_total_bounds (some v) (some b) none hv hb ht h = cc

-- The limits of a gate are amounts, and the total is within the sum of the two providers.
pub make_limits_bounds :
    (v b t : Object) {l : Limits}
    → make_limits v b t ≡ some l
    → (l.vertex_jpy < 10 ^ 38)
      × (l.bigquery_jpy < 10 ^ 38)
      × (l.total_jpy < 10 ^ 38)
      × (l.total_jpy ≤ l.vertex_jpy + l.bigquery_jpy)
unfolding make_limits
make_limits_bounds v b t h =
    check_total_bounds (amount true v) (amount true b) (amount true t) (amount-IsBounded v)
      (amount-IsBounded b) (amount-IsBounded t) h

digits_within_le : (fuel n k : ℕ) → n < 10 ^ suc k → digits_within fuel n ≤ suc k
unfolding digits_within
digits_within_le zero n k h = omega arith
digits_within_le (suc fuel) n zero h = elim (Bool-cases (ltb n 10)) [
  | inl small ↦ rw small (omega arith)
  | inr large ↦ absurd (ground arith)
]
digits_within_le (suc fuel) n (suc k) h = elim (Bool-cases (ltb n 10)) [
  | inl small ↦ rw small (omega arith)
  | inr large ↦
      rw large (
        let h' = rw pow-succ' at h in omega (arith, digits_within_le fuel (n / 10) k (omega arith)))
]

-- A number below ten to the `k` has at most `k` digits, where `k` is not 0.
pub digit_count_le : (n k : ℕ) → n < 10 ^ suc k → digit_count n ≤ suc k
unfolding digit_count
digit_count_le n k h = digits_within_le n n k h
