-- ===== src/Spending/Bounds.antt =====
-- An observed cost is within the maximum that is reserved for it, and the gate takes both.
use repchat.Prelude.{
  ℕ, suc, ◌+◌, ◌-◌, ◌*◌, ◌^◌, ◌≤◌, ◌<◌, ◌≡◌, Bool, false, ◌||◌, ◌&&◌, some, arith, ltb, ◌==◌, inl,
  inr, Bool-cases,
}
use native.Mathlib.Nat.{
  le-div_iff_mul-le, div-mul-le_self, pow-le-pow_right, one-le-pow, one-le-mul, mul-le-mul_left,
  lt_of_lt_of_le,
}
use repchat.Budget.Amount.{
  pos, negsuc, finite, non_finite, not_decimal, Object, digit_count, adjusted_too_large, amount,
  micro,
}
use repchat.Budget.Amount.Bounds.{digit_count_bound, digit_count_le}
use repchat.Spending.Pricing.{RuntimePricing}
use repchat.Spending.Ceilings.{
  numerator, denominator, ceiling, token_cost, byte_cost, tib, ceiling_of, check_ceiling,
}
use repchat.Spending.Vertex.{micro_jpy}

ceiling_mono : (n m d : ℕ) → 0 < d → n ≤ m → ceiling n d ≤ ceiling m d
unfolding ceiling
ceiling_mono n m d p h = (le-div_iff_mul-le p).1 (omega (arith, div-mul-le_self (n + (d - 1)) d))

denominator_pos : (o : Object) → 0 < denominator o
denominator_pos (finite b c (pos e)) = omega arith
denominator_pos (finite b c (negsuc n)) = one-le-pow (suc n) 10 (omega arith)
denominator_pos non_finite = omega arith
denominator_pos not_decimal = omega arith

-- More tokens cost no less.
pub token_cost_mono :
    (r : RuntimePricing) (i o i' o' : ℕ) → i ≤ i' → o ≤ o' → token_cost r i o ≤ token_cost r i' o'
unfolding token_cost
token_cost_mono r i o i' o' h k =
    ceiling_mono _ _ (denominator r.vertex_input * denominator r.vertex_output)
      (one-le-mul (denominator_pos r.vertex_input) (denominator_pos r.vertex_output))
      (omega (
        arith,
        mul-le-mul_left (numerator r.vertex_input * denominator r.vertex_output) h,
        mul-le-mul_left (numerator r.vertex_output * denominator r.vertex_input) k,
      ))

-- More bytes cost no less.
pub byte_cost_mono : (rate : Object) (b b' : ℕ) → b ≤ b' → byte_cost rate b ≤ byte_cost rate b'
unfolding byte_cost
byte_cost_mono rate b b' h =
    ceiling_mono _ _ (denominator rate * tib) (one-le-mul (denominator_pos rate) (omega arith))
      (mul-le-mul_left (numerator rate * 1000000) h)

-- A maximum that passes has at most 38 digits.
pub check_ceiling-fits :
    (r r' : RuntimePricing) (n v : ℕ)
    → check_ceiling r n ≡ ceiling_of r' v
    → (r ≡ r') × (n ≡ v) × (0 < v) × (v < 10 ^ 38)
unfolding check_ceiling adjusted_too_large
check_ceiling-fits r r' n v h = elim (Bool-cases (n == 0 || ltb 38 (digit_count n))) [
  | inl e ↦ absurd (let h' = rw e at h in cc)
  | inr e ↦
      let h' = rw e at h in
      let few : digit_count n ≤ 38 = ground arith in
      let q : n ≡ v = cc in
      (
        cc,
        q,
        ground arith,
        rw (← q)
            (lt_of_lt_of_le (digit_count_bound n) (pow-le-pow_right {n = 10} (omega arith) few)),
      )
]

-- The gate accepts every amount of at most 38 digits, and 0 where it need not be positive.
pub amount-micro_jpy :
    (positive : Bool) (v : ℕ)
    → (positive && v == 0) ≡ false
    → v < 10 ^ 38
    → amount positive (micro_jpy v) ≡ some v
unfolding amount adjusted_too_large micro
amount-micro_jpy positive v p h =
    let few : digit_count v ≤ 38 = digit_count_le v 37 h in rw p (ground arith)
