-- ===== src/Budget/Amount.antt =====
-- `_amount` and `BudgetLimits` of execution_budget.py. An accepted amount is a whole number of
-- micro-JPY, since its exponent is at least -6.
pub mod Bounds
use repchat.Prelude.{
  ℕ, zero, suc, ◌+◌, ◌-◌, ◌*◌, ◌/◌, ◌^◌, ◌≤◌, ◌<◌, ◌≡◌, Bool, true, false, ◌&&◌, ◌||◌, Option, none,
  some, arith, ltb, ◌==◌, if◌then◌else◌,
}

-- The exponent of a `Decimal`: `negsuc n` is -(n + 1).
pub data ℤ : Type 0 where
  pos : ℕ → ℤ
  negsuc : ℕ → ℤ

-- A Python object where a `Decimal` is expected: a finite one by its `as_tuple()` (sign,
-- coefficient, exponent), a NaN or an infinity, or an object of another type.
pub data Object : Type 0 where
  finite : Bool → ℕ → ℤ → Object
  non_finite : Object
  not_decimal : Object

digits_within : ℕ → ℕ → ℕ
digits_within zero n = 1
digits_within (suc fuel) n =
    let rest = digits_within fuel (n / 10) in if ltb n 10 then 1 else suc rest

-- The number of decimal digits of a coefficient; 0 has one digit.
unfoldable pub digit_count : ℕ → ℕ
unfolding digits_within
digit_count n = digits_within n n

-- `value.adjusted() > 31`, where `adjusted()` is the exponent plus the digits less one.
unfoldable pub adjusted_too_large : ℕ → ℤ → Bool
unfolding digit_count
adjusted_too_large c (pos e) = ltb 32 (e + digit_count c)
adjusted_too_large c (negsuc n) = ltb (33 + n) (digit_count c)

-- `value.as_tuple().exponent < -6`
abbrev pub below_micro : ℤ → Bool
below_micro (pos e) = false
below_micro (negsuc n) = ltb 5 n

-- The value in micro-JPY, of an exponent of at least -6.
unfoldable pub micro : ℕ → ℤ → ℕ
micro c (pos e) = c * 10 ^ (e + 6)
micro c (negsuc n) = c * 10 ^ (5 - n)

-- `_amount(value, positive=positive)`: `none` is its `BudgetError`.
unfoldable pub amount : Bool → Object → Option ℕ
unfolding adjusted_too_large micro
amount positive (finite negative c e) =
    if negative && ltb 0 c || positive && c == 0 || adjusted_too_large c e || below_micro e
    then none
    else some (micro c e)
amount positive non_finite = none
amount positive not_decimal = none

-- `BudgetLimits`, in micro-JPY.
pub record Limits : Type 0 where
  pub vertex_jpy : ℕ
  pub bigquery_jpy : ℕ
  pub total_jpy : ℕ

check_total : Option ℕ → Option ℕ → Option ℕ → Option Limits
check_total (some v) (some b) (some t) =
    if ltb (v + b) t
    then none
    else some (record { vertex_jpy = v; bigquery_jpy = b; total_jpy = t })
check_total _ _ _ = none

-- `BudgetLimits(vertex_jpy, bigquery_jpy, total_jpy)` with its `__post_init__`.
unfoldable pub make_limits : Object → Object → Object → Option Limits
unfolding check_total
make_limits v b t = check_total (amount true v) (amount true b) (amount true t)
