-- ===== src/Spending/Ceilings.antt =====
-- The reservations of vertex_budget.py and bigquery_budget.py, in micro-JPY. The arithmetic is exact,
-- as it is in the 384 digits of the decimal context for rates of at most 150 digits before and after
-- the point.
use text.Mathlib.Text.{◌==◌ as str_eq}
use repchat.Prelude.{
  ℕ, suc, ◌+◌, ◌-◌, ◌*◌, ◌/◌, ◌^◌, String, Bool, false, not, ◌&&◌, ◌||◌, Option, none, some, List,
  [], ◌∷◌, leb, ◌==◌, all, any_of, if◌then◌else◌,
}
use repchat.Text.{is_blank}
use repchat.Budget.Amount.{pos, negsuc, Object, finite, non_finite, not_decimal, adjusted_too_large}
use repchat.BigQuery.DryRun.{Value, integer, count_of}
use repchat.Spending.Pricing.{
  Library, PricingSnapshot, RuntimePricing, Priced, priced, measurement_error, value_error, text_is,
  pricing_for,
}

abbrev pub context_tokens : ℕ
context_tokens = 1048576

abbrev pub output_tokens : ℕ
output_tokens = 65536

-- `TIB`
abbrev pub tib : ℕ
tib = 2 ^ 40

-- `MAX_INT64`
abbrev pub max_int64 : ℕ
max_int64 = 9223372036854775807

-- A positive `Decimal` as a fraction.
abbrev pub numerator : Object → ℕ
numerator (finite negative c (pos e)) = c * 10 ^ e
numerator (finite negative c (negsuc n)) = c
numerator non_finite = 0
numerator not_decimal = 0

abbrev pub denominator : Object → ℕ
denominator (finite negative c (pos e)) = 1
denominator (finite negative c (negsuc n)) = 10 ^ suc n
denominator non_finite = 1
denominator not_decimal = 1

-- The least number of micro-JPY that is not below a fraction of them: `ROUND_CEILING`.
unfoldable pub ceiling : ℕ → ℕ → ℕ
ceiling n d = (n + (d - 1)) / d

-- The cost of tokens; a rate per million in JPY is one per token in micro-JPY.
unfoldable pub token_cost : RuntimePricing → ℕ → ℕ → ℕ
unfolding ceiling
token_cost r input output =
    ceiling
      (numerator r.vertex_input * denominator r.vertex_output * input
        + numerator r.vertex_output * denominator r.vertex_input * output)
      (denominator r.vertex_input * denominator r.vertex_output)

-- The cost of billed bytes.
unfoldable pub byte_cost : Object → ℕ → ℕ
unfolding ceiling
byte_cost rate bytes = ceiling (numerator rate * 1000000 * bytes) (denominator rate * tib)

-- A reservation, a `BudgetError`, or the `ValueError` that `pricing_for` may raise.
pub data Ceiling : Type 0 where
  ceiling_of : RuntimePricing → ℕ → Ceiling
  budget_error other_error : Ceiling

-- `not maximum_jpy.is_finite() or maximum_jpy <= 0 or maximum_jpy.adjusted() > 31`
unfoldable pub check_ceiling : RuntimePricing → ℕ → Ceiling
check_ceiling r v =
    if v == 0 || adjusted_too_large v (negsuc 5) then budget_error else ceiling_of r v

-- The keys of a generation config and the values that are read; `none` is a missing value, or one of
-- another type where a text or a `dict` is expected.
pub record GenerationConfig : Type 0 where
  pub keys : List String
  pub max_output_tokens : Option Value
  pub candidate_count : Option Value
  pub system_instruction : Option String
  pub response_mime_type : Option String
  pub response_schema_nonempty : Option Bool

-- `ALLOWED_CONFIG`
abbrev pub allowed_config : List String
allowed_config =
    "system_instruction" ∷ "response_mime_type" ∷ "response_schema" ∷ "max_output_tokens"
    ∷ "candidate_count" ∷ []

abbrev within_bounds : ℕ → ℕ → Option ℕ → Bool
within_bounds low high none = false
within_bounds low high (some n) = leb low n && leb n high

abbrev pub value_within : ℕ → ℕ → Option Value → Bool
value_within low high none = false
value_within low high (some v) = within_bounds low high (count_of v)

abbrev pub is_nonblank : Option String → Bool
is_nonblank none = false
is_nonblank (some s) = not (is_blank s)

abbrev pub or_one : Option Value → Option Value
or_one none = some (integer 1)
or_one (some v) = some v

abbrev pub is_true : Option Bool → Bool
is_true none = false
is_true (some b) = b

-- The tests on a config that is a `dict`.
abbrev pub is_text_config : GenerationConfig → Bool
is_text_config c =
    all (λ k. any_of (str_eq k) allowed_config) c.keys
    && value_within 1 output_tokens c.max_output_tokens
    && value_within 1 1 (or_one c.candidate_count)
    && is_nonblank c.system_instruction
    && text_is c.response_mime_type "application/json"
    && is_true c.response_schema_nonempty

abbrev pub is_text_request : Option String → Option String → Option String → GenerationConfig → Bool
is_text_request model region contents c =
    text_is model "gemini-3.6-flash"
    && text_is region "global"
    && is_nonblank contents
    && is_text_config c

-- What both reservations do with the answer of `pricing_for`.
abbrev pub with_pricing : Priced RuntimePricing → (RuntimePricing → Ceiling) → Ceiling
with_pricing (priced r) f = f r
with_pricing measurement_error f = budget_error
with_pricing value_error f = other_error

-- The attributes of a `job_config` that are read.
pub record QueryConfig : Type 0 where
  pub dry_run : Option Bool
  pub maximum_bytes_billed : Value
  pub has_destination : Bool
  pub has_connection_properties : Bool

abbrev pub is_false : Option Bool → Bool
is_false none = false
is_false (some b) = not b

-- `job_config.dry_run is True`
abbrev pub is_dry_run : QueryConfig → Bool
is_dry_run c = is_true c.dry_run

abbrev or_zero : Option ℕ → ℕ
or_zero none = 0
or_zero (some n) = n

-- The number where the value is one; a supported config has one.
abbrev pub count_or_zero : Value → ℕ
count_or_zero v = or_zero (count_of v)

-- The byte cap of a config that is supported.
abbrev pub byte_cap : QueryConfig → Option ℕ
byte_cap c =
    if is_false c.dry_run
      && value_within 1 max_int64 (some c.maximum_bytes_billed)
      && not c.has_destination
      && not c.has_connection_properties
    then count_of c.maximum_bytes_billed
    else none

abbrev pub bytes_ceiling : RuntimePricing → Option ℕ → Ceiling
bytes_ceiling r none = budget_error
bytes_ceiling r (some bytes) = check_ceiling r (byte_cost r.bigquery bytes)

module _ (l : Library) (s : PricingSnapshot) where
  -- `vertex_text_reservation_jpy(…)`
  unfoldable pub vertex_text_reservation_jpy :
      Option String → Option String → Option ℕ → Option String → GenerationConfig → Ceiling
  vertex_text_reservation_jpy model region execution_date contents c =
      with_pricing (pricing_for l s model region execution_date) (λ r.
        if is_text_request model region contents c
        then check_ceiling r (token_cost r context_tokens output_tokens)
        else budget_error)

  -- `bigquery_query_reservation_jpy(…)`
  unfoldable pub bigquery_query_reservation_jpy :
      Option String → Option String → Option ℕ → QueryConfig → Ceiling
  bigquery_query_reservation_jpy model region execution_date c =
      with_pricing (pricing_for l s model region execution_date) (λ r. bytes_ceiling r (byte_cap c))
