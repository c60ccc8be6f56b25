-- ===== src/Spending/Pricing.antt =====
-- `PricingSnapshot.pricing_for` of manifest_runtime_meter.py.
use text.Mathlib.Text.{◌==◌ as str_eq}
use repchat.Prelude.{
  ℕ, String, Bool, true, false, not, ◌&&◌, Option, none, some, ltb, if◌then◌else◌,
}
use repchat.Text.{is_blank}
use repchat.Budget.Amount.{Object, finite, non_finite, not_decimal}

-- What `urlsplit` returns; an attribute that is `None` is `none`.
pub record Url : Type 0 where
  pub scheme : String
  pub hostname : Option String
  pub username : Option String
  pub password : Option String
  pub geturl : String

-- `float(value)`: finite and positive, another float, or a `ValueError`.
pub data Converted : Type 0 where
  positive_float other_float conversion_error : Converted

-- The functions of Python's library: `urlsplit`, where `none` is a `ValueError`; `Decimal` of a text,
-- where `none` is an `InvalidOperation`; and `float` of a `Decimal`.
pub record Library : Type 0 where
  pub urlsplit : String → Option Url
  pub decimal : String → Option Object
  pub to_float : Object → Converted

-- `PricingSnapshot`: `captured_at` by the ordinal of its date, where it is a `datetime` with an
-- offset; any other field is `none` where it is no text.
pub record PricingSnapshot : Type 0 where
  pub captured_at : Option ℕ
  pub source_url : Option String
  pub currency : Option String
  pub model : Option String
  pub region : Option String
  pub vertex_tier : Option String
  pub bigquery_billing : Option String
  pub vertex_input_jpy_per_million : Option String
  pub vertex_output_jpy_per_million : Option String
  pub bigquery_jpy_per_tib : Option String

-- `RuntimePricing`, by the decimals that its floats are made of.
pub record RuntimePricing : Type 0 where
  pub vertex_input : Object
  pub vertex_output : Object
  pub bigquery : Object

-- A value, a `RuntimeMeasurementError`, or a `ValueError` that is none.
pub data Priced (A : Type 0) : Type 0 where
  priced : A → Priced A
  measurement_error value_error : Priced A

abbrev pub text_is : Option String → String → Bool
text_is none t = false
text_is (some s) t = str_eq s t

abbrev pub is_captured : Option ℕ → Option ℕ → Bool
is_captured (some captured) (some execution) = not (ltb execution captured)
is_captured _ _ = false

abbrev is_none : Option String → Bool
is_none none = true
is_none (some s) = false

abbrev pub has_text : Option String → Bool
has_text none = false
has_text (some s) = not (str_eq s "")

abbrev pub is_source : Option Url → String → Bool
is_source none s = false
is_source (some u) s =
    str_eq u.scheme "https"
    && has_text u.hostname
    && str_eq u.geturl s
    && is_none u.username
    && is_none u.password

-- The value of a model or region that is a text and not blank, and the one of the snapshot.
abbrev pub same_text : Option String → Option String → Bool
same_text (some s) (some t) = not (is_blank t) && str_eq s t
same_text _ _ = false

abbrev pub is_positive : Object → Bool
is_positive (finite negative c e) = not negative && ltb 0 c
is_positive non_finite = false
is_positive not_decimal = false

abbrev pub check_converted : Object → Converted → Priced Object
check_converted v conversion_error = value_error
check_converted v other_float = measurement_error
check_converted v positive_float = if is_positive v then priced v else measurement_error

abbrev pub check_decimal : Library → Option Object → Priced Object
check_decimal l none = measurement_error
check_decimal l (some v) = check_converted v (l.to_float v)

-- One round of the loop over the rates.
abbrev pub check_rate : Library → Option String → Priced Object
check_rate l none = measurement_error
check_rate l (some raw) = check_decimal l (l.decimal raw)

abbrev pub and_then : {A B : Type 0} → Priced A → (A → Priced B) → Priced B
and_then (priced a) f = f a
and_then measurement_error f = measurement_error
and_then value_error f = value_error

module _ (l : Library) (s : PricingSnapshot) where
  abbrev pub has_source : Option String → Bool
  has_source none = false
  has_source (some u) = is_source (l.urlsplit u) u

  -- The tests before the rates.
  abbrev pub is_applicable : Option String → Option String → Option ℕ → Bool
  is_applicable model region execution_date =
      is_captured s.captured_at execution_date
      && has_source s.source_url
      && (text_is s.currency "JPY"
          && text_is s.vertex_tier "standard-text"
          && text_is s.bigquery_billing "on-demand")
      && (same_text s.model model && same_text s.region region)

  abbrev pub check_rates : Priced RuntimePricing
  check_rates = and_then (check_rate l s.vertex_input_jpy_per_million) (λ i.
      and_then (check_rate l s.vertex_output_jpy_per_million) (λ o.
        and_then (check_rate l s.bigquery_jpy_per_tib)
          (λ b. priced (record { vertex_input = i; vertex_output = o; bigquery = b }))))

  -- `pricing_for(model, region, execution_date)`
  unfoldable pub pricing_for : Option String → Option String → Option ℕ → Priced RuntimePricing
  pricing_for model region execution_date =
      if is_applicable model region execution_date then check_rates else measurement_error
