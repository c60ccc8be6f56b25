-- ===== src/Spending/Vertex.antt =====
-- vertex_budget_adapter.py: one text generation in a reservation of the budget gate. A `BudgetError`
-- of the adapter and an exception of the client are the gate's `operation_error`.
use text.Mathlib.Text.{◌==◌ as str_eq}
use repchat.Prelude.{
  ℕ, ◌+◌, String, Bool, true, false, not, ◌&&◌, ◌||◌, Option, none, some, ltb, ◌==◌, if◌then◌else◌,
}
use repchat.Text.{is_blank}
use repchat.Budget.Amount.{negsuc, Object, finite}
use repchat.Budget.Gate.{
  Outcome, returned, raised, Action, operation_error, reserve, settle, abandon, after_settle,
}
use repchat.BigQuery.DryRun.{Value, count_of, Reply}
use repchat.Spending.Pricing.{Library, PricingSnapshot, RuntimePricing}
use repchat.Spending.Ceilings.{
  Ceiling, ceiling_of, budget_error, other_error, GenerationConfig, context_tokens, output_tokens,
  token_cost, vertex_text_reservation_jpy,
}

-- An amount of micro-JPY as a `Decimal` that is quantized to them.
abbrev pub micro_jpy : ℕ → Object
micro_jpy v = finite false v (negsuc 5)

-- `response.usage_metadata`; a count that is `None`, and one that is missing, is `none`.
pub record UsageMetadata : Type 0 where
  pub prompt_token_count : Option Value
  pub candidates_token_count : Option Value
  pub thoughts_token_count : Option Value
  pub tool_use_prompt_token_count : Option Value
  pub total_token_count : Option Value

-- A response, by its `usage_metadata`, which may be missing.
pub record Response : Type 0 where
  pub usage_metadata : Option UsageMetadata

-- `_count(value)`
abbrev pub required_count : Option Value → Option ℕ
required_count none = none
required_count (some v) = count_of v

-- A count that may be missing.
abbrev pub optional_tokens : Option Value → Option ℕ
optional_tokens none = some 0
optional_tokens (some v) = count_of v

abbrev matches : Option ℕ → ℕ → Bool
matches none n = false
matches (some m) n = m == n

-- A total, if there is one, is the sum of the parts.
abbrev pub total_agrees : Option Value → ℕ → Bool
total_agrees none n = true
total_agrees (some v) n = matches (count_of v) n

-- The input and the output tokens of four counts.
abbrev pub tokens_of : Option ℕ → Option ℕ → Option ℕ → Option ℕ → Option Value → Option (ℕ × ℕ)
tokens_of (some input) (some output) (some thoughts) (some tool_prompt) total =
    if not (total_agrees total (input + output + thoughts + tool_prompt))
      || not (tool_prompt == 0)
      || ltb context_tokens input
      || ltb output_tokens (output + thoughts)
    then none
    else some (input, output + thoughts)
tokens_of _ _ _ _ total = none

-- What `_observed_cost_jpy` reads of a response.
abbrev pub observed_tokens : Option UsageMetadata → Option (ℕ × ℕ)
observed_tokens none = none
observed_tokens (some u) =
    tokens_of (required_count u.prompt_token_count) (required_count u.candidates_token_count)
      (optional_tokens u.thoughts_token_count) (optional_tokens u.tool_use_prompt_token_count)
      u.total_token_count

abbrev pub cost_of_tokens : RuntimePricing → Option (ℕ × ℕ) → Option ℕ
cost_of_tokens r none = none
cost_of_tokens r (some (input, output)) = some (token_cost r input output)

-- `_observed_cost_jpy(response, snapshot)` in micro-JPY; `none` is its `BudgetError`.
unfoldable pub observed_cost_jpy : RuntimePricing → Response → Option ℕ
observed_cost_jpy r x = cost_of_tokens r (observed_tokens x.usage_metadata)

-- The client, by the attributes that `_validate_client_scope` reads: `vertexai` is `True`, the
-- location and the project where they are texts, and whether an attribute is not `None`.
pub record ClientScope : Type 0 where
  pub vertexai : Bool
  pub location : Option String
  pub project : Option String
  pub has_api_key : Bool
  pub has_custom_base_url : Bool
  pub has_options : Bool
  pub has_extra_body : Bool
  pub has_base_url_resource_scope : Bool

abbrev same_location : Option String → Option String → Bool
same_location none none = true
same_location (some s) (some t) = str_eq s t
same_location _ _ = false

abbrev has_project : Option String → Bool
has_project none = false
has_project (some s) = not (is_blank s)

-- `_validate_client_scope` raises nothing.
unfoldable pub is_supported_scope : ClientScope → Option String → Bool
is_supported_scope s region =
    s.vertexai
    && same_location s.location region
    && has_project s.project
    && not s.has_api_key
    && not s.has_custom_base_url
    && s.has_options
    && not s.has_extra_body
    && not s.has_base_url_resource_scope

-- `BudgetedVertex`, apart from its gate.
pub record BudgetedVertex : Type 0 where
  pub library : Library
  pub client : ClientScope
  pub pricing_snapshot : PricingSnapshot
  pub region : Option String
  pub execution_date : Option ℕ

-- The `try` block from the settlement on.
abbrev pub settle_cost : ℕ → Response → Option ℕ → Action Response
settle_cost i x none g = abandon i operation_error g
settle_cost i x (some c) g = let (s, g') = settle i (micro_jpy c) g in after_settle i x s g'

-- The `try` block and its handler.
abbrev pub settle_reply : ℕ → RuntimePricing → Reply Response → Action Response
settle_reply i r (Reply.raised e) g = abandon i operation_error g
settle_reply i r (Reply.answered x) g = settle_cost i x (observed_cost_jpy r x) g

abbrev pub hold_request : RuntimePricing → Reply Response → Outcome ℕ → Action Response
hold_request r reply (raised e) g = (raised e, g)
hold_request r reply (returned i) g = settle_reply i r reply g

abbrev pub submit : Reply Response → Ceiling → Action Response
submit reply budget_error g = (raised operation_error, g)
submit reply other_error g = (raised operation_error, g)
submit reply (ceiling_of r v) g =
    let (q, g') = reserve "vertex" (micro_jpy v) g in hold_request r reply q g'

-- The maximum that a request reserves; the settings are `none` where they are no `dict`.
unfoldable pub request_ceiling :
    BudgetedVertex → Option String → Option String → Option GenerationConfig → Ceiling
request_ceiling w model contents none = budget_error
request_ceiling w model contents (some c) =
    vertex_text_reservation_jpy w.library w.pricing_snapshot model w.region w.execution_date
      contents c

-- `generate_content(model, contents, config)`, with the answer of the client to the request.
unfoldable pub generate_content :
    BudgetedVertex
    → Option String
    → Option String
    → Option GenerationConfig
    → Reply Response
    → Action Response
generate_content w model contents settings reply g =
    if is_supported_scope w.client w.region
    then submit reply (request_ceiling w model contents settings) g
    else (raised operation_error, g)
