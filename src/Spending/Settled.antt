-- ===== src/Spending/Settled.antt =====
-- What a generation does to the gate.
use repchat.Prelude.{
  ℕ, ◌+◌, ◌^◌, ◌≤◌, ◌<◌, String, ◌≡◌, ◌∙◌, refl, sym, ap, ◌⊎◌, inl, inr, Bool, true, false, not,
  ◌||◌, Option, none, some, arith, ltb, ◌==◌, Bool-cases, if◌then◌else◌,
}
use repchat.Budget.Amount.{Object}
use repchat.Budget.Gate.{
  Provider, vertex, Gate, Outcome, returned, raised, operation_error, add, reserve, after_operation,
  after_reserve, run, provider_of,
}
use repchat.Budget.Behaviour.{IsGranted}
use repchat.Budget.Run.{Finished, run-Finished, run_accounts}
use repchat.BigQuery.DryRun.{Reply, Value}
use repchat.Spending.Pricing.{RuntimePricing, Priced, pricing_for}
use repchat.Spending.Ceilings.{
  Ceiling, ceiling_of, budget_error, other_error, GenerationConfig, context_tokens, output_tokens,
  token_cost, check_ceiling, vertex_text_reservation_jpy, with_pricing, is_text_request,
}
use repchat.Spending.Vertex.{
  micro_jpy, Response, UsageMetadata, tokens_of, observed_tokens, observed_cost_jpy, BudgetedVertex,
  settle_cost, settle_reply, hold_request, submit, request_ceiling, is_supported_scope,
  generate_content, total_agrees, required_count, optional_tokens,
}
use repchat.Spending.Bounds.{token_cost_mono, check_ceiling-fits, amount-micro_jpy}

-- The operation that the adapter reserves for: the client's response and its observed cost.
abbrev pub observe_cost : Response → Option ℕ → Outcome (Response × Object)
observe_cost x none = raised operation_error
observe_cost x (some c) = returned (x, micro_jpy c)

abbrev pub observe : RuntimePricing → Reply Response → Outcome (Response × Object)
observe r (Reply.raised e) = raised operation_error
observe r (Reply.answered x) = observe_cost x (observed_cost_jpy r x)

settle_cost-after_operation :
    (i : ℕ) (x : Response) (c : Option ℕ) (g : Gate)
    → settle_cost i x c g ≡ after_operation i (observe_cost x c) g
settle_cost-after_operation i x none g = refl
settle_cost-after_operation i x (some c) g = refl

settle_reply-after_operation :
    (i : ℕ) (r : RuntimePricing) (reply : Reply Response) (g : Gate)
    → settle_reply i r reply g ≡ after_operation i (observe r reply) g
settle_reply-after_operation i r (Reply.raised e) g = refl
settle_reply-after_operation i r (Reply.answered x) g =
    settle_cost-after_operation i x (observed_cost_jpy r x) g

hold_request-after_reserve :
    (r : RuntimePricing) (reply : Reply Response) (q : Outcome ℕ) (g : Gate)
    → hold_request r reply q g ≡ after_reserve (λ h. (observe r reply, h)) q g
hold_request-after_reserve r reply (raised e) g = refl
hold_request-after_reserve r reply (returned i) g = settle_reply-after_operation i r reply g

-- A request with a maximum is one operation that the gate runs.
submit-run :
    (r : RuntimePricing) (v : ℕ) (reply : Reply Response) (g : Gate)
    → submit reply (ceiling_of r v) g
      ≡ run "vertex" (micro_jpy v) (some (λ h. (observe r reply, h))) g
unfolding run
submit-run r v reply g =
    hold_request-after_reserve r reply (reserve "vertex" (micro_jpy v) g).0
      (reserve "vertex" (micro_jpy v) g).1

-- The request leaves the gate as it was, or finishes its operation.
abbrev pub Untouched : Gate → Outcome Response × Gate → Type 0
Untouched g (q, g') = (q ≡ raised operation_error) × (g' ≡ g)

submit-Finished :
    (c : Ceiling) (reply : Reply Response) (g : Gate)
    → Untouched g (submit reply c g) ⊎ Finished (submit reply c g)
submit-Finished budget_error reply g = inl (refl, refl)
submit-Finished other_error reply g = inl (refl, refl)
submit-Finished (ceiling_of r v) reply g = inr (
    rw (submit-run r v reply g)
      (run-Finished Response "vertex" (micro_jpy v) (some (λ h. (observe r reply, h))) g))

-- Whatever the request, the client and the gate, a generation either raises before it reserves and
-- leaves the gate as it was, or returns only with the gate idle and running and raises only with the
-- gate stopped.
pub generate_content-Finished :
    (w : BudgetedVertex) (model contents : Option String) (settings : Option GenerationConfig)
    (reply : Reply Response) (g : Gate)
    → Untouched g (generate_content w model contents settings reply g)
      ⊎ Finished (generate_content w model contents settings reply g)
unfolding generate_content
generate_content-Finished w model contents settings reply g =
    elim (Bool-cases (is_supported_scope w.client w.region)) [
      | inl e ↦ rw e (submit-Finished (request_ceiling w model contents settings) reply g)
      | inr e ↦ rw e (inl (refl, refl))
    ]

if_some :
    {A : Type 0} (b : Bool) (x y : A)
    → (if b then none else some x) ≡ some y
    → (b ≡ false) × (x ≡ y)
if_some true x y h = cc
if_some false x y h = (refl, some-injective h)
  where
    some-injective : {B : Type 0} {u v : B} → some u ≡ some v → u ≡ v
    some-injective e = cc

last_two-false : (a b c d : Bool) → (a || b || c || d) ≡ false → (c ≡ false) × (d ≡ false)
last_two-false true b c d h = cc
last_two-false false true c d h = cc
last_two-false false false true d h = cc
last_two-false false false false d h = (refl, h)

tokens_of-bounds :
    (a b c d : Option ℕ) (t : Option Value) (i o : ℕ)
    → tokens_of a b c d t ≡ some (i, o)
    → (i ≤ context_tokens) × (o ≤ output_tokens)
tokens_of-bounds (some a) (some b) (some c) (some d) t i o h =
    let (clear, same) =
      if_some
        (not (total_agrees t (a + b + c + d))
          || not (d == 0)
          || ltb context_tokens a
          || ltb output_tokens (b + c))
        (a, b + c) (i, o) h in
    let (k, l) =
      last_two-false (not (total_agrees t (a + b + c + d))) (not (d == 0)) (ltb context_tokens a)
        (ltb output_tokens (b + c)) clear in
    let p : a ≡ i = ap (λ x. x.0) same in
    let q : b + c ≡ o = ap (λ x. x.1) same in (rw (← p) (ground arith), rw (← q) (ground arith))
tokens_of-bounds (some a) (some b) (some c) none t i o h = cc
tokens_of-bounds (some a) (some b) none d t i o h = cc
tokens_of-bounds (some a) none c d t i o h = cc
tokens_of-bounds none b c d t i o h = cc

observed_tokens-bounds :
    (u : Option UsageMetadata) (i o : ℕ)
    → observed_tokens u ≡ some (i, o)
    → (i ≤ context_tokens) × (o ≤ output_tokens)
observed_tokens-bounds none i o h = cc
observed_tokens-bounds (some u) i o h =
    tokens_of-bounds (required_count u.prompt_token_count) (required_count u.candidates_token_count)
      (optional_tokens u.thoughts_token_count) (optional_tokens u.tool_use_prompt_token_count)
      u.total_token_count i o h

if_ceiling :
    (b : Bool) (x : Ceiling) (r : RuntimePricing) (v : ℕ)
    → (if b then x else budget_error) ≡ ceiling_of r v
    → x ≡ ceiling_of r v
if_ceiling true x r v h = h
if_ceiling false x r v h = cc

-- The maximum is the cost of the whole context and the whole output, and the gate can take it.
IsMaximum : RuntimePricing → ℕ → Type 0
IsMaximum r v = (token_cost r context_tokens output_tokens ≡ v) × (0 < v) × (v < 10 ^ 38)

with_pricing-IsMaximum :
    (p : Priced RuntimePricing) (b : Bool) (r : RuntimePricing) (v : ℕ)
    → with_pricing p (λ q.
      if b then check_ceiling q (token_cost q context_tokens output_tokens) else budget_error)
      ≡ ceiling_of r v
    → IsMaximum r v
unfolding IsMaximum
with_pricing-IsMaximum (Priced.priced q) b r v h =
    let (same, cost, p, f) = check_ceiling-fits q r _ v (if_ceiling b _ r v h) in
    (rw (← same) cost, p, f)
with_pricing-IsMaximum Priced.measurement_error b r v h = cc
with_pricing-IsMaximum Priced.value_error b r v h = cc

request_ceiling-IsMaximum :
    (w : BudgetedVertex) (model contents : Option String) (settings : Option GenerationConfig)
    (r : RuntimePricing) (v : ℕ)
    → request_ceiling w model contents settings ≡ ceiling_of r v
    → IsMaximum r v
unfolding request_ceiling vertex_text_reservation_jpy
request_ceiling-IsMaximum w model contents none r v h = cc
request_ceiling-IsMaximum w model contents (some c) r v h =
    with_pricing-IsMaximum
      (pricing_for w.library w.pricing_snapshot model w.region w.execution_date)
      (is_text_request model w.region contents c) r v h

some-injective : (u v : ℕ) → some u ≡ some v → u ≡ v
some-injective u v h = cc

vertex-injective : (p : Provider) → some vertex ≡ some p → vertex ≡ p
vertex-injective p h = cc

-- A supported request that the gate grants, and a response with token counts that the adapter takes:
-- the generation returns the response, exactly the cost of the counts is settled for Vertex, which
-- is never more than what was reserved, and the gate is idle and running with nothing unresolved.
pub generate_content-settles :
    (w : BudgetedVertex) (model contents : Option String) (settings : Option GenerationConfig)
    (x : Response) (g : Gate) (r : RuntimePricing) (v i o : ℕ)
    → is_supported_scope w.client w.region ≡ true
    → request_ceiling w model contents settings ≡ ceiling_of r v
    → IsGranted "vertex" (micro_jpy v) g
    → observed_tokens x.usage_metadata ≡ some (i, o)
    → let (q, g') = generate_content w model contents settings (Reply.answered x) g in
      (token_cost r i o ≤ v)
      × (q ≡ returned x)
      × (g'.stopped ≡ false)
      × (g'.active ≡ none)
      × (g'.settled_jpy ≡ add g.settled_jpy vertex (token_cost r i o))
      × (g'.unresolved_jpy ≡ g.unresolved_jpy)
unfolding generate_content observed_cost_jpy IsMaximum provider_of
generate_content-settles w model contents settings x g r v i o scope ceiling granted observed =
    let (cost, p, f) = request_ceiling-IsMaximum w model contents settings r v ceiling in
    let (few_in, few_out) = observed_tokens-bounds x.usage_metadata i o observed in
    let within : token_cost r i o ≤ v =
      rw (← cost) (token_cost_mono r i o context_tokens output_tokens few_in few_out) in
    let same : granted.maximum ≡ v =
      some-injective granted.maximum v
        (sym granted.accepted ∙ amount-micro_jpy true v (ground arith) f) in
    let provider : vertex ≡ granted.provider =
      vertex-injective granted.provider granted.supported in
    let done =
      run_accounts "vertex" (micro_jpy v) (micro_jpy (token_cost r i o)) g x (token_cost r i o)
        granted (amount-micro_jpy false (token_cost r i o) refl (omega (arith, f, within)))
        (rw same within) in
    let (q, running, idle, settled, kept) = rw (← provider) at done in
    rw scope (
      rw ceiling (
        rw (submit-run r v (Reply.answered x) g)
          (rw observed (within, q, running, idle, settled, kept))))
