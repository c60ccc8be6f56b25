-- ===== src/Spending/Tests.antt =====
-- A generation and a query on one gate, and the theorems at them.
use repchat.Prelude.{ℕ, ◌≤◌, ◌≡◌, refl, ◌⊎◌, true, false, none, some, List, [], ◌∷◌, arith}
use repchat.Text.{is_blank, is_space}
use repchat.Budget.Amount.{finite, negsuc, amount, Limits, digit_count, adjusted_too_large, micro}
use repchat.Budget.Gate.{vertex, returned, new_gate, reserve, ensure_idle, add, provider_of}
use repchat.Budget.Behaviour.{IsGranted}
use repchat.Budget.Run.{Finished}
use repchat.BigQuery.DryRun.{integer, Reply}
use repchat.Spending.Pricing.{
  Library, PricingSnapshot, RuntimePricing, value_error, positive_float, conversion_error,
  pricing_for,
}
use repchat.Spending.Ceilings.{
  GenerationConfig, QueryConfig, ceiling_of, token_cost, byte_cost, check_ceiling,
  vertex_text_reservation_jpy, bigquery_query_reservation_jpy,
}
use repchat.Spending.Vertex.{
  micro_jpy, Response, BudgetedVertex, is_supported_scope, request_ceiling, observed_cost_jpy,
  generate_content,
}
use repchat.Spending.Settled.{Untouched, generate_content-settles, generate_content-Finished}
use repchat.Spending.QueryJob.{BudgetedBigQuery, BudgetedQueryJob, budgeted, query}
use repchat.Spending.JobPhases.{Use, use_done, use_result, use_jobs, IsInPhase}
use repchat.Spending.Queried.{Reserves, query-IsInPhase}

abbrev library : Library
library = record {
  urlsplit = λ s. some (record {
    scheme = "https";
    hostname = some "cloud.google.com";
    username = none;
    password = none;
    geturl = s;
  });
  decimal = λ s. some (finite false 1 (negsuc 2));
  to_float = λ v. positive_float;
}

abbrev snapshot : PricingSnapshot
snapshot = record {
  captured_at = some 739000;
  source_url = some "https://cloud.google.com/pricing";
  currency = some "JPY";
  model = some "gemini-3.6-flash";
  region = some "global";
  vertex_tier = some "standard-text";
  bigquery_billing = some "on-demand";
  vertex_input_jpy_per_million = some "0.001";
  vertex_output_jpy_per_million = some "0.001";
  bigquery_jpy_per_tib = some "0.001";
}

abbrev rates : RuntimePricing
rates = record {
  vertex_input = finite false 1 (negsuc 2);
  vertex_output = finite false 1 (negsuc 2);
  bigquery = finite false 1 (negsuc 2);
}

abbrev limits : Limits
limits = record { vertex_jpy = 2000; bigquery_jpy = 1500; total_jpy = 2000 }

abbrev vertex_client : BudgetedVertex
vertex_client = record {
  library = library;
  client = record {
    vertexai = true;
    location = some "global";
    project = some "p-1";
    has_api_key = false;
    has_custom_base_url = false;
    has_options = true;
    has_extra_body = false;
    has_base_url_resource_scope = false;
  };
  pricing_snapshot = snapshot;
  region = some "global";
  execution_date = some 739001;
}

abbrev config : GenerationConfig
config = record {
  keys = "system_instruction" ∷ "max_output_tokens" ∷ [];
  max_output_tokens = some (integer 100);
  candidate_count = none;
  system_instruction = some "Answer.";
  response_mime_type = some "application/json";
  response_schema_nonempty = some true;
}

abbrev response : Response
response = record {
  usage_metadata = some (record {
    prompt_token_count = some (integer 5000);
    candidates_token_count = some (integer 20);
    thoughts_token_count = some (integer 30);
    tool_use_prompt_token_count = none;
    total_token_count = some (integer 5050);
  });
}

-- 1,114,112 tokens at 0.001 micro-JPY each.
request_maximum :
    request_ceiling vertex_client (some "gemini-3.6-flash") (some "How much?") (some config)
    ≡ ceiling_of rates 1115
unfolding request_ceiling vertex_text_reservation_jpy pricing_for check_ceiling token_cost
    adjusted_too_large digit_count is_blank is_space
request_maximum = refl

scope_supported : is_supported_scope vertex_client.client vertex_client.region ≡ true
unfolding is_supported_scope is_blank is_space
scope_supported = refl

request_granted : IsGranted "vertex" (micro_jpy 1115) (new_gate limits)
unfolding new_gate amount provider_of adjusted_too_large digit_count micro
request_granted = record {
  provider = vertex;
  maximum = 1115;
  supported = refl;
  accepted = refl;
  running = refl;
  idle = refl;
  fits = omega arith;
  fits_total = omega arith;
}

generate_content-settles_example :
    let (q, g') =
      generate_content vertex_client
        (some "gemini-3.6-flash")
        (some "How much?")
        (some config)
        (Reply.answered response)
        (new_gate limits) in
    (token_cost rates 5000 50 ≤ 1115)
    × (q ≡ returned response)
    × (g'.stopped ≡ false)
    × (g'.active ≡ none)
    × (g'.settled_jpy ≡ add (new_gate limits).settled_jpy vertex (token_cost rates 5000 50))
    × (g'.unresolved_jpy ≡ (new_gate limits).unresolved_jpy)
generate_content-settles_example =
    generate_content-settles vertex_client (some "gemini-3.6-flash") (some "How much?")
      (some config) response (new_gate limits) rates 1115 5000 50 scope_supported request_maximum
      request_granted refl

generate_content-Finished_example :
    Untouched (new_gate limits) (
      generate_content vertex_client
        (some "gemini-3.6-flash")
        (some "How much?")
        (some config)
        (Reply.answered response)
        (new_gate limits))
    ⊎ Finished (
        generate_content vertex_client
          (some "gemini-3.6-flash")
          (some "How much?")
          (some config)
          (Reply.answered response)
          (new_gate limits))
generate_content-Finished_example =
    generate_content-Finished vertex_client (some "gemini-3.6-flash") (some "How much?")
      (some config) (Reply.answered response) (new_gate limits)

-- 5,050 tokens cost 5.05 micro-JPY, which are settled as 6.
five_thousand_tokens : observed_cost_jpy rates response ≡ some 6
unfolding observed_cost_jpy token_cost
five_thousand_tokens = refl

abbrev bigquery_client : BudgetedBigQuery
bigquery_client = record {
  library = library;
  pricing_snapshot = snapshot;
  model = some "gemini-3.6-flash";
  region = some "global";
  execution_date = some 739001;
}

abbrev query_config : QueryConfig
query_config = record {
  dry_run = some false;
  maximum_bytes_billed = integer 1099511627776;
  has_destination = false;
  has_connection_properties = false;
}

abbrev query_job : BudgetedQueryJob
query_job = record {
  reservation = 0;
  maximum_bytes_billed = 1099511627776;
  rate = finite false 1 (negsuc 2);
  closed = false;
  settled = false;
}

query_returns :
    (query bigquery_client false query_config (Reply.answered tt) (new_gate limits)).0
    ≡ returned (budgeted query_job)
unfolding query ensure_idle new_gate reserve amount provider_of adjusted_too_large digit_count micro
    bigquery_query_reservation_jpy pricing_for check_ceiling byte_cost is_blank is_space
query_returns = refl

-- The caller waits for the job, reads its result, and reads it again.
abbrev uses : List Use
uses =
    use_done (Reply.answered true)
    ∷ use_result true (Reply.answered (record { total_bytes_billed = integer 10485760 }))
    ∷ use_result true (Reply.answered (record { total_bytes_billed = integer 10485760 }))
    ∷ []

query-IsInPhase_example :
    (v : ℕ) × (Reserves bigquery_client query_config v)
    × IsInPhase (new_gate limits).settled_jpy v (
        use_jobs uses (
          query_job,
          (query bigquery_client false query_config (Reply.answered tt) (new_gate limits)).1,
        ))
query-IsInPhase_example =
    query-IsInPhase bigquery_client false query_config (Reply.answered tt) (new_gate limits)
      query_job uses query_returns

-- A rate that `float` does not convert, such as a signaling NaN, is a `ValueError` of its own.
conversion_raises :
    pricing_for
      (record library { to_float = λ v. conversion_error })
      snapshot
      (some "gemini-3.6-flash")
      (some "global")
      (some 739001)
    ≡ value_error
unfolding pricing_for is_blank is_space
conversion_raises = refl
