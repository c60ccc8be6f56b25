-- ===== src/Spending/QueryJob.antt =====
-- bigquery_budget_adapter.py: one query job in a reservation of the budget gate. A `BudgetError` of
-- the adapter and an exception of the client are the gate's `operation_error`.
use repchat.Prelude.{ℕ, String, Bool, true, false, Option, none, some, leb, if◌then◌else◌}
use repchat.Budget.Amount.{Object}
use repchat.Budget.Gate.{
  Gate, Outcome, returned, raised, Action, operation_error, reserve, settle, fail, abandon,
  ensure_idle,
}
use repchat.BigQuery.DryRun.{Value, count_of, Reply}
use repchat.Spending.Pricing.{Library, PricingSnapshot, RuntimePricing}
use repchat.Spending.Ceilings.{
  Ceiling, ceiling_of, budget_error, other_error, QueryConfig, byte_cost,
  bigquery_query_reservation_jpy, count_or_zero, is_dry_run,
}
use repchat.Spending.Vertex.{micro_jpy}

-- `_BudgetedQueryJob`, apart from the job and the gate; the rate is the snapshot's.
pub record BudgetedQueryJob : Type 0 where
  pub reservation : ℕ
  pub maximum_bytes_billed : ℕ
  pub rate : Object
  pub closed : Bool
  pub settled : Bool

-- A result of the client, with `total_bytes_billed` after it.
pub record QueryResult : Type 0 where
  pub total_bytes_billed : Value

-- A method that may change the job and the gate.
abbrev pub JobAction : Type 0 → Type 0
JobAction A = BudgetedQueryJob → Gate → Outcome A × (BudgetedQueryJob × Gate)

abbrev pub close : BudgetedQueryJob → BudgetedQueryJob
close j = record j { closed = true }

module _ {A : Type 0} where
  -- `self._reservation.fail()` in a handler, and the exception goes on.
  abbrev pub give_up_job : BudgetedQueryJob → Gate → Outcome A × (BudgetedQueryJob × Gate)
  give_up_job j g = let (q, g') = abandon {A = A} j.reservation operation_error g in (q, (j, g'))

-- `done()`, with the answer of the job.
abbrev pub done_reply : Reply Bool → JobAction Bool
done_reply (Reply.answered b) j g = (returned b, (j, g))
done_reply (Reply.raised e) j g = give_up_job (close j) g

unfoldable pub job_done : Reply Bool → JobAction Bool
job_done reply j g = if j.closed then (raised operation_error, (j, g)) else done_reply reply j g

-- The `finally` block of `cancel()`.
abbrev pub after_fail : Outcome (Unit {0}) → Reply (Unit {0}) → Outcome (Unit {0})
after_fail (raised e) reply = raised e
after_fail (returned u) (Reply.answered v) = returned tt
after_fail (returned u) (Reply.raised e) = raised operation_error

unfoldable pub job_cancel : Reply (Unit {0}) → JobAction (Unit {0})
job_cancel reply j g =
    if j.closed
    then (raised operation_error, (j, g))
    else let (f, g') = fail j.reservation g in (after_fail f reply, (close j, g'))

-- The cost of the billed bytes, where they are a count within the maximum.
abbrev pub billed_cost : BudgetedQueryJob → Option ℕ → Option ℕ
billed_cost j none = none
billed_cost j (some n) = if leb n j.maximum_bytes_billed then some (byte_cost j.rate n) else none

abbrev pub after_payment : QueryResult → Outcome (Unit {0}) → JobAction QueryResult
after_payment x (returned u) j g = (returned x, (record j { settled = true }, g))
after_payment x (raised e) j g =
    let (q, g') = abandon {A = QueryResult} j.reservation e g in (q, (j, g'))

abbrev pub pay : QueryResult → Option ℕ → JobAction QueryResult
pay x none j g = give_up_job j g
pay x (some c) j g = let (s, g') = settle j.reservation (micro_jpy c) g in after_payment x s j g'

abbrev pub result_reply : Reply QueryResult → JobAction QueryResult
result_reply (Reply.raised e) j g = give_up_job j g
result_reply (Reply.answered x) j g = pay x (billed_cost j (count_of x.total_bytes_billed)) j g

-- `result(**kwargs)`, with whether the options are supported and the answer of the job.
unfoldable pub job_result : Bool → Reply QueryResult → JobAction QueryResult
job_result supported reply j g =
    if j.closed
    then (raised operation_error, (j, g))
    else if supported
    then result_reply reply (close j) g
    else give_up_job (close j) g

-- `total_bytes_processed`
unfoldable pub job_bytes_processed : Value → BudgetedQueryJob → Outcome Value
job_bytes_processed v j = if j.settled then returned v else raised operation_error

-- `BudgetedBigQuery`, apart from the client and the gate; whether the client has a default query
-- configuration is read in each query.
pub record BudgetedBigQuery : Type 0 where
  pub library : Library
  pub pricing_snapshot : PricingSnapshot
  pub model : Option String
  pub region : Option String
  pub execution_date : Option ℕ

-- What `query` returns: the job of a dry run as it is, or a job in a reservation.
pub data Queried : Type 0 where
  dry_job : Queried
  budgeted : BudgetedQueryJob → Queried

abbrev pub open_job : ℕ → RuntimePricing → QueryConfig → BudgetedQueryJob
open_job i r c = record {
  reservation = i;
  maximum_bytes_billed = count_or_zero c.maximum_bytes_billed;
  rate = r.bigquery;
  closed = false;
  settled = false;
}

abbrev pub query_reply : ℕ → RuntimePricing → QueryConfig → Reply (Unit {0}) → Action Queried
query_reply i r c (Reply.raised e) g = abandon i operation_error g
query_reply i r c (Reply.answered u) g = (returned (budgeted (open_job i r c)), g)

abbrev pub hold_query : RuntimePricing → QueryConfig → Reply (Unit {0}) → Outcome ℕ → Action Queried
hold_query r c reply (raised e) g = (raised e, g)
hold_query r c reply (returned i) g = query_reply i r c reply g

abbrev pub send_query : QueryConfig → Reply (Unit {0}) → Ceiling → Action Queried
send_query c reply budget_error g = (raised operation_error, g)
send_query c reply other_error g = (raised operation_error, g)
send_query c reply (ceiling_of r v) g =
    let (q, g') = reserve "bigquery" (micro_jpy v) g in hold_query r c reply q g'

abbrev pub dry_reply : Reply (Unit {0}) → Action Queried
dry_reply (Reply.raised e) g = (raised operation_error, g)
dry_reply (Reply.answered u) g = (returned dry_job, g)

abbrev pub idle_query :
    BudgetedBigQuery → Bool → QueryConfig → Reply (Unit {0}) → Outcome (Unit {0}) → Action Queried
idle_query w has_default c reply (raised e) g = (raised e, g)
idle_query w has_default c reply (returned u) g =
    if has_default
    then (raised operation_error, g)
    else if is_dry_run c
    then dry_reply reply g
    else send_query c reply
        (bigquery_query_reservation_jpy w.library w.pricing_snapshot w.model w.region
          w.execution_date c)
        g

-- `query(sql, job_config)`, with the answer of the client.
unfoldable pub query : BudgetedBigQuery → Bool → QueryConfig → Reply (Unit {0}) → Action Queried
query w has_default c reply g = let (q, g') = ensure_idle g in idle_query w has_default c reply q g'

module _ {A : Type 0} where
  abbrev pub idle_read : Reply A → Outcome (Unit {0}) → Action A
  idle_read reply (raised e) g = (raised e, g)
  idle_read (Reply.answered a) (returned u) g = (returned a, g)
  idle_read (Reply.raised e) (returned u) g = (raised operation_error, g)

  -- `list_tables` and `get_table`, with the answer of the client.
  unfoldable pub read_tables : Reply A → Action A
  read_tables reply g = let (q, g') = ensure_idle g in idle_read reply q g'
