-- ===== src/Spending/Queried.antt =====
-- The job that `BudgetedBigQuery.query` returns holds its reservation.
use mathlib.Core.Path.{subst}
use repchat.Prelude.{
  ℕ, ◌<◌, ◌^◌, ◌≡◌, ◌∙◌, refl, sym, inl, inr, Bool, true, false, not, ◌&&◌, Option, none, some,
  List, [], ◌∷◌, ◌++◌, arith, Bool-cases, length, get_elem?-append_last,
}
use repchat.Budget.Gate.{
  bigquery, Gate, Ledger, Outcome, returned, raised, operation_error, reserve, abandon, fail,
  ensure_idle, provider_of, stop_active,
}
use repchat.Budget.Gate.Keeps.{Outcome-cases}
use repchat.Budget.Behaviour.{IsGranted, fresh, reserve_exact, reserve_granted}
use repchat.BigQuery.DryRun.{Reply}
use repchat.Spending.Pricing.{RuntimePricing, Priced, pricing_for}
use repchat.Spending.Ceilings.{
  Ceiling, ceiling_of, budget_error, other_error, QueryConfig, byte_cost, byte_cap, bytes_ceiling,
  with_pricing, count_or_zero, is_dry_run, bigquery_query_reservation_jpy, is_false, value_within,
  max_int64,
}
use repchat.Spending.Vertex.{micro_jpy}
use repchat.Spending.Bounds.{check_ceiling-fits, amount-micro_jpy}
use repchat.Spending.QueryJob.{
  BudgetedQueryJob, BudgetedBigQuery, Queried, budgeted, open_job, query_reply, send_query,
  dry_reply, idle_query, query,
}
use repchat.Spending.JobPhases.{IsHeld, Use, use_jobs, IsInPhase, use_jobs-IsInPhase}

-- The maximum covers the bytes of the config, and the gate can take it.
IsByteMaximum : RuntimePricing → QueryConfig → ℕ → Type 0
IsByteMaximum r c v =
    (byte_cost r.bigquery (count_or_zero c.maximum_bytes_billed) ≡ v) × (0 < v) × (v < 10 ^ 38)

byte_cap-count :
    (c : QueryConfig) (n : ℕ) → byte_cap c ≡ some n → count_or_zero c.maximum_bytes_billed ≡ n
byte_cap-count c n h =
    elim (Bool-cases (
      is_false c.dry_run
      && value_within 1 max_int64 (some c.maximum_bytes_billed)
      && not c.has_destination
      && not c.has_connection_properties)) [
        | inl e ↦ let h' = rw e at h in rw h' refl
        | inr e ↦ absurd (let h' = rw e at h in cc)
      ]

bytes_ceiling-IsByteMaximum :
    (q r : RuntimePricing) (c : QueryConfig) (n : Option ℕ) (v : ℕ)
    → byte_cap c ≡ n
    → bytes_ceiling q n ≡ ceiling_of r v
    → IsByteMaximum r c v
unfolding IsByteMaximum
bytes_ceiling-IsByteMaximum q r c none v k h = cc
bytes_ceiling-IsByteMaximum q r c (some n) v k h =
    let (same, cost, p, f) = check_ceiling-fits q r (byte_cost q.bigquery n) v h in
    (rw (byte_cap-count c n k) (rw (← same) cost), p, f)

with_pricing-IsByteMaximum :
    (p : Priced RuntimePricing) (r : RuntimePricing) (c : QueryConfig) (v : ℕ)
    → with_pricing p (λ q. bytes_ceiling q (byte_cap c)) ≡ ceiling_of r v
    → IsByteMaximum r c v
with_pricing-IsByteMaximum (Priced.priced q) r c v h =
    bytes_ceiling-IsByteMaximum q r c (byte_cap c) v refl h
with_pricing-IsByteMaximum Priced.measurement_error r c v h = cc
with_pricing-IsByteMaximum Priced.value_error r c v h = cc

reservation-IsByteMaximum :
    (w : BudgetedBigQuery) (r : RuntimePricing) (c : QueryConfig) (v : ℕ)
    → bigquery_query_reservation_jpy w.library w.pricing_snapshot w.model w.region w.execution_date
        c
      ≡ ceiling_of r v
    → IsByteMaximum r c v
unfolding bigquery_query_reservation_jpy
reservation-IsByteMaximum w r c v h =
    with_pricing-IsByteMaximum
      (pricing_for w.library w.pricing_snapshot w.model w.region w.execution_date) r c v h

-- The maximum that `query` reserves for a config.
abbrev pub Reserves : BudgetedBigQuery → QueryConfig → ℕ → Type 0
Reserves w c v =
    (r : RuntimePricing) × (bigquery_query_reservation_jpy w.library w.pricing_snapshot w.model
        w.region w.execution_date c
      ≡ ceiling_of r v)

-- The job of a query, and the reservation that it holds.
HoldsFrom : (ℕ → Type 0) → Ledger → BudgetedQueryJob → Gate → Type 0
HoldsFrom Maximum before j g = (v : ℕ) × (Maximum v) × IsHeld before v j g

budgeted-injective :
    (i j : BudgetedQueryJob)
    → ◌≡◌ {A = Outcome Queried} (returned (budgeted i)) (returned (budgeted j))
    → i ≡ j
budgeted-injective i j h = cc

some-injective : {A : Type 0} (u v : A) → some u ≡ some v → u ≡ v
some-injective u v h = cc

-- A granted request makes a job that holds it.
granted-IsHeld :
    (r : RuntimePricing) (c : QueryConfig) (v : ℕ) (g : Gate)
    → IsByteMaximum r c v
    → (granted : IsGranted "bigquery" (micro_jpy v) g)
    → IsHeld g.settled_jpy v (open_job (length g.reservations) r c) (record g {
      active = some (length g.reservations);
      reservations = g.reservations ++ fresh granted ∷ [];
    })
unfolding IsByteMaximum provider_of
granted-IsHeld r c v g (cost, p, f) granted = record {
  open_ = refl;
  unsettled = refl;
  running = granted.running;
  active = refl;
  object = fresh granted;
  found = get_elem?-append_last g.reservations (fresh granted);
  provider = sym (some-injective bigquery granted.provider granted.supported);
  maximum =
      some-injective granted.maximum v
        (sym granted.accepted ∙ amount-micro_jpy true v (ground arith) f);
  fresh = refl;
  covers = rw cost (omega arith);
  fits = f;
  settled_jpy = refl;
}

-- What is left to show of an answer of `query`.
Holds : (ℕ → Type 0) → Ledger → Outcome Queried × Gate → Type 0
Holds Maximum before (q, g) =
    (j : BudgetedQueryJob) → q ≡ returned (budgeted j) → HoldsFrom Maximum before j g

abandon-Holds :
    (M : ℕ → Type 0) (before : Ledger) (i : ℕ) (g : Gate)
    → Holds M before (abandon i operation_error g)
unfolding Holds abandon
abandon-Holds M before i g j h = elim (Outcome-cases (fail i g).0) [
  | inl (u, e) ↦ absurd (let h' = rw e at h in cc)
  | inr (x, e) ↦ absurd (let h' = rw e at h in cc)
]

query_reply-Holds :
    (M : ℕ → Type 0) (r : RuntimePricing) (c : QueryConfig) (v i : ℕ) (before : Ledger) (g : Gate)
    (reply : Reply (Unit {0}))
    → M v
    → IsHeld before v (open_job i r c) g
    → Holds M before (query_reply i r c reply g)
unfolding Holds HoldsFrom
query_reply-Holds M r c v i before g (Reply.raised e) k held j h = abandon-Holds M before i g j h
query_reply-Holds M r c v i before g (Reply.answered u) k held j h =
    (v, k, subst (λ b. IsHeld before v b g) (budgeted-injective (open_job i r c) j h) held)

hold_query-Holds :
    (M : ℕ → Type 0) (r : RuntimePricing) (c : QueryConfig) (v : ℕ) (g : Gate)
    (reply : Reply (Unit {0}))
    → M v
    → IsByteMaximum r c v
    → Holds M g.settled_jpy (send_query c reply (ceiling_of r v) g)
unfolding Holds
hold_query-Holds M r c v g reply k m = elim (Outcome-cases (reserve "bigquery" (micro_jpy v) g).0) [
  | inl (i, e) ↦
      let granted = (reserve_exact "bigquery" (micro_jpy v) g).1 (i, e) in
      rw (reserve_granted "bigquery" (micro_jpy v) g granted) (
        query_reply-Holds M r c v (length g.reservations) g.settled_jpy _ reply k
          (granted-IsHeld r c v g m granted))
  | inr (x, e) ↦ rw e (λ j h. absurd cc)
]

send_query-Holds :
    (w : BudgetedBigQuery) (c : QueryConfig) (g : Gate) (reply : Reply (Unit {0})) (k : Ceiling)
    → bigquery_query_reservation_jpy w.library w.pricing_snapshot w.model w.region w.execution_date
        c
      ≡ k
    → Holds (Reserves w c) g.settled_jpy (send_query c reply k g)
unfolding Holds
send_query-Holds w c g reply budget_error e = λ j h. absurd cc
send_query-Holds w c g reply other_error e = λ j h. absurd cc
send_query-Holds w c g reply (ceiling_of r v) e =
    hold_query-Holds (Reserves w c) r c v g reply (r, e) (reservation-IsByteMaximum w r c v e)

dry_reply-Holds :
    (M : ℕ → Type 0) (before : Ledger) (reply : Reply (Unit {0})) (g : Gate)
    → Holds M before (dry_reply reply g)
unfolding Holds
dry_reply-Holds M before (Reply.answered u) g j h = cc
dry_reply-Holds M before (Reply.raised e) g j h = cc

idle_query-Holds :
    (w : BudgetedBigQuery) (d : Bool) (c : QueryConfig) (reply : Reply (Unit {0}))
    (q : Outcome (Unit {0})) (g : Gate)
    → Holds (Reserves w c) g.settled_jpy (idle_query w d c reply q g)
unfolding Holds
idle_query-Holds w d c reply (raised e) g = λ j h. absurd cc
idle_query-Holds w true c reply (returned u) g = λ j h. absurd cc
idle_query-Holds w false c reply (returned u) g = elim (Bool-cases (is_dry_run c)) [
  | inl e ↦ rw e (dry_reply-Holds (Reserves w c) g.settled_jpy reply g)
  | inr e ↦ rw e (send_query-Holds w c g reply _ refl)
]

ensure_idle-settled : (g : Gate) → (ensure_idle g).1.settled_jpy ≡ g.settled_jpy
unfolding ensure_idle stop_active
ensure_idle-settled g = ground arith

-- Where `query` returns a budgeted job, then whatever sequence of calls the caller makes on it, and
-- whatever the client answers, the job is in one of three phases by the amount that was reserved for
-- the config: it is open and holds that amount with nothing settled; it is closed and settled, at
-- most that amount was settled for BigQuery, once, and the gate is idle and running; or it is closed
-- and not settled, nothing was settled, and the gate is stopped.
pub query-IsInPhase :
    (w : BudgetedBigQuery) (has_default : Bool) (c : QueryConfig) (reply : Reply (Unit {0}))
    (g : Gate) (j : BudgetedQueryJob) (us : List Use)
    → (query w has_default c reply g).0 ≡ returned (budgeted j)
    → (v : ℕ) × (Reserves w c v)
      × IsInPhase g.settled_jpy v (use_jobs us (j, (query w has_default c reply g).1))
unfolding query Holds HoldsFrom
query-IsInPhase w d c reply g j us h =
    let (v, maximum, held) = idle_query-Holds w d c reply (ensure_idle g).0 (ensure_idle g).1 j h in
    let same = rw (ensure_idle-settled g) at held in
    (v, maximum, use_jobs-IsInPhase g.settled_jpy v us j _ same)
