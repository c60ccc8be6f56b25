-- ===== src/Budget/Tests.antt =====
-- Runs of the budget gate on small amounts, and the theorems at them.
use repchat.Prelude.{
  ℕ, ◌+◌, ◌≤◌, ◌<◌, ◌≡◌, ◌↔◌, ◌^◌, refl, true, false, none, some, List, [], ◌∷◌, arith,
}
use repchat.Budget.Amount.{Object, finite, pos, negsuc, amount, Limits, make_limits}
use repchat.Budget.Amount.Bounds.{amount_bound}
use repchat.Budget.Gate.{
  Provider, vertex, opened, Reservation, Gate, zeros, new_gate, at, add, total, limit, returned,
  raised, would_exceed, gate_stopped, operation_error, reserve, settle, run, Action, provider_of,
}
use repchat.Budget.Gate.Sound.{IsSound-new_gate}
use repchat.Budget.Trace.{
  Call, call_reserve, call_settle, call_fail, call_ensure_idle, step, steps, exposure,
  total_exposure, exposure_within_limits, sums_fit_precision, stopped_for_good, steps-IsSound,
}
use repchat.Budget.Behaviour.{IsGranted, reserve_refused, settle_active, Settled, reserve_exact}
use repchat.Budget.Overlap.{RaisedWith, run_overlap}
use repchat.Budget.Run.{Finished, run-Finished, run_accounts, run_failure}

-- 2, 1.50 and 0.000001 as `Decimal`s.
abbrev two : Object
two = finite false 2 (pos 0)

abbrev one_and_half : Object
one_and_half = finite false 150 (negsuc 1)

abbrev smallest : Object
smallest = finite false 1 (negsuc 5)

abbrev limits : Limits
limits = record { vertex_jpy = 2000000; bigquery_jpy = 1500000; total_jpy = 2000000 }

limits_made : make_limits two one_and_half two ≡ some limits
unfolding make_limits amount
limits_made = refl

smallest_accepted : amount true smallest ≡ some 1
unfolding amount
smallest_accepted = refl

smallest_costs : amount false smallest ≡ some 1
unfolding amount
smallest_costs = refl

-- The first request is paid in part, the second is held, and the third stops the gate.
abbrev calls : List Call
calls =
    call_reserve "vertex" two
    ∷ call_settle 0 smallest
    ∷ call_reserve "bigquery" smallest
    ∷ call_reserve "vertex" smallest
    ∷ []

calls_stop : (steps calls (new_gate limits)).stopped ≡ true
unfolding steps step reserve settle new_gate amount provider_of
calls_stop = refl

calls_settle :
    (steps calls (new_gate limits)).settled_jpy ≡ record { vertex_jpy = 1; bigquery_jpy = 0 }
unfolding steps step reserve settle new_gate amount provider_of
calls_settle = refl

exposure_within_limits_example :
    ((p : Provider) → exposure p (steps calls (new_gate limits)) ≤ limit limits p)
    × (total_exposure (steps calls (new_gate limits)) ≤ 2000000)
exposure_within_limits_example =
    exposure_within_limits two one_and_half two limits calls limits_made

sums_fit_precision_example :
    let g = steps calls (new_gate limits) in
    ((p : Provider) → at g.settled_jpy p + 1 < 10 ^ 48)
    × ((p : Provider) → at g.unresolved_jpy p + 1 < 10 ^ 48)
    × (total g.settled_jpy + 1 < 10 ^ 48)
    × (limits.vertex_jpy + limits.bigquery_jpy < 10 ^ 48)
sums_fit_precision_example =
    sums_fit_precision two one_and_half two smallest limits true 1 calls limits_made
      smallest_accepted

stopped_for_good_example :
    let g = steps calls (new_gate limits) in
    let g' = steps (call_ensure_idle ∷ call_fail 1 ∷ []) g in
    (g'.stopped ≡ true)
    × (g'.active ≡ none)
    × (g'.settled_jpy ≡ g.settled_jpy)
    × (g'.unresolved_jpy ≡ g.unresolved_jpy)
    × (reserve "vertex" smallest g' ≡ (raised gate_stopped, g'))
stopped_for_good_example =
    stopped_for_good (call_ensure_idle ∷ call_fail 1 ∷ []) (steps calls (new_gate limits)) "vertex"
      smallest (steps-IsSound calls (new_gate limits) (IsSound-new_gate limits)) calls_stop

reserve_exact_example :
    IsGranted "vertex" smallest (new_gate limits)
    ↔ ((i : ℕ) × ((reserve "vertex" smallest (new_gate limits)).0 ≡ returned i))
reserve_exact_example = reserve_exact "vertex" smallest (new_gate limits)

too_much : (reserve "bigquery" two (new_gate limits)).0 ≡ raised would_exceed
unfolding reserve new_gate amount provider_of
too_much = refl

reserve_refused_example : (reserve "bigquery" two (new_gate limits)).1.stopped ≡ true
reserve_refused_example = reserve_refused "bigquery" two (new_gate limits) would_exceed too_much

-- A gate with one open request of 1.50 JPY.
abbrev request : Reservation
request = record { provider = vertex; maximum_jpy = 1500000; state = opened }

abbrev busy_gate : Gate
busy_gate = record {
  limits = limits;
  settled_jpy = zeros;
  unresolved_jpy = zeros;
  stopped = false;
  active = some 0;
  reservations = request ∷ [];
}

settle_active_example : Settled busy_gate 0 request (amount false two) (settle 0 two busy_gate)
settle_active_example = settle_active 0 two busy_gate request refl refl refl refl

-- An operation that costs 0.000001 JPY, and one that raises.
abbrev operation : Action (ℕ × Object)
operation g = (returned (7, smallest), g)

run-Finished_example : Finished (run "vertex" two (some operation) (new_gate limits))
run-Finished_example = run-Finished ℕ "vertex" two (some operation) (new_gate limits)

granted : IsGranted "vertex" two (new_gate limits)
unfolding new_gate amount provider_of
granted = record {
  provider = vertex;
  maximum = 2000000;
  supported = refl;
  accepted = refl;
  running = refl;
  idle = refl;
  fits = omega arith;
  fits_total = omega arith;
}

run_accounts_example :
    let (q, g') =
      run {A = ℕ} "vertex" two (some (λ h. (returned (7, smallest), h))) (new_gate limits) in
    (q ≡ returned 7)
    × (g'.stopped ≡ false)
    × (g'.active ≡ none)
    × (g'.settled_jpy ≡ add (new_gate limits).settled_jpy granted.provider 1)
    × (g'.unresolved_jpy ≡ (new_gate limits).unresolved_jpy)
unfolding granted
run_accounts_example =
    run_accounts "vertex" two smallest (new_gate limits) 7 1 granted smallest_costs (omega arith)

-- An operation that asks for a second reservation, swallows the refusal and returns.
run_overlap_example :
    RaisedWith {A = ℕ}
      (new_gate limits).settled_jpy
      (add (new_gate limits).unresolved_jpy granted.provider granted.maximum)
      (run "vertex" two
        (some (λ h. (returned (7, smallest), (reserve "bigquery" smallest h).1)))
        (new_gate limits))
run_overlap_example =
    run_overlap "vertex" two (new_gate limits) "bigquery" smallest (returned (7, smallest)) granted

run_failure_example :
    let (q, g') =
      run {A = ℕ} "vertex" two (some (λ h. (raised operation_error, h))) (new_gate limits) in
    (q ≡ raised operation_error)
    × (g'.stopped ≡ true)
    × (g'.active ≡ none)
    × (g'.settled_jpy ≡ (new_gate limits).settled_jpy)
    × (g'.unresolved_jpy ≡ add (new_gate limits).unresolved_jpy granted.provider granted.maximum)
run_failure_example = run_failure "vertex" two (new_gate limits) operation_error granted

amount_bound_example : 1 < 10 ^ 38
amount_bound_example = amount_bound true smallest smallest_accepted
