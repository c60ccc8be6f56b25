-- ===== src/Budget/Trace.antt =====
-- Sequences of calls on one budget gate. Each method holds the gate's lock, so any interleaving of
-- callers is a sequence of calls. Each result of a call is dropped: callers may do anything next.
use repchat.Prelude.{
  ℕ, ◌+◌, ◌≤◌, ◌<◌, ◌^◌, String, ◌≡◌, refl, Bool, true, none, some, List, [], ◌∷◌, arith, sum_by,
}
use repchat.Budget.Amount.{Object, Limits, amount, make_limits}
use repchat.Budget.Amount.Bounds.{make_limits_bounds, amount_bound}
use repchat.Budget.Gate.{
  Provider, vertex, bigquery, Gate, raised, at, total, limit, new_gate, reserve, settle, fail,
  ensure_idle, gate_stopped,
}
use mathlib.Core.Path.{subst, ◌∙◌}
use repchat.Budget.Gate.Evolves.{
  Evolves, Evolves-reserve, Evolves-settle, Evolves-fail, Evolves-ensure_idle,
}
use repchat.Budget.Gate.Sound.{IsSound, IsSound-new_gate, opened_for, opened_jpy}
use repchat.Budget.Gate.Keeps.{reserve-IsSound, settle-IsSound, fail-IsSound, ensure_idle-IsSound}

-- One call of a method, by any caller.
pub data Call : Type 0 where
  call_reserve : String → Object → Call
  call_settle : ℕ → Object → Call
  call_fail : ℕ → Call
  call_ensure_idle : Call

unfoldable pub step : Call → Gate → Gate
step (call_reserve p o) g = (reserve p o g).1
step (call_settle i o) g = (settle i o g).1
step (call_fail i) g = (fail i g).1
step call_ensure_idle g = (ensure_idle g).1

unfoldable pub steps : List Call → Gate → Gate
steps [] g = g
steps (c ∷ cs) g = steps cs (step c g)

pub step-IsSound : (c : Call) (g : Gate) → IsSound g → IsSound (step c g)
unfolding step
step-IsSound (call_reserve p o) g h = reserve-IsSound p o g h
step-IsSound (call_settle i o) g h = settle-IsSound i o g h
step-IsSound (call_fail i) g h = fail-IsSound i g h
step-IsSound call_ensure_idle g h = ensure_idle-IsSound g h

pub steps-IsSound : (cs : List Call) (g : Gate) → IsSound g → IsSound (steps cs g)
unfolding steps
steps-IsSound [] g h = h
steps-IsSound (c ∷ cs) g h = steps-IsSound cs (step c g) (step-IsSound c g h)

step-Evolves : (c : Call) (g : Gate) → Evolves g (step c g)
unfolding step
step-Evolves (call_reserve p o) g = Evolves-reserve p o g
step-Evolves (call_settle i o) g = Evolves-settle i o g
step-Evolves (call_fail i) g = Evolves-fail i g
step-Evolves call_ensure_idle g = Evolves-ensure_idle g

limits-steps : (cs : List Call) (g : Gate) → (steps cs g).limits ≡ g.limits
unfolding steps
limits-steps [] g = refl
limits-steps (c ∷ cs) g = limits-steps cs (step c g) ∙ (step-Evolves c g).limits_stay

-- What is paid or may still have to be paid: settled, unresolved and held, in micro-JPY.
abbrev pub exposure : Provider → Gate → ℕ
exposure p g = at g.settled_jpy p + at g.unresolved_jpy p + sum_by (opened_for p) g.reservations

abbrev pub total_exposure : Gate → ℕ
total_exposure g = total g.settled_jpy + total g.unresolved_jpy + sum_by opened_jpy g.reservations

exposure-le : (p : Provider) (g : Gate) → IsSound g → exposure p g ≤ limit g.limits p
exposure-le vertex g h = h.vertex_fits
exposure-le bigquery g h = h.bigquery_fits

-- For limits accepted by `BudgetLimits`, after any sequence of calls of the methods, with any
-- arguments, on a fresh gate: for each provider the settled, unresolved and held amounts together
-- are at most the provider's limit, and over both providers they are at most the total limit.
pub exposure_within_limits :
    (v b t : Object) (l : Limits) (cs : List Call)
    → make_limits v b t ≡ some l
    → ((p : Provider) → exposure p (steps cs (new_gate l)) ≤ limit l p)
      × (total_exposure (steps cs (new_gate l)) ≤ l.total_jpy)
unfolding new_gate
exposure_within_limits v b t l cs made =
    let h = steps-IsSound cs (new_gate l) (IsSound-new_gate l) in
    let e = limits-steps cs (new_gate l) in
    (
      (λ p.
          subst (λ m. exposure p (steps cs (new_gate l)) ≤ limit m p) e
            (exposure-le p (steps cs (new_gate l)) h)),
      subst (λ (m : Limits). total_exposure (steps cs (new_gate l)) ≤ m.total_jpy) e h.total_fits,
    )

abbrev IsSmall : Limits → Type 0
IsSmall m =
    (m.vertex_jpy < 10 ^ 38)
    × (m.bigquery_jpy < 10 ^ 38)
    × (m.total_jpy < 10 ^ 38)
    × (m.total_jpy ≤ m.vertex_jpy + m.bigquery_jpy)

sums_fit :
    (p : Provider) (g : Gate) (l : Limits) (x : ℕ)
    → IsSmall l
    → exposure p g ≤ limit l p
    → x < 10 ^ 38
    → (at g.settled_jpy p + x < 10 ^ 48) × (at g.unresolved_jpy p + x < 10 ^ 48)
sums_fit vertex g l x small fits bound = omega arith
sums_fit bigquery g l x small fits bound = omega arith

-- Every sum that a method forms on a gate reached from accepted limits, with an amount that
-- `_amount` accepts, is below 10^48: the 48 digits of the decimal context hold it exactly.
pub sums_fit_precision :
    (v b t o : Object) (l : Limits) (positive : Bool) (x : ℕ) (cs : List Call)
    → make_limits v b t ≡ some l
    → amount positive o ≡ some x
    → let g = steps cs (new_gate l) in
      ((p : Provider) → at g.settled_jpy p + x < 10 ^ 48)
      × ((p : Provider) → at g.unresolved_jpy p + x < 10 ^ 48)
      × (total g.settled_jpy + x < 10 ^ 48)
      × (l.vertex_jpy + l.bigquery_jpy < 10 ^ 48)
sums_fit_precision v b t o l positive x cs made accepted =
    let (fits, fits_total) = exposure_within_limits v b t l cs made in
    let small = make_limits_bounds v b t made in
    let x_small = amount_bound positive o accepted in
    (
      (λ p. (sums_fit p (steps cs (new_gate l)) l x small (fits p) x_small).0),
      (λ p. (sums_fit p (steps cs (new_gate l)) l x small (fits p) x_small).1),
      omega arith,
      omega arith,
    )

-- A stopped gate has no active reservation, stays stopped whatever is called next, and neither of
-- its ledgers changes; every further `reserve` is refused as stopped.
pub stopped_for_good :
    (cs : List Call) (g : Gate) (p : String) (o : Object)
    → IsSound g
    → g.stopped ≡ true
    → let g' = steps cs g in
      (g'.stopped ≡ true)
      × (g'.active ≡ none)
      × (g'.settled_jpy ≡ g.settled_jpy)
      × (g'.unresolved_jpy ≡ g.unresolved_jpy)
      × (reserve p o g' ≡ (raised gate_stopped, g'))
unfolding steps reserve
stopped_for_good [] g p o h halted = (halted, h.stopped_idle halted, refl, refl, simp halted)
stopped_for_good (c ∷ cs) g p o h halted =
    let e = step-Evolves c g in
    let (s, a, q, u, r) =
      stopped_for_good cs (step c g) p o (step-IsSound c g h) (e.stop_stays halted) in
    (s, a, q ∙ e.settled_stays halted, u ∙ e.unresolved_stays halted (h.stopped_idle halted), r)
