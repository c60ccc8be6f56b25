-- ===== src/Budget/Gate.antt =====
-- `BudgetGate` and `BudgetReservation` of execution_budget.py. A method takes the gate and returns
-- its outcome with the new gate; each runs under the gate's lock, so calls do not interleave.
-- A reservation object is a number, the place of its fields in `reservations`.
pub mod Sound
pub mod Keeps
pub mod Evolves
use repchat.Prelude.{
  ℕ, ◌+◌, String, Bool, true, false, not, ◌&&◌, ◌||◌, Option, none, some, List, [], ◌∷◌, ◌++◌, ltb,
  ◌==◌, if◌then◌else◌, length, get_elem?, set,
}
use text.Mathlib.Text.{◌==◌ as str_eq}
use repchat.Budget.Amount.{Object, Limits, amount}

-- The keys of the two ledgers.
pub data Provider : Type 0 where
  vertex bigquery : Provider

-- The values of `BudgetReservation._state`.
pub data State : Type 0 where
  opened settled failed : State

-- A `dict` with the two providers for keys.
pub record Ledger : Type 0 where
  pub vertex_jpy : ℕ
  pub bigquery_jpy : ℕ

pub record Reservation : Type 0 where
  pub provider : Provider
  pub maximum_jpy : ℕ
  pub state : State

pub record Gate : Type 0 where
  pub limits : Limits
  pub settled_jpy : Ledger
  pub unresolved_jpy : Ledger
  pub stopped : Bool
  pub active : Option ℕ
  pub reservations : List Reservation

-- The messages of `BudgetError`, and `operation_error` for an exception of the operation.
pub data Error : Type 0 where
  gate_stopped overlapping invalid_amount unsupported_provider would_exceed : Error
  not_active exceeded_reservation stopped_or_unresolved not_callable operation_error : Error

pub data Outcome (A : Type 0) : Type 0 where
  returned : A → Outcome A
  raised : Error → Outcome A

abbrev pub Action : Type 0 → Type 0
Action A = Gate → Outcome A × Gate

-- `ledger[provider]`
abbrev pub at : Ledger → Provider → ℕ
at l vertex = l.vertex_jpy
at l bigquery = l.bigquery_jpy

-- `ledger[provider] += value`
abbrev pub add : Ledger → Provider → ℕ → Ledger
add l vertex v = record l { vertex_jpy = l.vertex_jpy + v }
add l bigquery v = record l { bigquery_jpy = l.bigquery_jpy + v }

-- `sum(ledger.values())`
abbrev pub total : Ledger → ℕ
total l = l.vertex_jpy + l.bigquery_jpy

-- `getattr(self._limits, f"{provider}_jpy")`
abbrev pub limit : Limits → Provider → ℕ
limit l vertex = l.vertex_jpy
limit l bigquery = l.bigquery_jpy

abbrev pub zeros : Ledger
zeros = record { vertex_jpy = 0; bigquery_jpy = 0 }

-- `BudgetGate(limits)`
unfoldable pub new_gate : Limits → Gate
new_gate l = record {
  limits = l;
  settled_jpy = zeros;
  unresolved_jpy = zeros;
  stopped = false;
  active = none;
  reservations = [];
}

-- `_stop_active`, on the active object: its maximum becomes unresolved and its state "failed".
abbrev pub stop_reservation : ℕ → Option Reservation → Gate → Gate
stop_reservation i none g = record g { stopped = true; active = none }
stop_reservation i (some r) g = record g {
  unresolved_jpy = add g.unresolved_jpy r.provider r.maximum_jpy;
  stopped = true;
  active = none;
  reservations = set g.reservations i (record r { state = failed });
}

abbrev pub stop_optional : Option ℕ → Gate → Gate
stop_optional none g = record g { stopped = true }
stop_optional (some i) g = stop_reservation i (get_elem? g.reservations i) g

unfoldable pub stop_active : Gate → Gate
stop_active g = stop_optional g.active g

-- `provider not in self._settled`
unfoldable pub provider_of : String → Option Provider
provider_of s =
    if str_eq s "vertex" then some vertex else if str_eq s "bigquery" then some bigquery else none

-- The `try` block of `reserve`: the provider and amount of a request that is within the limits.
abbrev pub check_limits : Gate → ℕ → Option Provider → Outcome (Provider × ℕ)
check_limits g v none = raised unsupported_provider
check_limits g v (some p) =
    if ltb (limit g.limits p) (at g.settled_jpy p + v)
      || ltb g.limits.total_jpy (total g.settled_jpy + v)
    then raised would_exceed
    else returned (p, v)

abbrev pub check_request : Gate → Option Provider → Option ℕ → Outcome (Provider × ℕ)
check_request g p none = raised invalid_amount
check_request g p (some v) = check_limits g v p

abbrev pub hold : Outcome (Provider × ℕ) → Action ℕ
hold (raised e) g = (raised e, record g { stopped = true })
hold (returned (p, v)) g =
    let r : Reservation = record { provider = p; maximum_jpy = v; state = opened } in
    (
      returned (length g.reservations),
      record g { active = some (length g.reservations); reservations = g.reservations ++ r ∷ [] },
    )

abbrev pub reserve_idle : Option ℕ → String → Object → Action ℕ
reserve_idle (some i) p o g = (raised overlapping, stop_active g)
reserve_idle none p o g = hold (check_request g (provider_of p) (amount true o)) g

-- `reserve(provider, maximum_jpy)`; it returns the new reservation object.
unfoldable pub reserve : String → Object → Action ℕ
reserve p o g = if g.stopped then (raised gate_stopped, g) else reserve_idle g.active p o g

-- `reservation is self._active`
abbrev pub is_active : Option ℕ → ℕ → Bool
is_active none i = false
is_active (some j) i = j == i

abbrev pub is_opened : State → Bool
is_opened opened = true
is_opened settled = false
is_opened failed = false

abbrev pub is_failed : State → Bool
is_failed failed = true
is_failed opened = false
is_failed settled = false

abbrev pub record_actual : ℕ → Reservation → Option ℕ → Action (Unit {0})
record_actual i r none g = (raised invalid_amount, stop_active g)
record_actual i r (some v) g =
    if ltb r.maximum_jpy v then (raised exceeded_reservation, stop_active g) else (
      returned tt,
      record g {
        settled_jpy = add g.settled_jpy r.provider v;
        active = none;
        reservations = set g.reservations i (record r { state = settled });
      },
    )

abbrev pub settle_object : ℕ → Option Reservation → Object → Action (Unit {0})
settle_object i none o g = (raised not_active, stop_active g)
settle_object i (some r) o g =
    if g.stopped || not (is_active g.active i) || not (is_opened r.state)
    then (raised not_active, stop_active g)
    else record_actual i r (amount false o) g

-- `_settle(reservation, actual_jpy)`; a number that no object has is refused as not active.
unfoldable pub settle : ℕ → Object → Action (Unit {0})
unfolding stop_active
settle i o g = settle_object i (get_elem? g.reservations i) o g

abbrev pub fail_object : ℕ → Option Reservation → Action (Unit {0})
fail_object i none g = (raised not_active, stop_active g)
fail_object i (some r) g =
    if is_failed r.state && g.stopped
    then (returned tt, g)
    else if not (is_active g.active i) || not (is_opened r.state)
    then (raised not_active, stop_active g)
    else (returned tt, stop_active g)

-- `_fail(reservation)`
unfoldable pub fail : ℕ → Action (Unit {0})
unfolding stop_active
fail i g = fail_object i (get_elem? g.reservations i) g

abbrev pub stop_if_active : Option ℕ → Gate → Gate
stop_if_active none g = g
stop_if_active (some i) g = stop_active g

-- `ensure_idle()`
unfoldable pub ensure_idle : Action (Unit {0})
unfolding stop_active
ensure_idle g =
    let g' = stop_if_active g.active g in
    if g'.stopped then (raised stopped_or_unresolved, g') else (returned tt, g')

-- The handler of `run`: `reservation.fail()`, and the exception goes on.
abbrev pub give_up {ℓ} : {B : Type ℓ} → (Error → B) → Outcome (Unit {0}) → Error → B
give_up raise_ (returned _) e = raise_ e
give_up raise_ (raised e') e = raise_ e'

module _ {A : Type 0} where
  unfoldable pub abandon : ℕ → Error → Action A
  unfolding fail
  abandon i e g = let (f, g') = fail i g in (give_up raised f e, g')

  abbrev pub after_settle : ℕ → A → Outcome (Unit {0}) → Action A
  after_settle i a (returned _) g = (returned a, g)
  after_settle i a (raised e) g = abandon i e g

  abbrev pub after_operation : ℕ → Outcome (A × Object) → Action A
  after_operation i (raised e) g = abandon i e g
  after_operation i (returned (a, cost)) g = let (s, g') = settle i cost g in after_settle i a s g'

  abbrev pub after_reserve : Action (A × Object) → Outcome ℕ → Action A
  after_reserve op (raised e) g = (raised e, g)
  after_reserve op (returned i) g = let (q, g') = op g in after_operation i q g'

  -- `run(provider, maximum_jpy, operation)`; `none` is an operation that is not callable.
  unfoldable pub run : String → Object → Option (Action (A × Object)) → Action A
  unfolding reserve settle abandon stop_active
  run p o none g = (raised not_callable, stop_active g)
  run p o (some op) g = let (r, g') = reserve p o g in after_reserve op r g'
