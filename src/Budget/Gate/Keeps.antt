-- ===== src/Budget/Gate/Keeps.antt =====
-- Each method of the budget gate keeps its invariant.
use repchat.Prelude.{
  ℕ, ◌+◌, ◌≤◌, String, ◌≡◌, refl, Bool, true, false, Option, none, some, arith, ltb, inl, inr, ◌⊎◌,
  ◌||◌, ◌&&◌, not, if◌then◌else◌, Bool-cases, get_elem?, set,
}
use repchat.Budget.Amount.{Object, amount}
use repchat.Budget.Gate.{
  Provider, vertex, bigquery, opened, settled, Reservation, Gate, Outcome, returned, raised, at,
  add, total, limit, check_request, reserve_idle, provider_of, Error, record_actual, settle_object,
  fail_object, stop_if_active, is_active, is_opened, is_failed, reserve, settle, fail, ensure_idle,
}
use repchat.Budget.Gate.Sound.{IsSound, moved_all, stop_active-IsSound, halt-IsSound, hold-IsSound}

-- What `check_request` lets through is within the limits.
pub check_request-returned :
    (g : Gate) (q : Option Provider) (a : Option ℕ) {p : Provider} {v : ℕ}
    → check_request g q a ≡ returned (p, v)
    → (q ≡ some p)
      × (a ≡ some v)
      × (at g.settled_jpy p + v ≤ limit g.limits p)
      × (total g.settled_jpy + v ≤ g.limits.total_jpy)
check_request-returned g q none h = cc
check_request-returned g none (some v) h = cc
check_request-returned g (some vertex) (some v) {p = vertex} h = ground arith
check_request-returned g (some vertex) (some v) {p = bigquery} h = ground arith
check_request-returned g (some bigquery) (some v) {p = vertex} h = ground arith
check_request-returned g (some bigquery) (some v) {p = bigquery} h = ground arith

pub Outcome-cases :
    {A : Type 0} (o : Outcome A) → ((a : A) × (o ≡ returned a)) ⊎ ((e : Error) × (o ≡ raised e))
Outcome-cases (returned a) = inl (a, refl)
Outcome-cases (raised e) = inr (e, refl)

reserve_idle-IsSound :
    (a : Option ℕ) (p : String) (o : Object) (g : Gate)
    → g.active ≡ a
    → g.stopped ≡ false
    → IsSound g
    → IsSound (reserve_idle a p o g).1
reserve_idle-IsSound (some i) p o g e running h = stop_active-IsSound g h
reserve_idle-IsSound none p o g e running h =
    elim (Outcome-cases (check_request g (provider_of p) (amount true o))) [
      | inl ((q, v), ok) ↦
          let c = check_request-returned g (provider_of p) (amount true o) ok in
          rw ok (hold-IsSound g q v running e c.2 c.3 h)
      | inr (x, bad) ↦ rw bad (halt-IsSound g e h)
    ]

pub reserve-IsSound : (p : String) (o : Object) (g : Gate) → IsSound g → IsSound (reserve p o g).1
unfolding reserve
reserve-IsSound p o g h = elim (Bool-cases g.stopped) [
  | inl halted ↦ simp halted h
  | inr running ↦ simp running (reserve_idle-IsSound g.active p o g refl running h)
]

-- Settling an opened object replaces its maximum by an actual cost that is no larger.
settle_active-IsSound :
    (g : Gate) (i : ℕ) (r : Reservation) (v : ℕ)
    → g.stopped ≡ false
    → g.active ≡ some i
    → get_elem? g.reservations i ≡ some r
    → r.state ≡ opened
    → v ≤ r.maximum_jpy
    → IsSound g
    → IsSound (record g {
      settled_jpy = add g.settled_jpy r.provider v;
      active = none;
      reservations = set g.reservations i (record r { state = settled });
    })
settle_active-IsSound g i r v running act e o le h =
    ground (arith, moved_all g i r (record r { state = settled }) e)

record_actual-IsSound :
    (g : Gate) (i : ℕ) (r : Reservation) (a : Option ℕ)
    → g.stopped ≡ false
    → g.active ≡ some i
    → get_elem? g.reservations i ≡ some r
    → r.state ≡ opened
    → IsSound g
    → IsSound (record_actual i r a g).1
record_actual-IsSound g i r none running act e o h = stop_active-IsSound g h
record_actual-IsSound g i r (some v) running act e o h = elim (Bool-cases (ltb r.maximum_jpy v)) [
  | inl over ↦ rw over (stop_active-IsSound g h)
  | inr within ↦ rw within (settle_active-IsSound g i r v running act e o (ground arith) h)
]

-- The test of `_settle` passes only for the active object, while it is opened.
settle_guard :
    (g : Gate) (i : ℕ) (r : Reservation)
    → (g.stopped || not (is_active g.active i) || not (is_opened r.state)) ≡ false
    → (g.stopped ≡ false) × (g.active ≡ some i) × (r.state ≡ opened)
settle_guard g i r h = ground arith

settle_object-IsSound :
    (g : Gate) (i : ℕ) (found : Option Reservation) (o : Object)
    → get_elem? g.reservations i ≡ found
    → IsSound g
    → IsSound (settle_object i found o g).1
settle_object-IsSound g i none o e h = stop_active-IsSound g h
settle_object-IsSound g i (some r) o e h =
    elim (Bool-cases (g.stopped || not (is_active g.active i) || not (is_opened r.state))) [
      | inl bad ↦ simp bad (stop_active-IsSound g h)
      | inr fine ↦
          let (running, act, opn) = settle_guard g i r fine in
          simp fine (record_actual-IsSound g i r (amount false o) running act e opn h)
    ]

pub settle-IsSound : (i : ℕ) (o : Object) (g : Gate) → IsSound g → IsSound (settle i o g).1
unfolding settle
settle-IsSound i o g h = settle_object-IsSound g i (get_elem? g.reservations i) o refl h

if-IsSound :
    {A : Type 0} (b : Bool) (x y : Outcome A × Gate)
    → IsSound x.1
    → IsSound y.1
    → IsSound (if b then x else y).1
if-IsSound true x y hx hy = hx
if-IsSound false x y hx hy = hy

fail_object-IsSound :
    (i : ℕ) (found : Option Reservation) (g : Gate) → IsSound g → IsSound (fail_object i found g).1
fail_object-IsSound i none g h = stop_active-IsSound g h
fail_object-IsSound i (some r) g h = if-IsSound (is_failed r.state && g.stopped) _ _ h (
    if-IsSound (not (is_active g.active i) || not (is_opened r.state)) _ _ (stop_active-IsSound g h)
      (stop_active-IsSound g h))

pub fail-IsSound : (i : ℕ) (g : Gate) → IsSound g → IsSound (fail i g).1
unfolding fail
fail-IsSound i g h = fail_object-IsSound i (get_elem? g.reservations i) g h

stop_if_active-IsSound : (a : Option ℕ) (g : Gate) → IsSound g → IsSound (stop_if_active a g)
stop_if_active-IsSound none g h = h
stop_if_active-IsSound (some i) g h = stop_active-IsSound g h

pub ensure_idle-IsSound : (g : Gate) → IsSound g → IsSound (ensure_idle g).1
unfolding ensure_idle
ensure_idle-IsSound g h =
    let s = stop_if_active-IsSound g.active g h in
    if-IsSound (stop_if_active g.active g).stopped _ _ s s
