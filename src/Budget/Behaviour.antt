-- ===== src/Budget/Behaviour.antt =====
-- What each method of the gate answers, on every branch.
use repchat.Prelude.{
  ℕ, ◌+◌, ◌≤◌, ◌<◌, String, ◌≡◌, ◌↔◌, ◌⊎◌, inl, inr, refl, ap, true, false, not, ◌||◌, Option, none,
  some, [], ◌∷◌, ◌++◌, arith, ltb, Bool-cases, length, get_elem?, set,
}
use repchat.Budget.Amount.{Object, amount}
use repchat.Budget.Gate.{
  Provider, vertex, bigquery, Gate, Reservation, Outcome, returned, raised, Error, overlapping,
  invalid_amount, exceeded_reservation, opened, failed, at, add, total, limit, hold, check_request,
  check_limits, reserve_idle, provider_of, is_active, is_opened, reserve, settle, record_actual,
  stop_active,
}
use repchat.Budget.Gate.Sound.{stop_active-stopped}
use repchat.Budget.Gate.Keeps.{check_request-returned}

-- What a request needs to be granted.
pub record IsGranted (p : String) (o : Object) (g : Gate) : Type 0 where
  pub provider : Provider
  pub maximum : ℕ
  pub supported : provider_of p ≡ some provider
  pub accepted : amount true o ≡ some maximum
  pub running : g.stopped ≡ false
  pub idle : g.active ≡ none
  pub fits : at g.settled_jpy provider + maximum ≤ limit g.limits provider
  pub fits_total : total g.settled_jpy + maximum ≤ g.limits.total_jpy

check_limits-granted :
    (g : Gate) (v : ℕ) (q : Provider)
    → at g.settled_jpy q + v ≤ limit g.limits q
    → total g.settled_jpy + v ≤ g.limits.total_jpy
    → check_limits g v (some q) ≡ returned (q, v)
check_limits-granted g v vertex f t = ground arith
check_limits-granted g v bigquery f t = ground arith

-- The object that a granted request makes.
abbrev pub fresh : {p : String} {o : Object} {g : Gate} → IsGranted p o g → Reservation
fresh a = record { provider = a.provider; maximum_jpy = a.maximum; state = opened }

pub reserve_granted :
    (p : String) (o : Object) (g : Gate) (a : IsGranted p o g)
    → reserve p o g ≡ (
      returned (length g.reservations),
      record g {
        active = some (length g.reservations);
        reservations = g.reservations ++ fresh a ∷ [];
      },
    )
unfolding reserve
reserve_granted p o g a =
    ground (arith, check_limits-granted g a.maximum a.provider a.fits a.fits_total)

hold-refused :
    (c : Outcome (Provider × ℕ)) (g : Gate) (e : Error)
    → (hold c g).0 ≡ raised e
    → (hold c g).1.stopped ≡ true
hold-refused (raised x) g e h = refl
hold-refused (returned (p, v)) g e h = cc

hold-returned :
    (c : Outcome (Provider × ℕ)) (g : Gate) {i : ℕ}
    → (hold c g).0 ≡ returned i
    → (p : Provider) × (v : ℕ) × (c ≡ returned (p, v))
hold-returned (raised x) g h = cc
hold-returned (returned (p, v)) g h = (p, v, refl)

reserve_idle-returned :
    (a : Option ℕ) (p : String) (o : Object) (g : Gate) {i : ℕ}
    → g.active ≡ a
    → g.stopped ≡ false
    → (reserve_idle a p o g).0 ≡ returned i
    → IsGranted p o g
reserve_idle-returned (some j) p o g e running h = cc
reserve_idle-returned none p o g e running h =
    let (q, v, c) = hold-returned (check_request g (provider_of p) (amount true o)) g h in
    let (s, a, f, t) = check_request-returned g (provider_of p) (amount true o) c in
    record {
      provider = q;
      maximum = v;
      supported = s;
      accepted = a;
      running = running;
      idle = e;
      fits = f;
      fits_total = t;
    }

reserve-returned :
    (p : String) (o : Object) (g : Gate) {i : ℕ} → (reserve p o g).0 ≡ returned i → IsGranted p o g
unfolding reserve
reserve-returned p o g h = elim (Bool-cases g.stopped) [
  | inl halted ↦ absurd (let bad = simp halted at h in cc)
  | inr running ↦ reserve_idle-returned g.active p o g refl running (simp running at h)
]

-- `reserve` returns a reservation exactly when the gate is neither stopped nor busy, the provider
-- is supported, the amount is accepted as positive, and both the provider's limit and the total
-- limit have room for it beside what is settled.
pub reserve_exact :
    (p : String) (o : Object) (g : Gate)
    → IsGranted p o g ↔ ((i : ℕ) × ((reserve p o g).0 ≡ returned i))
reserve_exact p o g = (
  (λ a. (length g.reservations, ap (λ x. x.0) (reserve_granted p o g a))),
  λ (i, h). reserve-returned p o g h,
)

reserve_idle-refused :
    (a : Option ℕ) (p : String) (o : Object) (g : Gate) (e : Error)
    → (reserve_idle a p o g).0 ≡ raised e
    → (reserve_idle a p o g).1.stopped ≡ true
reserve_idle-refused (some i) p o g e h = (stop_active-stopped g).0
reserve_idle-refused none p o g e h =
    hold-refused (check_request g (provider_of p) (amount true o)) g e h

-- A refused request leaves the gate stopped.
pub reserve_refused :
    (p : String) (o : Object) (g : Gate) (e : Error)
    → (reserve p o g).0 ≡ raised e
    → (reserve p o g).1.stopped ≡ true
unfolding reserve
reserve_refused p o g e h = elim (Bool-cases g.stopped) [
  | inl halted ↦ simp halted
  | inr running ↦ simp running (reserve_idle-refused g.active p o g e (simp running at h))
]

-- What stopping does to a gate whose active reservation is the object `i`, with the fields `r`:
-- its maximum becomes unresolved, it is failed, and nothing is settled.
abbrev pub Stopped : Gate → ℕ → Reservation → Gate → Type 0
Stopped g i r g' =
    (g'.stopped ≡ true)
    × (g'.active ≡ none)
    × (g'.settled_jpy ≡ g.settled_jpy)
    × (g'.unresolved_jpy ≡ add g.unresolved_jpy r.provider r.maximum_jpy)
    × (g'.reservations ≡ set g.reservations i (record r { state = failed }))

pub stop_active-Stopped :
    (g : Gate) (i : ℕ) (r : Reservation)
    → g.active ≡ some i
    → get_elem? g.reservations i ≡ some r
    → Stopped g i r (stop_active g)
unfolding stop_active
stop_active-Stopped g i r a e = ground arith

-- A request while a reservation is active.
pub reserve_overlap :
    (p : String) (o : Object) (g : Gate) (i : ℕ) (r : Reservation)
    → g.stopped ≡ false
    → g.active ≡ some i
    → get_elem? g.reservations i ≡ some r
    → ((reserve p o g).0 ≡ raised overlapping) × Stopped g i r (reserve p o g).1
unfolding reserve stop_active
reserve_overlap p o g i r running a e = ground arith

-- The outcome of settling the active reservation, by the cost that `_amount` accepts.
abbrev pub Settled : Gate → ℕ → Reservation → Option ℕ → Outcome (Unit {0}) × Gate → Type 0
Settled g i r none (q, g') = (q ≡ raised invalid_amount) × Stopped g i r g'
Settled g i r (some v) (q, g') =
    (v ≤ r.maximum_jpy)
      × (q ≡ returned tt)
      × (g'.stopped ≡ false)
      × (g'.active ≡ none)
      × (g'.settled_jpy ≡ add g.settled_jpy r.provider v)
      × (g'.unresolved_jpy ≡ g.unresolved_jpy)
    ⊎ (r.maximum_jpy < v) × (q ≡ raised exceeded_reservation) × Stopped g i r g'

record_actual-Settled :
    (g : Gate) (i : ℕ) (r : Reservation) (a : Option ℕ)
    → g.stopped ≡ false
    → g.active ≡ some i
    → get_elem? g.reservations i ≡ some r
    → Settled g i r a (record_actual i r a g)
record_actual-Settled g i r none running a e = (refl, stop_active-Stopped g i r a e)
record_actual-Settled g i r (some v) running a e = elim (Bool-cases (ltb r.maximum_jpy v)) [
  | inl over ↦ inr (rw over (ground arith, refl, stop_active-Stopped g i r a e))
  | inr within ↦ inl (rw within (ground arith))
]

-- Settling the active reservation of a running gate: a cost within its maximum is added to its
-- provider's settled amount and the gate is idle and running; a cost that is no amount, or that
-- exceeds the maximum, raises and stops the gate with the maximum unresolved.
pub settle_active :
    (i : ℕ) (o : Object) (g : Gate) (r : Reservation)
    → g.stopped ≡ false
    → g.active ≡ some i
    → get_elem? g.reservations i ≡ some r
    → r.state ≡ opened
    → Settled g i r (amount false o) (settle i o g)
unfolding settle
settle_active i o g r running a e op =
    simp (e)
      (elim (Bool-cases (g.stopped || not (is_active g.active i) || not (is_opened r.state))) [
        | inl bad ↦ absurd (ground arith)
        | inr fine ↦ simp fine (record_actual-Settled g i r (amount false o) running a e)
      ])
