-- ===== src/Budget/Run.antt =====
-- `BudgetGate.run`, which wraps one paid operation in a reservation.
use repchat.Prelude.{
  ℕ, ◌≤◌, String, ◌≡◌, refl, true, false, not, ◌&&◌, ◌||◌, Option, none, some, arith, inl, inr,
  Bool-cases, get_elem?, ltb, length, ◌++◌, ◌∷◌, [], get_elem?-append_last,
}
use repchat.Budget.Amount.{Object, amount}
use repchat.Budget.Gate.{
  Gate, Reservation, Outcome, returned, raised, Error, opened, add, is_active, is_opened, is_failed,
  reserve, settle, fail, run, abandon, record_actual, settle_object, fail_object, Action,
  after_settle, after_operation, after_reserve,
}
use repchat.Budget.Gate.Sound.{stop_active-stopped}
use repchat.Budget.Gate.Keeps.{Outcome-cases}
use repchat.Budget.Behaviour.{
  reserve_refused, reserve_granted, IsGranted, fresh, settle_active, Settled, Stopped,
  stop_active-Stopped,
}

-- A gate that has finished its operation: idle and running after a result, stopped after a raise.
abbrev pub Finished : {A : Type 0} → Outcome A × Gate → Type 0
Finished (returned a, g) = (g.stopped ≡ false) × (g.active ≡ none)
Finished (raised e, g) = g.stopped ≡ true

fail_object-stopped :
    (i : ℕ) (found : Option Reservation) (g : Gate) → (fail_object i found g).1.stopped ≡ true
fail_object-stopped i none g = (stop_active-stopped g).0
fail_object-stopped i (some r) g = elim (Bool-cases (is_failed r.state && g.stopped)) [
  | inl done ↦ rw done (ground arith)
  | inr open_ ↦ rw open_ (ground (arith, stop_active-stopped g))
]

-- After `fail` the gate is stopped, whether it raised or not.
pub fail_stops : (i : ℕ) (g : Gate) → (fail i g).1.stopped ≡ true
unfolding fail
fail_stops i g = fail_object-stopped i (get_elem? g.reservations i) g

abandon-Finished : (A : Type 0) (i : ℕ) (e : Error) (g : Gate) → Finished (abandon {A = A} i e g)
unfolding abandon
abandon-Finished A i e g = elim (Outcome-cases (fail i g).0) [
  | inl (u, q) ↦ simp q (fail_stops i g)
  | inr (x, q) ↦ simp q (fail_stops i g)
]

-- What a settlement that returns has left.
abbrev Idle : Gate → Type 0
Idle g = (g.stopped ≡ false) × (g.active ≡ none)

record_actual-returned :
    (i : ℕ) (r : Reservation) (a : Option ℕ) (g : Gate)
    → g.stopped ≡ false
    → (record_actual i r a g).0 ≡ returned tt
    → Idle (record_actual i r a g).1
record_actual-returned i r none g running h = cc
record_actual-returned i r (some v) g running h = elim (Bool-cases (ltb r.maximum_jpy v)) [
  | inl over ↦ absurd (let bad = rw over at h in cc)
  | inr within ↦ rw within (running, refl)
]

settle_object-returned :
    (i : ℕ) (found : Option Reservation) (o : Object) (g : Gate)
    → (settle_object i found o g).0 ≡ returned tt
    → Idle (settle_object i found o g).1
settle_object-returned i none o g h = cc
settle_object-returned i (some r) o g h =
    elim (Bool-cases (g.stopped || not (is_active g.active i) || not (is_opened r.state))) [
      | inl bad ↦ absurd (let e = simp bad at h in cc)
      | inr fine ↦
          simp fine (record_actual-returned i r (amount false o) g (ground arith) (simp fine at h))
    ]

settle-returned :
    (i : ℕ) (o : Object) (g : Gate) → (settle i o g).0 ≡ returned tt → Idle (settle i o g).1
unfolding settle
settle-returned i o g h = settle_object-returned i (get_elem? g.reservations i) o g h

after_settle-Finished :
    {A : Type 0} (i : ℕ) (a : A) (s : Outcome (Unit {0})) (g : Gate)
    → (s ≡ returned tt → Idle g)
    → Finished (after_settle i a s g)
after_settle-Finished i a (returned u) g idle = idle refl
after_settle-Finished {A} i a (raised e) g idle = abandon-Finished A i e g

after_operation-Finished :
    {A : Type 0} (i : ℕ) (q : Outcome (A × Object)) (g : Gate) → Finished (after_operation i q g)
after_operation-Finished {A} i (raised e) g = abandon-Finished A i e g
after_operation-Finished i (returned (a, cost)) g =
    after_settle-Finished i a (settle i cost g).0 (settle i cost g).1 (settle-returned i cost g)

after_reserve-Finished :
    {A : Type 0} (op : Action (A × Object)) (r : Outcome ℕ) (g : Gate)
    → ((e : Error) → r ≡ raised e → g.stopped ≡ true)
    → Finished (after_reserve op r g)
after_reserve-Finished op (raised e) g refused = refused e refl
after_reserve-Finished op (returned i) g refused = after_operation-Finished i (op g).0 (op g).1

-- Whatever the operation does to the gate, `run` returns only with the gate idle and running, and
-- raises only with the gate stopped; so does `run` on an operation that is not callable.
pub run-Finished :
    (A : Type 0) (p : String) (o : Object) (op : Option (Action (A × Object))) (g : Gate)
    → Finished (run p o op g)
unfolding run
run-Finished A p o none g = (stop_active-stopped g).0
run-Finished A p o (some op) g =
    after_reserve-Finished op (reserve p o g).0 (reserve p o g).1 (λ e h. reserve_refused p o g e h)

-- The gate while the granted request is held.
abbrev busy : (p : String) (o : Object) (g : Gate) → IsGranted p o g → Gate
busy p o g a = record g {
  active = some (length g.reservations);
  reservations = g.reservations ++ fresh a ∷ [];
}

-- What follows a settlement within the maximum.
accounted :
    {A : Type 0} (g : Gate) (i : ℕ) (r : Reservation) (result : A) (v : ℕ)
    (x : Outcome (Unit {0}) × Gate)
    → v ≤ r.maximum_jpy
    → Settled g i r (some v) x
    → let (q, g') = after_settle i result x.0 x.1 in
      (q ≡ returned result)
      × (g'.stopped ≡ false)
      × (g'.active ≡ none)
      × (g'.settled_jpy ≡ add g.settled_jpy r.provider v)
      × (g'.unresolved_jpy ≡ g.unresolved_jpy)
accounted g i r result v (returned u, g') le (inl f) = (refl, f.2, f.3, f.4, f.5)
accounted g i r result v (raised e, g') le (inl f) = absurd (let c = f.1 in cc)
accounted g i r result v x le (inr f) = absurd (omega (arith, f.0))

-- A granted request whose operation leaves the gate as it is and returns a cost that is an amount
-- within the maximum: `run` returns the result, adds exactly the cost to the settled amount of the
-- provider, leaves the unresolved amounts unchanged, and leaves the gate idle and running.
pub run_accounts :
    {A : Type 0} (p : String) (o cost : Object) (g : Gate) (result : A) (v : ℕ)
    (granted : IsGranted p o g)
    → amount false cost ≡ some v
    → v ≤ granted.maximum
    → let (q, g') = run p o (some (λ h. (returned (result, cost), h))) g in
      (q ≡ returned result)
      × (g'.stopped ≡ false)
      × (g'.active ≡ none)
      × (g'.settled_jpy ≡ add g.settled_jpy granted.provider v)
      × (g'.unresolved_jpy ≡ g.unresolved_jpy)
unfolding run
run_accounts p o cost g result v granted accepted within =
    let i = length g.reservations in
    let found = get_elem?-append_last g.reservations (fresh granted) in
    let s =
      settle_active i cost (busy p o g granted) (fresh granted) granted.running refl found refl in
    rw (reserve_granted p o g granted) (
      accounted (busy p o g granted) i (fresh granted) result v (settle i cost (busy p o g granted))
        within (rw accepted at s))

abandoned :
    {A : Type 0} (g : Gate) (i : ℕ) (r : Reservation) (e : Error)
    → g.stopped ≡ false
    → g.active ≡ some i
    → get_elem? g.reservations i ≡ some r
    → r.state ≡ opened
    → let (q, g') = abandon {A = A} i e g in (q ≡ raised e) × Stopped g i r g'
unfolding abandon
abandoned g i r e running a found op =
    simp found (ground (arith, stop_active-Stopped g i r a found))

-- A granted request whose operation leaves the gate as it is and raises: `run` raises the same
-- error, settles nothing, and leaves the gate stopped with the whole maximum added to what is
-- unresolved for the provider.
pub run_failure :
    {A : Type 0} (p : String) (o : Object) (g : Gate) (e : Error) (granted : IsGranted p o g)
    → let (q, g') = run {A = A} p o (some (λ h. (raised e, h))) g in
      (q ≡ raised e)
      × (g'.stopped ≡ true)
      × (g'.active ≡ none)
      × (g'.settled_jpy ≡ g.settled_jpy)
      × (g'.unresolved_jpy ≡ add g.unresolved_jpy granted.provider granted.maximum)
unfolding run
run_failure {A} p o g e granted =
    let i = length g.reservations in
    let found = get_elem?-append_last g.reservations (fresh granted) in
    let s =
      abandoned {A = A} (busy p o g granted) i (fresh granted) e granted.running refl found refl in
    rw (reserve_granted p o g granted) (s.0, s.1.0, s.1.1, s.1.2, s.1.3)
