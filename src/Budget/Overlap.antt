-- ===== src/Budget/Overlap.antt =====
-- A run of `BudgetGate` whose operation makes another request on the gate.
use repchat.Prelude.{
  ℕ, String, ◌≡◌, ◌∙◌, refl, true, Option, none, some, arith, length, ◌++◌, ◌∷◌, [], get_elem?,
  get_elem?-append_last,
}
use repchat.Budget.Amount.{Object}
use repchat.Budget.Gate.{
  Gate, Ledger, Reservation, Outcome, returned, raised, Error, not_active, add, give_up, reserve,
  settle, settle_object, fail, fail_object, run, abandon, after_operation, stop_active,
}
use repchat.Budget.Behaviour.{reserve_granted, IsGranted, fresh, reserve_overlap}

-- A gate that raised and is stopped, with the ledgers as given.
abbrev pub RaisedWith : {A : Type 0} → Ledger → Ledger → Outcome A × Gate → Type 0
RaisedWith settled_ unresolved_ (q, g) =
    ((e : Error) × (q ≡ raised e))
    × (g.stopped ≡ true)
    × (g.active ≡ none)
    × (g.settled_jpy ≡ settled_)
    × (g.unresolved_jpy ≡ unresolved_)

-- What abandoning a reservation on a stopped gate without an active one leaves.
fail_object-stopped_idle :
    (i : ℕ) (found : Option Reservation) (g : Gate)
    → g.stopped ≡ true
    → g.active ≡ none
    → let g' = (fail_object i found g).1 in
      (g'.stopped ≡ true)
      × (g'.active ≡ none)
      × (g'.settled_jpy ≡ g.settled_jpy)
      × (g'.unresolved_jpy ≡ g.unresolved_jpy)
unfolding stop_active
fail_object-stopped_idle i none g s a = ground arith
fail_object-stopped_idle i (some r) g s a = ground arith

give_up-raises :
    {A : Type 0} (f : Outcome (Unit {0})) (e : Error)
    → (e' : Error) × (give_up {B = Outcome A} raised f e ≡ raised e')
give_up-raises (returned u) e = (e, refl)
give_up-raises (raised e') e = (e', refl)

abandon-RaisedWith :
    {A : Type 0} (i : ℕ) (e : Error) (g : Gate)
    → g.stopped ≡ true
    → g.active ≡ none
    → RaisedWith {A = A} g.settled_jpy g.unresolved_jpy (abandon i e g)
unfolding abandon fail
abandon-RaisedWith {A} i e g s a =
    let (s', a', l, u) = fail_object-stopped_idle i (get_elem? g.reservations i) g s a in
    (give_up-raises {A = A} (fail i g).0 e, s', a', l, u)

settle_object-stopped_idle :
    (i : ℕ) (found : Option Reservation) (o : Object) (g : Gate)
    → g.stopped ≡ true
    → g.active ≡ none
    → settle_object i found o g ≡ (raised not_active, g)
unfolding stop_active
settle_object-stopped_idle i none o g s a = ground arith
settle_object-stopped_idle i (some r) o g s a = ground arith

after_operation-RaisedWith :
    {A : Type 0} (i : ℕ) (r : Outcome (A × Object)) (g : Gate)
    → g.stopped ≡ true
    → g.active ≡ none
    → RaisedWith {A = A} g.settled_jpy g.unresolved_jpy (after_operation i r g)
unfolding settle
after_operation-RaisedWith i (raised e) g s a = abandon-RaisedWith i e g s a
after_operation-RaisedWith {A = A} i (returned (x, cost)) g s a =
    let refused = settle_object-stopped_idle i (get_elem? g.reservations i) cost g s a in
    rw refused (abandon-RaisedWith {A = A} i not_active g s a)

-- A granted request whose operation makes a second request on the gate, whatever that asks for and
-- whatever the operation then returns or raises: `run` raises, settles nothing, and leaves the gate
-- stopped with the maximum of the first request unresolved for its provider, once.
pub run_overlap :
    {A : Type 0} (p : String) (o : Object) (g : Gate) (p' : String) (o' : Object)
    (r : Outcome (A × Object)) (granted : IsGranted p o g)
    → RaisedWith {A = A} g.settled_jpy
        (add g.unresolved_jpy granted.provider granted.maximum)
        (run p o (some (λ h. (r, (reserve p' o' h).1))) g)
unfolding run
run_overlap {A} p o g p' o' r granted =
    let i = length g.reservations in
    let busy : Gate = record g {
      active = some i;
      reservations = g.reservations ++ fresh granted ∷ [];
    } in
    let found = get_elem?-append_last g.reservations (fresh granted) in
    let (_, stopped) = reserve_overlap p' o' busy i (fresh granted) granted.running refl found in
    let g' = (reserve p' o' busy).1 in
    let (e, s, a, l, u) = after_operation-RaisedWith {A = A} i r g' stopped.0 stopped.1 in
    rw (reserve_granted p o g granted) (e, s, a, l ∙ stopped.2, u ∙ stopped.3)
