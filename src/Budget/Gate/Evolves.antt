-- ===== src/Budget/Gate/Evolves.antt =====
-- How a method may change a gate: the limits stay, the stop is final, the settled ledger grows.
use repchat.Prelude.{
  ℕ, ◌≤◌, String, ◌≡◌, Bool, true, false, not, ◌&&◌, ◌||◌, Option, none, some, arith, inl, inr,
  if◌then◌else◌, Bool-cases, get_elem?, ltb,
}
use repchat.Budget.Amount.{Object, amount}
use repchat.Budget.Gate.{
  Provider, Gate, Reservation, Outcome, returned, raised, stop_active, hold, check_request,
  reserve_idle, provider_of, is_active, is_opened, is_failed, reserve, settle, fail, ensure_idle,
  record_actual, settle_object, fail_object, stop_if_active,
}

pub record Evolves (g g' : Gate) : Type 0 where
  pub limits_stay : g'.limits ≡ g.limits
  pub stop_stays : g.stopped ≡ true → g'.stopped ≡ true
  pub settled_stays : g.stopped ≡ true → g'.settled_jpy ≡ g.settled_jpy
  pub unresolved_stays : g.stopped ≡ true → g.active ≡ none → g'.unresolved_jpy ≡ g.unresolved_jpy
  pub vertex_grows : g.settled_jpy.vertex_jpy ≤ g'.settled_jpy.vertex_jpy
  pub bigquery_grows : g.settled_jpy.bigquery_jpy ≤ g'.settled_jpy.bigquery_jpy

pub Evolves-refl : (g : Gate) → Evolves g g
Evolves-refl g = ground arith

pub Evolves-stop_active : (g : Gate) → Evolves g (stop_active g)
unfolding stop_active
Evolves-stop_active g = ground arith

if-Evolves :
    {A : Type 0} (g : Gate) (b : Bool) (x y : Outcome A × Gate)
    → Evolves g x.1
    → Evolves g y.1
    → Evolves g (if b then x else y).1
if-Evolves g true x y hx hy = hx
if-Evolves g false x y hx hy = hy

Evolves-hold : (g : Gate) (r : Outcome (Provider × ℕ)) → Evolves g (hold r g).1
Evolves-hold g (returned (p, v)) = ground arith
Evolves-hold g (raised e) = ground arith

Evolves-reserve_idle :
    (a : Option ℕ) (p : String) (o : Object) (g : Gate) → Evolves g (reserve_idle a p o g).1
Evolves-reserve_idle (some i) p o g = Evolves-stop_active g
Evolves-reserve_idle none p o g = Evolves-hold g (check_request g (provider_of p) (amount true o))

pub Evolves-reserve : (p : String) (o : Object) (g : Gate) → Evolves g (reserve p o g).1
unfolding reserve
Evolves-reserve p o g =
    if-Evolves g g.stopped _ _ (Evolves-refl g) (Evolves-reserve_idle g.active p o g)

Evolves-record_actual :
    (i : ℕ) (r : Reservation) (a : Option ℕ) (g : Gate)
    → g.stopped ≡ false
    → Evolves g (record_actual i r a g).1
Evolves-record_actual i r none g running = Evolves-stop_active g
Evolves-record_actual i r (some v) g running =
    if-Evolves g (ltb r.maximum_jpy v) _ _ (Evolves-stop_active g) (ground arith)

Evolves-settle_object :
    (i : ℕ) (found : Option Reservation) (o : Object) (g : Gate)
    → Evolves g (settle_object i found o g).1
Evolves-settle_object i none o g = Evolves-stop_active g
Evolves-settle_object i (some r) o g = elim (Bool-cases g.stopped) [
  | inl halted ↦ simp halted (Evolves-stop_active g)
  | inr running ↦
      if-Evolves g (g.stopped || not (is_active g.active i) || not (is_opened r.state)) _ _
        (Evolves-stop_active g) (Evolves-record_actual i r (amount false o) g running)
]

pub Evolves-settle : (i : ℕ) (o : Object) (g : Gate) → Evolves g (settle i o g).1
unfolding settle
Evolves-settle i o g = Evolves-settle_object i (get_elem? g.reservations i) o g

Evolves-fail_object :
    (i : ℕ) (found : Option Reservation) (g : Gate) → Evolves g (fail_object i found g).1
Evolves-fail_object i none g = Evolves-stop_active g
Evolves-fail_object i (some r) g =
    if-Evolves g (is_failed r.state && g.stopped) _ _ (Evolves-refl g) (
      if-Evolves g (not (is_active g.active i) || not (is_opened r.state)) _ _
        (Evolves-stop_active g) (Evolves-stop_active g))

pub Evolves-fail : (i : ℕ) (g : Gate) → Evolves g (fail i g).1
unfolding fail
Evolves-fail i g = Evolves-fail_object i (get_elem? g.reservations i) g

Evolves-stop_if_active : (a : Option ℕ) (g : Gate) → Evolves g (stop_if_active a g)
Evolves-stop_if_active none g = Evolves-refl g
Evolves-stop_if_active (some i) g = Evolves-stop_active g

pub Evolves-ensure_idle : (g : Gate) → Evolves g (ensure_idle g).1
unfolding ensure_idle
Evolves-ensure_idle g =
    let s = Evolves-stop_if_active g.active g in
    if-Evolves g (stop_if_active g.active g).stopped _ _ s s
