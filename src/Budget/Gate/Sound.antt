-- ===== src/Budget/Gate/Sound.antt =====
-- The invariant of the budget gate, and that stopping and holding keep it.
use repchat.Prelude.{
  ℕ, ◌+◌, ◌≤◌, ◌≡◌, refl, true, false, Option, none, some, List, [], ◌∷◌, ◌++◌, arith, get_elem?,
  set, sum_by, sum_by-append, sum_by-set, get_elem?-append_last,
}
use repchat.Budget.Amount.{Limits}
use repchat.Budget.Gate.{
  Provider, vertex, bigquery, opened, settled, failed, Reservation, Gate, returned, at, total,
  limit, new_gate, stop_active, stop_optional, stop_reservation, hold,
}

-- What a reservation counts for, by its state.
abbrev pub count_opened : Reservation → ℕ
count_opened r = elim r.state [ opened ↦ 1 | settled ↦ 0 | failed ↦ 0 ]

abbrev pub opened_jpy : Reservation → ℕ
opened_jpy r = elim r.state [ opened ↦ r.maximum_jpy | settled ↦ 0 | failed ↦ 0 ]

abbrev for_provider : Provider → Provider → ℕ → ℕ
for_provider vertex vertex v = v
for_provider vertex bigquery v = 0
for_provider bigquery vertex v = 0
for_provider bigquery bigquery v = v

abbrev pub opened_for : Provider → Reservation → ℕ
opened_for p r = for_provider p r.provider (opened_jpy r)

abbrev pub failed_for : Provider → Reservation → ℕ
failed_for p r =
    for_provider p r.provider (elim r.state [ opened ↦ 0 | settled ↦ 0 | failed ↦ r.maximum_jpy ])

-- The active reservation is the only opened one.
abbrev pub ActiveOnly : Option ℕ → List Reservation → Type 0
ActiveOnly none rs = sum_by count_opened rs ≡ 0
ActiveOnly (some i) rs =
    (r : Reservation) × (get_elem? rs i ≡ some r)
    × (r.state ≡ opened)
    × (sum_by count_opened rs ≡ 1)

-- The invariant: what was paid, what may have been paid and what may yet be paid fit the limits.
pub record IsSound (g : Gate) : Type 0 where
  pub only : ActiveOnly g.active g.reservations
  pub vertex_fits :
      g.settled_jpy.vertex_jpy
        + g.unresolved_jpy.vertex_jpy
        + sum_by (opened_for vertex) g.reservations
      ≤ g.limits.vertex_jpy
  pub bigquery_fits :
      g.settled_jpy.bigquery_jpy
        + g.unresolved_jpy.bigquery_jpy
        + sum_by (opened_for bigquery) g.reservations
      ≤ g.limits.bigquery_jpy
  pub total_fits :
      total g.settled_jpy + total g.unresolved_jpy + sum_by opened_jpy g.reservations
      ≤ g.limits.total_jpy
  pub vertex_failed : g.unresolved_jpy.vertex_jpy ≡ sum_by (failed_for vertex) g.reservations
  pub bigquery_failed : g.unresolved_jpy.bigquery_jpy ≡ sum_by (failed_for bigquery) g.reservations
  pub stopped_idle : g.stopped ≡ true → g.active ≡ none
  pub unstopped : g.stopped ≡ false → total g.unresolved_jpy ≡ 0

pub IsSound-new_gate : (l : Limits) → IsSound (new_gate l)
unfolding new_gate
IsSound-new_gate l = ground arith

-- The six sums of two lists of reservations, in terms of `Same f`.
abbrev EachSum : ((Reservation → ℕ) → Type 0) → Type 0
EachSum Same =
    Same count_opened
    × Same opened_jpy
    × Same (opened_for vertex)
    × Same (opened_for bigquery)
    × Same (failed_for vertex)
    × Same (failed_for bigquery)

each_sum : (Same : (Reservation → ℕ) → Type 0) → ((f : Reservation → ℕ) → Same f) → EachSum Same
each_sum Same h = (
  h count_opened,
  h opened_jpy,
  h (opened_for vertex),
  h (opened_for bigquery),
  h (failed_for vertex),
  h (failed_for bigquery),
)

-- How the sums move when the object `i` is replaced.
pub moved_all :
    (g : Gate) (i : ℕ) (r s : Reservation)
    → get_elem? g.reservations i ≡ some r
    → EachSum (λ f. sum_by f (set g.reservations i s) + f r ≡ sum_by f g.reservations + f s)
moved_all g i r s e =
    each_sum (λ f. sum_by f (set g.reservations i s) + f r ≡ sum_by f g.reservations + f s)
      (λ f. sum_by-set f g.reservations i r s e)

stop_reservation-IsSound :
    (g : Gate) (i : ℕ) (r : Reservation)
    → IsSound g
    → get_elem? g.reservations i ≡ some r
    → r.state ≡ opened
    → sum_by count_opened g.reservations ≡ 1
    → IsSound (stop_reservation i (some r) g)
stop_reservation-IsSound g i r h e o one =
    ground (arith, moved_all g i r (record r { state = failed }) e)

stop_optional-IsSound :
    (a : Option ℕ) (g : Gate) → g.active ≡ a → IsSound g → IsSound (stop_optional a g)
stop_optional-IsSound none g e h = ground arith
stop_optional-IsSound (some i) g e h =
    let a = rw e at h.only in rw (a.1) (stop_reservation-IsSound g i a.0 h a.1 a.2 a.3)

pub stop_active-IsSound : (g : Gate) → IsSound g → IsSound (stop_active g)
unfolding stop_active
stop_active-IsSound g h = stop_optional-IsSound g.active g refl h

pub stop_active-stopped :
    (g : Gate) → ((stop_active g).stopped ≡ true) × ((stop_active g).active ≡ none)
unfolding stop_active
stop_active-stopped g = ground arith

pub halt-IsSound : (g : Gate) → g.active ≡ none → IsSound g → IsSound (record g { stopped = true })
halt-IsSound g e h = ground arith

-- Where no object is open, nothing is held.
opened_zero :
    (rs : List Reservation)
    → sum_by count_opened rs ≡ 0
    → (sum_by opened_jpy rs ≡ 0)
      × (sum_by (opened_for vertex) rs ≡ 0)
      × (sum_by (opened_for bigquery) rs ≡ 0)
opened_zero [] e = (refl, refl, refl)
opened_zero (r ∷ rs) e = ground (arith, opened_zero rs)

-- A new object adds its maximum to what is held.
abbrev held : Provider → ℕ → Reservation
held p v = record { provider = p; maximum_jpy = v; state = opened }

grown_all :
    (g : Gate) (p : Provider) (v : ℕ)
    → EachSum
        (λ f. sum_by f (g.reservations ++ held p v ∷ []) ≡ sum_by f g.reservations + f (held p v))
grown_all g p v =
    each_sum
      (λ f. sum_by f (g.reservations ++ held p v ∷ []) ≡ sum_by f g.reservations + f (held p v))
      (λ f. omega (arith, sum_by-append f g.reservations (held p v ∷ [])))

pub hold-IsSound :
    (g : Gate) (p : Provider) (v : ℕ)
    → g.stopped ≡ false
    → g.active ≡ none
    → at g.settled_jpy p + v ≤ limit g.limits p
    → total g.settled_jpy + v ≤ g.limits.total_jpy
    → IsSound g
    → IsSound (hold (returned (p, v)) g).1
hold-IsSound g vertex v running idle fits fits_total h = ground (
  arith,
  get_elem?-append_last g.reservations (held vertex v),
  grown_all g vertex v,
  opened_zero g.reservations,
)
hold-IsSound g bigquery v running idle fits fits_total h = ground (
  arith,
  get_elem?-append_last g.reservations (held bigquery v),
  grown_all g bigquery v,
  opened_zero g.reservations,
)
