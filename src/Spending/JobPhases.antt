-- ===== src/Spending/JobPhases.antt =====
-- The life of a budgeted query job, whatever its caller does with it.
use mathlib.Core.Path.{subst}
use native.Mathlib.Nat.{lt_of_le_of_lt, le_trans}
use repchat.Prelude.{
  leb→le, ℕ, ◌≤◌, ◌<◌, ◌^◌, ◌≡◌, ◌∙◌, refl, sym, ap, inl, inr, Bool, true, false, Option, none,
  some, List, [], ◌∷◌, arith, leb, Bool-cases, get_elem?, if◌then◌else◌,
}
use repchat.Budget.Gate.{
  bigquery, Gate, Ledger, Reservation, Outcome, returned, raised, opened, add, settle, fail,
  abandon, stop_active,
}
use repchat.Budget.Behaviour.{settle_active, Settled, stop_active-Stopped}
use repchat.BigQuery.DryRun.{Reply, count_of}
use repchat.Spending.Ceilings.{byte_cost}
use repchat.Spending.Vertex.{micro_jpy}
use repchat.Spending.Bounds.{byte_cost_mono, amount-micro_jpy}
use repchat.Spending.QueryJob.{
  BudgetedQueryJob, QueryResult, close, give_up_job, done_reply, job_done, job_cancel, billed_cost,
  after_payment, pay, result_reply, job_result,
}

-- One call of a method, with what the client answers to it.
pub data Use : Type 0 where
  use_done : Reply Bool → Use
  use_cancel : Reply (Unit {0}) → Use
  use_result : Bool → Reply QueryResult → Use

-- A job and its gate after a call, and after several.
unfoldable pub use_job : Use → BudgetedQueryJob × Gate → BudgetedQueryJob × Gate
use_job (use_done r) (j, g) = (job_done r j g).1
use_job (use_cancel r) (j, g) = (job_cancel r j g).1
use_job (use_result ok r) (j, g) = (job_result ok r j g).1

unfoldable pub use_jobs : List Use → BudgetedQueryJob × Gate → BudgetedQueryJob × Gate
use_jobs [] s = s
use_jobs (u ∷ us) s = use_jobs us (use_job u s)

-- An open job whose reservation of `v` is the active one of a running gate, and covers the cost of
-- every number of bytes up to its maximum.
pub record IsHeld (before : Ledger) (v : ℕ) (j : BudgetedQueryJob) (g : Gate) : Type 0 where
  pub open_ : j.closed ≡ false
  pub unsettled : j.settled ≡ false
  pub running : g.stopped ≡ false
  pub active : g.active ≡ some j.reservation
  pub object : Reservation
  pub found : get_elem? g.reservations j.reservation ≡ some object
  pub provider : object.provider ≡ bigquery
  pub maximum : object.maximum_jpy ≡ v
  pub fresh : object.state ≡ opened
  pub covers : byte_cost j.rate j.maximum_bytes_billed ≤ v
  pub fits : v < 10 ^ 38
  pub settled_jpy : g.settled_jpy ≡ before

-- A job that is settled: at most `v` was paid, and the gate is free.
pub record IsPaid (before : Ledger) (v : ℕ) (j : BudgetedQueryJob) (g : Gate) : Type 0 where
  pub closed : j.closed ≡ true
  pub settled : j.settled ≡ true
  pub running : g.stopped ≡ false
  pub idle : g.active ≡ none
  pub cost : ℕ
  pub within : cost ≤ v
  pub settled_jpy : g.settled_jpy ≡ add before bigquery cost

-- A job that is given up: nothing was settled, and the gate is stopped.
pub record IsLost (before : Ledger) (v : ℕ) (j : BudgetedQueryJob) (g : Gate) : Type 0 where
  pub closed : j.closed ≡ true
  pub unsettled : j.settled ≡ false
  pub stopped : g.stopped ≡ true
  pub settled_jpy : g.settled_jpy ≡ before

pub data IsInPhase (before : Ledger) (v : ℕ) (s : BudgetedQueryJob × Gate) : Type 0 where
  held : IsHeld before v s.0 s.1 → IsInPhase before v s
  paid : IsPaid before v s.0 s.1 → IsInPhase before v s
  lost : IsLost before v s.0 s.1 → IsInPhase before v s

-- A closed job refuses every call and changes neither itself nor the gate.
use_job-closed :
    (u : Use) (j : BudgetedQueryJob) (g : Gate) → j.closed ≡ true → use_job u (j, g) ≡ (j, g)
unfolding use_job job_done job_cancel job_result
use_job-closed (use_done r) j g h = rw (h, job_done) refl
use_job-closed (use_cancel r) j g h = rw (h, job_cancel) refl
use_job-closed (use_result ok r) j g h = rw (h, job_result) refl

if-false : {A : Type 0} (b : Bool) (x y : A) → b ≡ false → (if b then x else y) ≡ y
if-false true x y h = cc
if-false false x y h = refl

some-injective : (u v : ℕ) → some u ≡ some v → u ≡ v
some-injective u v h = cc

module _ (before : Ledger) (v : ℕ) (j : BudgetedQueryJob) (g : Gate) (h : IsHeld before v j g) where
  -- Failing the reservation returns and stops the gate.
  fail_held : fail j.reservation g ≡ (returned tt, stop_active g)
  unfolding fail stop_active
  fail_held =
      let found = h.found in
      let active = h.active in let fresh = h.fresh in simp found (ground arith)

  lose : IsLost before v (close j) (stop_active g)
  lose =
      let (stopped, _, settled, _, _) =
        stop_active-Stopped g j.reservation h.object h.active h.found in
      record {
        closed = refl;
        unsettled = h.unsettled;
        stopped = stopped;
        settled_jpy = settled ∙ h.settled_jpy;
      }

  give_up_held : (A : Type 0) → IsInPhase before v (give_up_job {A = A} (close j) g).1
  unfolding abandon
  give_up_held A = rw fail_held (lost lose)

  billed_cost-within : (n : Option ℕ) (c : ℕ) → billed_cost (close j) n ≡ some c → c ≤ v
  billed_cost-within none c e = cc
  billed_cost-within (some n) c e = elim (Bool-cases (leb n j.maximum_bytes_billed)) [
    | inl few ↦
        let q : byte_cost j.rate n ≡ c = some-injective (byte_cost j.rate n) c (rw few at e) in
        let few' : n ≤ j.maximum_bytes_billed = leb→le n j.maximum_bytes_billed few in
        rw (← q) (le_trans (byte_cost_mono j.rate n j.maximum_bytes_billed few') h.covers)
    | inr many ↦ absurd (let e' = rw many at e in cc)
  ]

  -- A cost within the maximum is settled.
  after_payment_held :
      (x : QueryResult) (c : ℕ)
      → c ≤ v
      → (y : Outcome (Unit {0}) × Gate) → Settled g j.reservation h.object (some c) y
      → IsInPhase before v (after_payment x y.0 (close j) y.1).1
  after_payment_held x c within (returned u, g') (inl (le, q, running, idle, settled, kept)) =
      paid (record {
        closed = refl;
        settled = refl;
        running = running;
        idle = idle;
        cost = c;
        within = within;
        settled_jpy =
            settled
            ∙ (ap (λ p. add g.settled_jpy p c) h.provider
                ∙ ap (λ (l : Ledger). add l bigquery c) h.settled_jpy);
      })
  after_payment_held x c within (raised e, g') (inl (le, q, _, _, _, _)) =
      absurd (let bad = q in cc)
  after_payment_held x c within y (inr (over, _, _)) = let m = h.maximum in absurd (omega arith)

  pay_held :
      (x : QueryResult) (c : Option ℕ)
      → billed_cost (close j) (count_of x.total_bytes_billed) ≡ c
      → IsInPhase before v (pay x c (close j) g).1
  pay_held x none e = give_up_held QueryResult
  pay_held x (some c) e =
      let within = billed_cost-within (count_of x.total_bytes_billed) c e in
      let s =
        settle_active j.reservation (micro_jpy c) g h.object h.running h.active h.found h.fresh in
      let s' = rw (amount-micro_jpy false c refl (lt_of_le_of_lt within h.fits)) at s in
      after_payment_held x c within (settle j.reservation (micro_jpy c) g) s'

  done_held : (r : Reply Bool) → IsInPhase before v (done_reply r j g).1
  done_held (Reply.answered b) = held h
  done_held (Reply.raised e) = give_up_held Bool

  cancel_held : (r : Reply (Unit {0})) → IsInPhase before v (job_cancel r j g).1
  unfolding job_cancel
  cancel_held r = let open_ = h.open_ in rw (open_, job_cancel) (rw fail_held (lost lose))

  result_held : (r : Reply QueryResult) → IsInPhase before v (result_reply r (close j) g).1
  result_held (Reply.raised e) = give_up_held QueryResult
  result_held (Reply.answered x) = pay_held x _ refl

  use_job_held : (u : Use) → IsInPhase before v (use_job u (j, g))
  unfolding use_job job_done job_result
  use_job_held (use_done r) =
      subst (λ (y : Outcome Bool × (BudgetedQueryJob × Gate)). IsInPhase before v y.1)
        (sym (if-false j.closed _ _ h.open_)) (done_held r)
  use_job_held (use_cancel r) = cancel_held r
  use_job_held (use_result true r) =
      subst (λ (y : Outcome QueryResult × (BudgetedQueryJob × Gate)). IsInPhase before v y.1)
        (sym (if-false j.closed _ _ h.open_)) (result_held r)
  use_job_held (use_result false r) =
      subst (λ (y : Outcome QueryResult × (BudgetedQueryJob × Gate)). IsInPhase before v y.1)
        (sym (if-false j.closed _ _ h.open_)) (give_up_held QueryResult)

use_job-IsInPhase :
    (before : Ledger) (v : ℕ) (u : Use) (s : BudgetedQueryJob × Gate)
    → IsInPhase before v s
    → IsInPhase before v (use_job u s)
use_job-IsInPhase before v u (j, g) (held h) = use_job_held before v j g h u
use_job-IsInPhase before v u (j, g) (paid h) = rw (use_job-closed u j g h.closed) (paid h)
use_job-IsInPhase before v u (j, g) (lost h) = rw (use_job-closed u j g h.closed) (lost h)

-- Whatever sequence of calls the caller makes on a job that holds its reservation, and whatever the
-- client answers, the job is in one of three phases: it is open and holds its reservation with
-- nothing settled; it is closed and settled, at most the reserved amount was settled, once, and the
-- gate is idle and running; or it is closed and not settled, nothing was settled, and the gate is
-- stopped.
pub use_jobs-IsInPhase :
    (before : Ledger) (v : ℕ) (us : List Use) (j : BudgetedQueryJob) (g : Gate)
    → IsHeld before v j g
    → IsInPhase before v (use_jobs us (j, g))
unfolding use_jobs
use_jobs-IsInPhase before v us j g h = all_uses us (j, g) (held h)
  where
    all_uses :
        (ws : List Use) (s : BudgetedQueryJob × Gate)
        → IsInPhase before v s
        → IsInPhase before v (use_jobs ws s)
    all_uses [] s k = k
    all_uses (w ∷ ws) s k = all_uses ws (use_job w s) (use_job-IsInPhase before v w s k)
