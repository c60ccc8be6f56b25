-- ===== src/Meter/Steps.antt =====
-- A sequence of calls that leaves no error has added what its calls were to add.
use repchat.Prelude.{
  ℕ, ◌+◌, ◌-◌, ◌≤◌, ◌≡◌, ◌∙◌, refl, Bool, true, false, not, Option, none, some, List, [], ◌∷◌, ◌++◌,
  arith, bit, count, sum_by, sum_by-append, sum_by-set, sum_by-get, get_elem?, set,
}
use repchat.BigQuery.DryRun.{Value, count_of, answered, raised}
use repchat.Meter.Ledger.{
  Measured, measured, fault, RunLedger, Tokens, response_tokens, add_tokens, record_vertex,
  add_estimate, record_dry_run_job, add_processed, record_query, start_query,
}
use repchat.Meter.Run.{
  ClientCall, generated, dry_run, started, finished, Meter, record_first_result, meter_step,
  meter_steps,
}
use repchat.Meter.Accounted.{
  zero_or, input_of, output_of, estimate_of, is_start, first_results, keep_first, snoc-nil,
}
use repchat.Meter.Complete.{
  Quiet, response_tokens-amount, add_tokens-Quiet, add_estimate-Quiet, record_query-Quiet,
  unrecorded, IsInStep, Accounts, after_call,
}

add_tokens-keeps :
    (q : Measured Tokens) (l : RunLedger)
    → ((add_tokens q l).1.errors ≡ [] → l.errors ≡ [])
      × ((add_tokens q l).1.pending_query_jobs ≡ l.pending_query_jobs)
add_tokens-keeps (fault f) l = ((λ h. absurd (snoc-nil l.errors f h)), refl)
add_tokens-keeps (measured t) l = ((λ h. h), refl)

add_estimate-keeps :
    (n : Option ℕ) (l : RunLedger)
    → ((add_estimate n l).1.errors ≡ [] → l.errors ≡ [])
      × ((add_estimate n l).1.pending_query_jobs ≡ l.pending_query_jobs)
add_estimate-keeps none l = ((λ h. absurd (snoc-nil l.errors _ h)), refl)
add_estimate-keeps (some n) l = ((λ h. h), refl)

record_query-keeps :
    (p b : Option Value) (l : RunLedger)
    → (record_query p b l).1.errors ≡ []
    → (l.errors ≡ []) × ((record_query p b l).1.pending_query_jobs ≡ l.pending_query_jobs - 1)
unfolding record_query
record_query-keeps none b l h = absurd (snoc-nil l.errors _ h)
record_query-keeps (some p) none l h = absurd (snoc-nil l.errors _ h)
record_query-keeps (some p) (some b) l h = bytes_keep (count_of p) (count_of b) h
  where
    bytes_keep :
        (n m : Option ℕ)
        → (add_processed n m l).1.errors ≡ []
        → (l.errors ≡ []) × ((add_processed n m l).1.pending_query_jobs ≡ l.pending_query_jobs - 1)
    bytes_keep none m g = absurd (snoc-nil l.errors _ g)
    bytes_keep (some n) none g = absurd (snoc-nil l.errors _ g)
    bytes_keep (some n) (some m) g = (g, refl)

record_first_result-errors :
    (o : Option Bool) (i : ℕ) (p b : Option Value) (m : Meter)
    → (record_first_result o i p b m).1.ledger.errors ≡ []
    → m.ledger.errors ≡ []
record_first_result-errors none i p b m h = h
record_first_result-errors (some true) i p b m h = h
record_first_result-errors (some false) i p b m h = (record_query-keeps p b m.ledger h).0

meter_step-errors :
    (e : ClientCall) (m : Meter) → (meter_step e m).1.ledger.errors ≡ [] → m.ledger.errors ≡ []
unfolding meter_step record_vertex record_dry_run_job
meter_step-errors (generated (raised e)) m h = absurd (snoc-nil m.ledger.errors _ h)
meter_step-errors (generated (answered r)) m h = (add_tokens-keeps (response_tokens r) m.ledger).0 h
meter_step-errors (dry_run (raised e)) m h = absurd (snoc-nil m.ledger.errors _ h)
meter_step-errors (dry_run (answered v)) m h = (add_estimate-keeps (count_of v) m.ledger).0 h
meter_step-errors (started (raised e)) m h = absurd (snoc-nil m.ledger.errors _ h)
meter_step-errors (started (answered u)) m h = h
meter_step-errors (finished i p b) m h = record_first_result-errors (get_elem? m.jobs i) i p b m h

-- An error stays, whether or not the run goes on after it.
pub meter_steps-errors :
    (es : List ClientCall) (m : Meter)
    → (meter_steps es m).ledger.errors ≡ []
    → m.ledger.errors ≡ []
unfolding meter_steps
meter_steps-errors [] m h = h
meter_steps-errors (e ∷ es) m h = meter_step-errors e m (meter_steps-errors es (meter_step e m).1 h)

start-Quiet : (l : RunLedger) → l.errors ≡ [] → Quiet 0 0 0 [] 1 l (start_query l).1
unfolding Quiet
start-Quiet l h = (
  h,
  record {
    input = omega arith;
    output = omega arith;
    estimate = omega arith;
    processed = omega arith;
    billed = omega arith;
    pending = omega arith;
  },
)

unrecorded-set :
    (jobs : List Bool) (i : ℕ)
    → get_elem? jobs i ≡ some false
    → (1 ≤ unrecorded jobs) × (unrecorded (set jobs i true) ≡ unrecorded jobs - 1)
unrecorded-set jobs i h =
    let some_left = sum_by-get (λ x. bit (not x)) jobs i false h in
    (some_left, omega (arith, some_left, sum_by-set (λ x. bit (not x)) jobs i false true h))

unmoved-Quiet : (l : RunLedger) → l.errors ≡ [] → Quiet 0 0 0 [] 0 l l
unfolding Quiet
unmoved-Quiet l h = (
  h,
  record {
    input = omega arith;
    output = omega arith;
    estimate = omega arith;
    processed = omega arith;
    billed = omega arith;
    pending = refl;
  },
)

-- The result of a job before the rest of the calls, by whether it is the job's first.
finished_lem :
    (es : List ClientCall)
    → ((m : Meter) → IsInStep m → (meter_steps es m).ledger.errors ≡ [] → Accounts es m)
    → (i : ℕ) (p b : Option Value) (m : Meter) → IsInStep m
    → (o : Option Bool) → get_elem? m.jobs i ≡ o
    → (meter_steps es (record_first_result o i p b m).1).ledger.errors ≡ []
    → Quiet
        (0 + sum_by input_of es)
        (0 + sum_by output_of es)
        (0 + sum_by estimate_of es)
        (keep_first o
          (record { processed = p; billed = b })
          (first_results m.jobs es)
          (first_results (set m.jobs i true) es))
        (0 + count is_start es)
        m.ledger
        (meter_steps es (record_first_result o i p b m).1).ledger
      × IsInStep (meter_steps es (record_first_result o i p b m).1)
finished_lem es again i p b m k none e g =
    let (rest, done) = again m k g in
    (
      after_call 0 0 0 0 [] (sum_by input_of es) (sum_by output_of es) (sum_by estimate_of es)
          (count is_start es) (first_results m.jobs es) m.ledger _ _ (unmoved-Quiet m.ledger) rest,
      done,
    )
finished_lem es again i p b m k (some true) e g =
    let (rest, done) = again m k g in
    (
      after_call 0 0 0 0 [] (sum_by input_of es) (sum_by output_of es) (sum_by estimate_of es)
          (count is_start es) (first_results m.jobs es) m.ledger _ _ (unmoved-Quiet m.ledger) rest,
      done,
    )
finished_lem es again i p b m k (some false) e g =
    let (one_left, fewer) = unrecorded-set m.jobs i e in
    let (_, kept) = record_query-keeps p b m.ledger (meter_steps-errors es _ g) in
    let (rest, done) = again _ (omega (arith, k, fewer, kept)) g in
    (
      after_call 0 0 0 0 (record { processed = p; billed = b } ∷ []) (sum_by input_of es)
          (sum_by output_of es) (sum_by estimate_of es) (count is_start es)
          (first_results (set m.jobs i true) es) m.ledger _ _
          (record_query-Quiet p b m.ledger (omega (arith, k, one_left))) rest,
      done,
    )

pub meter_steps-Accounts :
    (es : List ClientCall) (m : Meter)
    → IsInStep m
    → (meter_steps es m).ledger.errors ≡ []
    → Accounts es m
unfolding meter_steps meter_step Quiet first_results input_of output_of estimate_of record_vertex
    record_dry_run_job
meter_steps-Accounts [] m k h = (
  (
    h,
    record {
      input = omega arith;
      output = omega arith;
      estimate = omega arith;
      processed = omega arith;
      billed = omega arith;
      pending = refl;
    },
  ),
  k,
)
meter_steps-Accounts (generated (raised e) ∷ es) m k h =
    absurd (snoc-nil m.ledger.errors _ (meter_steps-errors es _ h))
meter_steps-Accounts (generated (answered r) ∷ es) m k h =
    let (rest, done) =
      meter_steps-Accounts es (meter_step (generated (answered r)) m).1
        ((add_tokens-keeps (response_tokens r) m.ledger).1 ∙ k) h in
    (
      after_call (input_of (generated (answered r))) (output_of (generated (answered r))) 0 0 []
          (sum_by input_of es) (sum_by output_of es) (sum_by estimate_of es) (count is_start es)
          (first_results m.jobs es) m.ledger _ _
          (add_tokens-Quiet (response_tokens r) _ _ m.ledger (response_tokens-amount r)) rest,
      done,
    )
meter_steps-Accounts (dry_run (raised e) ∷ es) m k h =
    absurd (snoc-nil m.ledger.errors _ (meter_steps-errors es _ h))
meter_steps-Accounts (dry_run (answered v) ∷ es) m k h =
    let (rest, done) =
      meter_steps-Accounts es (meter_step (dry_run (answered v)) m).1
        ((add_estimate-keeps (count_of v) m.ledger).1 ∙ k) h in
    (
      after_call 0 0 (zero_or (count_of v)) 0 [] (sum_by input_of es) (sum_by output_of es)
          (sum_by estimate_of es) (count is_start es) (first_results m.jobs es) m.ledger _ _
          (add_estimate-Quiet (count_of v) m.ledger) rest,
      done,
    )
meter_steps-Accounts (started (raised e) ∷ es) m k h =
    absurd (snoc-nil m.ledger.errors _ (meter_steps-errors es _ h))
meter_steps-Accounts (started (answered u) ∷ es) m k h =
    let (rest, done) =
      meter_steps-Accounts es (meter_step (started (answered u)) m).1
        (omega (arith, k, sum_by-append (λ x. bit (not x)) m.jobs (false ∷ []))) h in
    (
      after_call 0 0 0 1 [] (sum_by input_of es) (sum_by output_of es) (sum_by estimate_of es)
          (count is_start es) (first_results (m.jobs ++ false ∷ []) es) m.ledger _ _
          (start-Quiet m.ledger) rest,
      done,
    )
meter_steps-Accounts (finished i p b ∷ es) m k h =
    finished_lem es (λ m' k' h'. meter_steps-Accounts es m' k' h') i p b m k (get_elem? m.jobs i)
      refl h
