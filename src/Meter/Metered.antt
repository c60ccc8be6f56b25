-- ===== src/Meter/Metered.antt =====
-- What `RuntimeMeter` returns, and that it forgets no fault.
use mathlib.Core.Path.{subst}
use repchat.Prelude.{
  ℕ, ◌≡◌, ◌≢◌, refl, sym, inl, inr, Bool, true, false, Option, none, some, List, [], ◌∷◌, ◌++◌,
  arith, ◌==◌, count, sum_by, length, get_elem?, Bool-cases,
}
use repchat.BigQuery.DryRun.{Value, count_of, answered, raised}
use repchat.Pipeline.Boundary.{Number, non_negative, other_number}
use repchat.Pipeline.Recording.{Measurement}
use repchat.Meter.Ledger.{
  MeterFault, Measured, measured, fault, RunLedger, Tokens, response_tokens, add_tokens,
  record_vertex, add_estimate, record_dry_run_job, add_processed, record_query, RuntimeUsage,
  usage_of, usage_without, usage_of_ledger,
}
use repchat.Meter.Run.{
  ClientCall, generated, dry_run, started, finished, Meter, record_first_result, meter_step,
  meter_steps, new_meter, with_cost, with_usage, measure,
}
use repchat.Meter.Accounted.{
  input_of, output_of, estimate_of, is_start, first_results, processed_of, billed_of, snoc-nil,
}
use repchat.Meter.Complete.{Quiet}
use repchat.Meter.Steps.{meter_steps-errors, meter_steps-Accounts}

-- A measurement that accounts for every call of its run.
pub record IsAccounted (cost_jpy : RuntimeUsage → Number) (events : List ClientCall)
    (r : Measurement) : Type 0 where
  pub used : RuntimeUsage
  pub input : used.vertex_input_tokens ≡ sum_by input_of events
  pub output : used.vertex_output_tokens ≡ sum_by output_of events
  pub estimate : used.bigquery_dry_run_estimated_bytes ≡ sum_by estimate_of events
  pub processed : used.bigquery_bytes_processed ≡ sum_by processed_of (first_results [] events)
  pub billed : used.bigquery_bytes_billed ≡ sum_by billed_of (first_results [] events)
  pub every_job : length (first_results [] events) ≡ count is_start events
  pub cost : cost_jpy used ≡ non_negative r.cost_jpy
  pub bytes : r.bytes_processed ≡ used.bigquery_bytes_processed

usage_without-measured :
    (es : List MeterFault) (l : RunLedger) (u : RuntimeUsage)
    → usage_without es l ≡ measured u
    → (es ≡ []) × (l.pending_query_jobs ≡ 0) × (u ≡ usage_of l)
usage_without-measured (f ∷ fs) l u h = cc
usage_without-measured [] l u h = elim (Bool-cases (l.pending_query_jobs == 0)) [
  | inl e ↦ (refl, ground arith, sym (measured-injective (usage_of l) u (simp e at h)))
  | inr e ↦ absurd (let h' = simp e at h in cc)
]
  where
    measured-injective : (v w : RuntimeUsage) → measured v ≡ measured w → v ≡ w
    measured-injective v w k = cc

with_cost-measured :
    (u : RuntimeUsage) (n : Number) (r : Measurement)
    → with_cost u n ≡ measured r
    → (n ≡ non_negative r.cost_jpy) × (r.bytes_processed ≡ u.bigquery_bytes_processed)
with_cost-measured u other_number r h = cc
with_cost-measured u (non_negative c) r h =
    let q : record { bytes_processed = u.bigquery_bytes_processed; cost_jpy = c } ≡ r = cc in
    rw (← q) (refl, refl)

with_usage-IsAccounted :
    (cost_jpy : RuntimeUsage → Number) (events : List ClientCall) (q : Measured RuntimeUsage)
    (r : Measurement)
    → usage_of_ledger (meter_steps events new_meter).ledger ≡ q
    → with_usage cost_jpy q ≡ measured r
    → IsAccounted cost_jpy events r
unfolding usage_of_ledger Quiet
with_usage-IsAccounted cost_jpy events (fault f) r e h = cc
with_usage-IsAccounted cost_jpy events (measured u) r e h =
    let (clean, none_left, same) =
      usage_without-measured (meter_steps events new_meter).ledger.errors
        (meter_steps events new_meter).ledger u e in
    let ((_, adds), _) = meter_steps-Accounts events new_meter refl clean in
    let (cost, bytes) = with_cost-measured u (cost_jpy u) r h in
    record {
      used = u;
      input = rw same (omega (arith, adds.input));
      output = rw same (omega (arith, adds.output));
      estimate = rw same (omega (arith, adds.estimate));
      processed = rw same (omega (arith, adds.processed));
      billed = rw same (omega (arith, adds.billed));
      every_job = omega (arith, adds.pending, none_left);
      cost = cost;
      bytes = bytes;
    }

-- Where a run is measured, whatever it swallowed, the usage that its cost is taken of is complete:
-- the tokens are the sums over all responses, the estimate the sum over all dry runs, the bytes the
-- sums over the first results of the jobs, and each query that started has had a result.
pub measure-IsAccounted :
    (cost_jpy : RuntimeUsage → Number) (active : Bool) (events : List ClientCall) (raises : Bool)
    (r : Measurement)
    → measure cost_jpy active events raises ≡ measured r
    → IsAccounted cost_jpy events r
unfolding measure
measure-IsAccounted cost_jpy true events raises r h = cc
measure-IsAccounted cost_jpy false events true r h = cc
measure-IsAccounted cost_jpy false events false r h =
    with_usage-IsAccounted cost_jpy events (usage_of_ledger (meter_steps events new_meter).ledger) r
      refl h

meter_steps-append :
    (es fs : List ClientCall) (m : Meter)
    → meter_steps (es ++ fs) m ≡ meter_steps fs (meter_steps es m)
unfolding meter_steps
meter_steps-append [] fs m = refl
meter_steps-append (e ∷ es) fs m = meter_steps-append es fs (meter_step e m).1

add_tokens-fault :
    (q : Measured Tokens) (l : RunLedger) (f : MeterFault)
    → (add_tokens q l).0 ≡ fault f
    → (add_tokens q l).1.errors ≢ []
add_tokens-fault (fault g) l f h = snoc-nil l.errors g
add_tokens-fault (measured t) l f h = cc

add_estimate-fault :
    (n : Option ℕ) (l : RunLedger) (f : MeterFault)
    → (add_estimate n l).0 ≡ fault f
    → (add_estimate n l).1.errors ≢ []
add_estimate-fault none l f h = snoc-nil l.errors _
add_estimate-fault (some n) l f h = cc

add_processed-fault :
    (n m : Option ℕ) (l : RunLedger) (f : MeterFault)
    → (add_processed n m l).0 ≡ fault f
    → (add_processed n m l).1.errors ≢ []
add_processed-fault none m l f h = snoc-nil l.errors _
add_processed-fault (some n) none l f h = snoc-nil l.errors _
add_processed-fault (some n) (some m) l f h = cc

record_query-fault :
    (p b : Option Value) (l : RunLedger) (f : MeterFault)
    → (record_query p b l).0 ≡ fault f
    → (record_query p b l).1.errors ≢ []
unfolding record_query
record_query-fault none b l f h = snoc-nil l.errors _
record_query-fault (some p) none l f h = snoc-nil l.errors _
record_query-fault (some p) (some b) l f h = add_processed-fault (count_of p) (count_of b) l f h

record_first_result-fault :
    (o : Option Bool) (i : ℕ) (p b : Option Value) (m : Meter) (f : MeterFault)
    → (record_first_result o i p b m).0 ≡ fault f
    → (record_first_result o i p b m).1.ledger.errors ≢ []
record_first_result-fault none i p b m f h = cc
record_first_result-fault (some true) i p b m f h = cc
record_first_result-fault (some false) i p b m f h = record_query-fault p b m.ledger f h

meter_step-fault :
    (e : ClientCall) (m : Meter) (f : MeterFault)
    → (meter_step e m).0 ≡ fault f
    → (meter_step e m).1.ledger.errors ≢ []
unfolding meter_step record_vertex record_dry_run_job
meter_step-fault (generated (raised x)) m f h = snoc-nil m.ledger.errors _
meter_step-fault (generated (answered r)) m f h = add_tokens-fault (response_tokens r) m.ledger f h
meter_step-fault (dry_run (raised x)) m f h = snoc-nil m.ledger.errors _
meter_step-fault (dry_run (answered v)) m f h = add_estimate-fault (count_of v) m.ledger f h
meter_step-fault (started (raised x)) m f h = snoc-nil m.ledger.errors _
meter_step-fault (started (answered u)) m f h = cc
meter_step-fault (finished i p b) m f h = record_first_result-fault (get_elem? m.jobs i) i p b m f h

with_usage-clean :
    (cost_jpy : RuntimeUsage → Number) (l : RunLedger) (q : Measured RuntimeUsage) (r : Measurement)
    → usage_of_ledger l ≡ q
    → with_usage cost_jpy q ≡ measured r
    → l.errors ≡ []
unfolding usage_of_ledger
with_usage-clean cost_jpy l (fault f) r e h = cc
with_usage-clean cost_jpy l (measured u) r e h = (usage_without-measured l.errors l u e).0

measure-clean :
    (cost_jpy : RuntimeUsage → Number) (active : Bool) (events : List ClientCall) (raises : Bool)
    (r : Measurement)
    → measure cost_jpy active events raises ≡ measured r
    → (meter_steps events new_meter).ledger.errors ≡ []
unfolding measure
measure-clean cost_jpy true events raises r h = cc
measure-clean cost_jpy false events true r h = cc
measure-clean cost_jpy false events false r h =
    with_usage-clean cost_jpy (meter_steps events new_meter).ledger _ r refl h

after_steps :
    (e : ClientCall) (fs : List ClientCall) (m : Meter)
    → (meter_steps (e ∷ fs) m).ledger.errors ≡ []
    → (meter_step e m).1.ledger.errors ≡ []
unfolding meter_steps
after_steps e fs m h = meter_steps-errors fs (meter_step e m).1 h

-- A run in which one call raises a fault of the meter is not measured, whatever came before the
-- call, whether the run swallowed the fault, and whatever it did after it.
pub measure-fault :
    (cost_jpy : RuntimeUsage → Number) (active : Bool) (es fs : List ClientCall) (e : ClientCall)
    (raises : Bool) (f : MeterFault) (r : Measurement)
    → (meter_step e (meter_steps es new_meter)).0 ≡ fault f
    → measure cost_jpy active (es ++ e ∷ fs) raises ≢ measured r
measure-fault cost_jpy active es fs e raises f r h k =
    let clean =
      subst (λ (m : Meter). m.ledger.errors ≡ []) (meter_steps-append es (e ∷ fs) new_meter)
        (measure-clean cost_jpy active (es ++ e ∷ fs) raises r k) in
    meter_step-fault e (meter_steps es new_meter) f h
      (after_steps e fs (meter_steps es new_meter) clean)
