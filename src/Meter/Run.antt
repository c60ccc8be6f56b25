-- ===== src/Meter/Run.antt =====
-- The measured clients and `RuntimeMeter`. A job is a number, the place of its `_recorded` flag in
-- the list of the jobs of the run.
use repchat.Prelude.{
  ℕ, Bool, true, false, Option, some, List, [], ◌∷◌, ◌++◌, get_elem?, set, if◌then◌else◌,
}
use repchat.BigQuery.DryRun.{Value, Reply, answered, raised}
use repchat.Pipeline.Boundary.{Number, non_negative, other_number}
use repchat.Pipeline.Recording.{Measurement}
use repchat.Meter.Ledger.{
  vertex_unmeasured, query_unmeasured, overlapping_runs, cost_not_finite, run_raised, Measured,
  measured, fault, RunLedger, LedgerAction, new_ledger, fail_ledger, Metadata, record_vertex,
  record_dry_run_job, record_query, start_query, RuntimeUsage, usage_of_ledger,
}

-- A call on the measured clients, with what the client answers: a generation with the response's
-- metadata, a dry run with its bytes, a query that starts, and the result of a job, whatever it
-- answers or raises, with the job's bytes processed and billed after it.
pub data ClientCall : Type 0 where
  generated : Reply (Option Metadata) → ClientCall
  dry_run : Reply Value → ClientCall
  started : Reply (Unit {0}) → ClientCall
  finished : ℕ → Option Value → Option Value → ClientCall

pub record Meter : Type 0 where
  pub ledger : RunLedger
  pub jobs : List Bool

abbrev pub MeterAction : Type 0
MeterAction = Meter → Measured (Unit {0}) × Meter

-- An action on the ledger of a meter.
abbrev pub on_ledger : LedgerAction → MeterAction
on_ledger a m = let (q, l) = a m.ledger in (q, record m { ledger = l })

abbrev pub record_first_result : Option Bool → ℕ → Option Value → Option Value → MeterAction
record_first_result (some false) i p b m =
    let (q, l) = record_query p b m.ledger in (q, record { ledger = l; jobs = set m.jobs i true })
record_first_result _ i p b m = (measured tt, m)

-- One call.
unfoldable pub meter_step : ClientCall → MeterAction
meter_step (generated (raised e)) m = on_ledger (fail_ledger vertex_unmeasured) m
meter_step (generated (answered r)) m = on_ledger (record_vertex r) m
meter_step (dry_run (raised e)) m = on_ledger (fail_ledger query_unmeasured) m
meter_step (dry_run (answered v)) m = on_ledger (record_dry_run_job v) m
meter_step (started (raised e)) m = on_ledger (fail_ledger query_unmeasured) m
meter_step (started (answered u)) m =
    let (q, l) = start_query m.ledger in (q, record { ledger = l; jobs = m.jobs ++ false ∷ [] })
meter_step (finished i p b) m = record_first_result (get_elem? m.jobs i) i p b m

-- The calls of a run, which may swallow what they raise.
unfoldable pub meter_steps : List ClientCall → Meter → Meter
meter_steps [] m = m
meter_steps (e ∷ es) m = meter_steps es (meter_step e m).1

abbrev pub new_meter : Meter
new_meter = record { ledger = new_ledger; jobs = [] }

abbrev pub with_cost : RuntimeUsage → Number → Measured Measurement
with_cost u other_number = fault cost_not_finite
with_cost u (non_negative c) =
    measured (record { bytes_processed = u.bigquery_bytes_processed; cost_jpy = c })

abbrev pub with_usage : (RuntimeUsage → Number) → Measured RuntimeUsage → Measured Measurement
with_usage cost_jpy (fault f) = fault f
with_usage cost_jpy (measured u) = with_cost u (cost_jpy u)

-- `RuntimeMeter.__call__`: whether a run is active, the calls that `execute()` makes, and whether it
-- raises in the end.
unfoldable pub measure :
    (RuntimeUsage → Number) → Bool → List ClientCall → Bool → Measured Measurement
measure cost_jpy active events raises =
    if active
    then fault overlapping_runs
    else if raises
    then fault run_raised
    else with_usage cost_jpy (usage_of_ledger (meter_steps events new_meter).ledger)
