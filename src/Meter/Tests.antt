-- ===== src/Meter/Tests.antt =====
-- A run that is measured and one that is not, and the theorems at them.
use repchat.Prelude.{◌≡◌, ◌≢◌, refl, false, Option, none, some, List, [], ◌∷◌, ◌++◌, ◌+◌}
use repchat.BigQuery.DryRun.{Value, integer, answered}
use repchat.Pipeline.Boundary.{Number, non_negative}
use repchat.Meter.Ledger.{
  vertex_inconsistent, measured, fault, Metadata, response_tokens, record_vertex,
  record_dry_run_job, record_query, RuntimeUsage, usage_of_ledger, job_incomplete,
}
use repchat.Meter.Run.{
  ClientCall, generated, dry_run, started, finished, meter_step, meter_steps, new_meter, measure,
}
use repchat.Meter.Metered.{IsAccounted, measure-IsAccounted, measure-fault}

abbrev metadata : Option Value → Metadata
metadata total = record {
  prompt_token_count = some (integer 100);
  candidates_token_count = some (integer 20);
  thoughts_token_count = some (integer 30);
  tool_use_prompt_token_count = none;
  total_token_count = total;
}

abbrev cost_jpy : RuntimeUsage → Number
cost_jpy u = non_negative (u.vertex_input_tokens + u.vertex_output_tokens + u.bigquery_bytes_billed)

-- The result of the job is read twice.
abbrev events : List ClientCall
events =
    generated (answered (some (metadata (some (integer 150)))))
    ∷ dry_run (answered (integer 9))
    ∷ started (answered tt)
    ∷ finished 0 (some (integer 9)) (some (integer 10))
    ∷ finished 0 (some (integer 9)) (some (integer 10))
    ∷ generated (answered (some (metadata none)))
    ∷ []

run_is_measured :
    measure cost_jpy false events false ≡ measured (record { bytes_processed = 9; cost_jpy = 310 })
unfolding measure meter_steps meter_step response_tokens record_vertex record_dry_run_job
    record_query usage_of_ledger
run_is_measured = refl

measure-IsAccounted_example :
    IsAccounted cost_jpy events (record { bytes_processed = 9; cost_jpy = 310 })
measure-IsAccounted_example =
    measure-IsAccounted cost_jpy false events false (record { bytes_processed = 9; cost_jpy = 310 })
      run_is_measured

-- A query whose result is not read.
job_without_result :
    measure cost_jpy false (started (answered tt) ∷ []) false ≡ fault job_incomplete
unfolding measure meter_steps meter_step usage_of_ledger
job_without_result = refl

abbrev inconsistent : ClientCall
inconsistent = generated (answered (some (metadata (some (integer 151)))))

inconsistent_raises :
    (meter_step inconsistent (meter_steps events new_meter)).0 ≡ fault vertex_inconsistent
unfolding meter_steps meter_step response_tokens record_vertex record_dry_run_job record_query
inconsistent_raises = refl

measure-fault_example :
    measure cost_jpy false (events ++ inconsistent ∷ events) false
    ≢ measured (record { bytes_processed = 18; cost_jpy = 620 })
measure-fault_example =
    measure-fault cost_jpy false events events inconsistent false vertex_inconsistent
      (record { bytes_processed = 18; cost_jpy = 620 }) inconsistent_raises
