-- ===== src/BigQuery/Execution.antt =====
-- `_execute_bq`, by its diagnostics. A time is a number of nanoseconds.
use repchat.Prelude.{
  ℕ, zero, suc, ◌+◌, String, Bool, true, false, Option, none, some, List, leb, if◌then◌else◌,
}
use repchat.Diagnostic.{Code}
use repchat.Outcome.{Row}
use repchat.Pipeline.Attempts.{QueryExecution}
use repchat.BigQuery.Scan.{is_scan_limit}
use repchat.BigQuery.Validation.{Policy, Validated, passed, refused, validate_sql_diagnostic}
use repchat.BigQuery.DryRun.{
  Value, count_of, Exception, Reply, answered, raised, why, JobConfig, Diagnosed,
}

-- One round of the loop, by what its calls answer: `job.done()`, `cancel_event.wait(0.2)` and
-- `time.monotonic()` after it.
pub record Poll : Type 0 where
  pub done : Reply Bool
  pub cancel_requested : Bool
  pub now : ℕ

-- The rows of a result with the names of its columns.
pub record RowIterator : Type 0 where
  pub rows : List Row
  pub names : List String

-- A query job: the time when it was started, what each round of the loop sees, and what its methods
-- answer.
pub record QueryJob : Type 0 where
  pub started : ℕ
  pub polls : ℕ → Poll
  pub cancel : Reply (Unit {0})
  pub result : Option ℕ → Reply RowIterator
  pub total_bytes_processed : Value

-- How the loop ends, if it does before its fuel.
pub data Waited : Type 0 where
  job_done event_set deadline_passed : Waited
  wait_raised : Exception → Waited
  still_waiting : Waited

-- `while not job.done()`, from the round `i` on.
unfoldable pub wait_loop : ℕ → ℕ → (ℕ → Poll) → ℕ → Waited
wait_loop zero deadline polls i = still_waiting
wait_loop (suc fuel) deadline polls i = elim ((polls i).done) [
  | raised e ↦ wait_raised e
  | answered b ↦ elim b [
    | true ↦ job_done
    | false ↦ elim ((polls i).cancel_requested) [
      | true ↦ event_set
      | false ↦ elim (leb deadline (polls i).now) [
        | true ↦ deadline_passed
        | false ↦ wait_loop fuel deadline polls (suc i)
      ]
    ]
  ]
]

-- What `_execute_bq` returns, unless its loop still runs.
pub data Execution : Type 0 where
  ended : Diagnosed QueryExecution → Execution
  waiting : Execution

abbrev pub refuse : Code → Diagnosed QueryExecution
refuse k = (none, some k)

-- The `except` block.
unfoldable pub execution_failure : Exception → Diagnosed QueryExecution
execution_failure e =
    if is_scan_limit (why e)
    then refuse Code.execution_scan_limit_exceeded
    else refuse Code.execution_provider_failure

abbrev pub read_rows : Reply RowIterator → Option ℕ → Diagnosed QueryExecution
read_rows (raised e) n = execution_failure e
read_rows (answered it) none = refuse Code.execution_bytes_missing
read_rows (answered it) (some n) =
    (some (record { rows = it.rows; columns = it.names; bytes_processed = n }), none)

-- From `job.result` on.
abbrev pub read_job : QueryJob → Option ℕ → Diagnosed QueryExecution
read_job j limit = read_rows (j.result limit) (count_of j.total_bytes_processed)

-- `job.cancel()` and the diagnostic after it.
abbrev pub cancel_job : Reply (Unit {0}) → Code → Diagnosed QueryExecution
cancel_job (raised e) k = execution_failure e
cancel_job (answered u) k = refuse k

abbrev pub after_wait : QueryJob → Option ℕ → Waited → Execution
after_wait j limit job_done = ended (read_job j limit)
after_wait j limit event_set = ended (cancel_job j.cancel Code.execution_cancelled)
after_wait j limit deadline_passed = ended (cancel_job j.cancel Code.execution_timeout)
after_wait j limit (wait_raised e) = ended (execution_failure e)
after_wait j limit still_waiting = waiting

-- The seconds of the deadline over those of one wait.
abbrev pub rounds : ℕ
rounds = 900

abbrev pub timeout : ℕ
timeout = 180000000000

-- What follows a query that is sent without a `cancel_event`.
abbrev pub read_reply : Reply QueryJob → Option ℕ → Diagnosed QueryExecution
read_reply (raised e) limit = execution_failure e
read_reply (answered j) limit = read_job j limit

-- The same with a `cancel_event`.
abbrev pub await_reply : Reply QueryJob → Option ℕ → Execution
await_reply (raised e) limit = ended (execution_failure e)
await_reply (answered j) limit =
    after_wait j limit (wait_loop rounds (j.started + timeout) j.polls 0)

abbrev pub execution_config : Policy → JobConfig
execution_config p = record {
  dry_run = false;
  maximum_bytes_billed = p.maximum_bytes_billed;
  use_query_cache = true;
}

abbrev Query : Type 0
Query = String → JobConfig → Reply QueryJob

abbrev pub read_checked : Query → Validated String → Option ℕ → Policy → Diagnosed QueryExecution
read_checked query (refused k) limit p = refuse k
read_checked query (passed s) limit p = read_reply (query s (execution_config p)) limit

abbrev pub await_checked : Query → Validated String → Option ℕ → Policy → Execution
await_checked query (refused k) limit p = ended (refuse k)
await_checked query (passed s) limit p = await_reply (query s (execution_config p)) limit

module _ (wide_word : ℕ → Bool) (contract_error : String → Policy → Bool) where
  -- `execute_bq_diagnostic(bq, sql, max_results, policy=policy)`
  unfoldable pub execute_bq_diagnostic :
      Query → String → Option ℕ → Option Policy → Diagnosed QueryExecution
  execute_bq_diagnostic query sql limit none = refuse Code.analysis_contract_required
  execute_bq_diagnostic query sql limit (some p) =
      read_checked query (validate_sql_diagnostic wide_word contract_error sql (some p)) limit p

  -- `execute_bq_diagnostic(bq, sql, max_results, cancel_event, policy=policy)`
  unfoldable pub execute_cancellable : Query → String → Option ℕ → Option Policy → Execution
  execute_cancellable query sql limit none = ended (refuse Code.analysis_contract_required)
  execute_cancellable query sql limit (some p) =
      await_checked query (validate_sql_diagnostic wide_word contract_error sql (some p)) limit p
