-- ===== src/BigQuery/Wait.antt =====
-- The polling loop of `_execute_bq` ends, and what `_execute_bq` then returns.
use repchat.Prelude.{
  ℕ, zero, suc, ◌+◌, ◌*◌, ◌≤◌, String, ◌≡◌, ◌≢◌, ◌⊎◌, inl, inr, refl, Bool, true, false, Option,
  none, some, arith, leb, Bool-cases,
}
use repchat.Diagnostic.{Code}
use repchat.Pipeline.Attempts.{QueryExecution}
use repchat.BigQuery.Scan.{is_scan_limit}
use repchat.BigQuery.Validation.{Policy, Validated, passed, refused, validate_sql_diagnostic}
use repchat.BigQuery.DryRun.{Exception, Reply, answered, raised, why, JobConfig, Diagnosed}
use repchat.BigQuery.Execution.{
  Poll, QueryJob, RowIterator, Waited, job_done, event_set, deadline_passed, wait_raised,
  still_waiting, wait_loop, Execution, ended, execution_failure, read_rows, cancel_job, after_wait,
  rounds, timeout, await_reply, await_checked, execute_cancellable,
}

-- The time before a round: that of the start, or of the round before it.
abbrev pub time_before : ℕ → (ℕ → Poll) → ℕ → ℕ
time_before start polls zero = start
time_before start polls (suc i) = (polls i).now

-- `cancel_event.wait(0.2)` returns false only when the 0.2 seconds have passed.
abbrev pub IsPaced : ℕ → (ℕ → Poll) → Type 0
IsPaced start polls =
    (i : ℕ)
    → (polls i).cancel_requested ≡ false
    → time_before start polls i + 200000000 ≤ (polls i).now

Reply-cases :
    (a : Reply Bool)
    → ((e : Exception) × (a ≡ raised e)) ⊎ ((a ≡ answered true) ⊎ (a ≡ answered false))
Reply-cases (raised e) = inl (e, refl)
Reply-cases (answered true) = inr (inl refl)
Reply-cases (answered false) = inr (inr refl)

-- A round ends the loop unless the wait is over before the deadline.
round-ends :
    (polls : ℕ → Poll) (fuel i deadline : ℕ)
    → ((polls i).cancel_requested ≡ false
        → leb deadline (polls i).now ≡ false
        → wait_loop fuel deadline polls (suc i) ≢ still_waiting)
    → wait_loop (suc fuel) deadline polls i ≢ still_waiting
unfolding wait_loop
round-ends polls fuel i deadline next = elim (Reply-cases ((polls i).done)) [
  | inl (e, k) ↦ rw (k, wait_loop) (λ q. cc)
  | inr (inl k) ↦ rw (k, wait_loop) (λ q. cc)
  | inr (inr k) ↦
      rw (k, wait_loop)
        (elim (Bool-cases (polls i).cancel_requested) [
          | inl c ↦ rw c (λ q. cc)
          | inr c ↦ rw c (elim (Bool-cases (leb deadline (polls i).now)) [
            | inl l ↦ rw l (λ q. cc)
            | inr l ↦ rw l (next c l)
          ])
        ])
]

module _ (start : ℕ) (polls : ℕ → Poll) (paced : IsPaced start polls) where
  -- Each round that goes on leaves less time than it takes.
  wait_loop-ends :
      (n i deadline : ℕ)
      → deadline ≤ time_before start polls i + suc n * 200000000
      → wait_loop (suc n) deadline polls i ≢ still_waiting
  wait_loop-ends zero i deadline h =
      round-ends polls zero i deadline (λ c l. let p = paced i c in absurd (ground arith))
  wait_loop-ends (suc n) i deadline h =
      round-ends polls (suc n) i deadline
        (λ c l. let p = paced i c in wait_loop-ends n (suc i) deadline (omega arith))

-- Where the waits take their time, 900 rounds are enough for the loop to end.
wait_loop-enough :
    (j : QueryJob)
    → IsPaced j.started j.polls
    → wait_loop rounds (j.started + timeout) j.polls 0 ≢ still_waiting
wait_loop-enough j paced =
    wait_loop-ends j.started j.polls paced 899 0 (j.started + timeout) (omega arith)

-- One of the two: the execution, or the refusal by a code.
pub data IsSettled : Diagnosed QueryExecution → Type 0 where
  executed : (x : QueryExecution) → IsSettled (some x, none)
  refused_by : (k : Code) → IsSettled (none, some k)

execution_failure-IsSettled : (e : Exception) → IsSettled (execution_failure e)
unfolding execution_failure
execution_failure-IsSettled e = elim (Bool-cases (is_scan_limit (why e))) [
  | inl k ↦ rw k (IsSettled.refused_by _)
  | inr k ↦ rw k (IsSettled.refused_by _)
]

read_rows-IsSettled : (a : Reply RowIterator) (n : Option ℕ) → IsSettled (read_rows a n)
read_rows-IsSettled (raised e) n = execution_failure-IsSettled e
read_rows-IsSettled (answered it) none = IsSettled.refused_by _
read_rows-IsSettled (answered it) (some n) = IsSettled.executed _

cancel_job-IsSettled : (a : Reply (Unit {0})) (k : Code) → IsSettled (cancel_job a k)
cancel_job-IsSettled (raised e) k = execution_failure-IsSettled e
cancel_job-IsSettled (answered u) k = IsSettled.refused_by k

-- It has ended, with one of the two.
abbrev pub Ends : Execution → Type 0
Ends x = (o : Diagnosed QueryExecution) × (x ≡ ended o) × IsSettled o

after_wait-Ends :
    (j : QueryJob) (limit : Option ℕ) (w : Waited) → w ≢ still_waiting → Ends (after_wait j limit w)
after_wait-Ends j limit job_done h = (_, refl, read_rows-IsSettled (j.result limit) _)
after_wait-Ends j limit event_set h = (_, refl, cancel_job-IsSettled j.cancel _)
after_wait-Ends j limit deadline_passed h = (_, refl, cancel_job-IsSettled j.cancel _)
after_wait-Ends j limit (wait_raised e) h = (_, refl, execution_failure-IsSettled e)
after_wait-Ends j limit still_waiting h = absurd (h refl)

-- Every job that a client answers with has waits that take their time.
abbrev pub HasPacedJobs : (String → JobConfig → Reply QueryJob) → Type 0
HasPacedJobs query =
    (s : String) (c : JobConfig) (j : QueryJob) → query s c ≡ answered j → IsPaced j.started j.polls

await_reply-Ends :
    (a : Reply QueryJob) (limit : Option ℕ)
    → ((j : QueryJob) → a ≡ answered j → IsPaced j.started j.polls)
    → Ends (await_reply a limit)
await_reply-Ends (raised e) limit h = (_, refl, execution_failure-IsSettled e)
await_reply-Ends (answered j) limit h = after_wait-Ends j limit _ (wait_loop-enough j (h j refl))

await_checked-Ends :
    (query : String → JobConfig → Reply QueryJob) (c : Validated String) (limit : Option ℕ)
    (p : Policy)
    → HasPacedJobs query
    → Ends (await_checked query c limit p)
await_checked-Ends query (refused k) limit p h = (_, refl, IsSettled.refused_by k)
await_checked-Ends query (passed s) limit p h = await_reply-Ends (query s _) limit (h s _)

-- An execution with a cancel event comes to an end, whatever the job and the event do, where a wait
-- that is not cut short by the event takes its 0.2 seconds; it returns either the execution or one
-- diagnostic.
pub execute_cancellable-Ends :
    (wide_word : ℕ → Bool) (contract_error : String → Policy → Bool)
    (query : String → JobConfig → Reply QueryJob) (sql : String) (limit : Option ℕ)
    (p : Option Policy)
    → HasPacedJobs query
    → Ends (execute_cancellable wide_word contract_error query sql limit p)
unfolding execute_cancellable
execute_cancellable-Ends w c query sql limit none h = (_, refl, IsSettled.refused_by _)
execute_cancellable-Ends w c query sql limit (some p) h =
    await_checked-Ends query (validate_sql_diagnostic w c sql (some p)) limit p h
