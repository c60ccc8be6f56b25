-- ===== src/Meter/Ledger.antt =====
-- `_RunLedger`. A method takes the ledger and returns its outcome with the new ledger.
use repchat.Prelude.{ℕ, ◌+◌, ◌-◌, Option, none, some, List, [], ◌∷◌, ◌++◌, ◌==◌, if◌then◌else◌}
use repchat.BigQuery.DryRun.{Value, count_of}

-- The messages of `RuntimeMeasurementError`, and an exception of the measured run.
pub data MeterFault : Type 0 where
  vertex_incomplete vertex_invalid vertex_inconsistent vertex_unmeasured : MeterFault
  dry_run_incomplete query_incomplete query_invalid query_unmeasured : MeterFault
  job_incomplete overlapping_runs cost_not_finite run_raised : MeterFault

pub data Measured (A : Type 0) : Type 0 where
  measured : A → Measured A
  fault : MeterFault → Measured A

pub record RunLedger : Type 0 where
  pub vertex_input_tokens : ℕ
  pub vertex_output_tokens : ℕ
  pub bigquery_bytes_processed : ℕ
  pub bigquery_bytes_billed : ℕ
  pub bigquery_dry_run_estimated_bytes : ℕ
  pub pending_query_jobs : ℕ
  pub errors : List MeterFault

abbrev pub LedgerAction : Type 0
LedgerAction = RunLedger → Measured (Unit {0}) × RunLedger

-- `_RunLedger()`
abbrev pub new_ledger : RunLedger
new_ledger = record {
  vertex_input_tokens = 0;
  vertex_output_tokens = 0;
  bigquery_bytes_processed = 0;
  bigquery_bytes_billed = 0;
  bigquery_dry_run_estimated_bytes = 0;
  pending_query_jobs = 0;
  errors = [];
}

-- `fail(message)`
abbrev pub fail_ledger : MeterFault → LedgerAction
fail_ledger f l = (fault f, record l { errors = l.errors ++ f ∷ [] })

-- `usage_metadata`: the two counts that have to be there are `none` where the attribute is missing;
-- each of the others is `none` where it is missing or `None`.
pub record Metadata : Type 0 where
  pub prompt_token_count : Option Value
  pub candidates_token_count : Option Value
  pub thoughts_token_count : Option Value
  pub tool_use_prompt_token_count : Option Value
  pub total_token_count : Option Value

-- The tokens that a response adds.
pub record Tokens : Type 0 where
  pub input : ℕ
  pub output : ℕ

-- `optional_count`
abbrev pub optional_count : Option Value → Option ℕ
optional_count none = some 0
optional_count (some v) = count_of v

abbrev pub check_sum : Tokens → ℕ → Option ℕ → Measured Tokens
check_sum t n none = fault vertex_invalid
check_sum t n (some m) = if m == n then measured t else fault vertex_inconsistent

abbrev pub check_token_total : Tokens → ℕ → Option Value → Measured Tokens
check_token_total t n none = measured t
check_token_total t n (some v) = check_sum t n (count_of v)

abbrev pub check_counts : Option ℕ → Option ℕ → Option ℕ → Option ℕ → Option Value → Measured Tokens
check_counts (some prompt) (some candidates) (some thoughts) (some tool_prompt) total =
    check_token_total (record { input = prompt + tool_prompt; output = candidates + thoughts })
      (prompt + candidates + thoughts + tool_prompt) total
check_counts _ _ _ _ total = fault vertex_invalid

abbrev pub check_present : Option Value → Option Value → Metadata → Measured Tokens
check_present (some p) (some c) m =
    check_counts (count_of p) (count_of c) (optional_count m.thoughts_token_count)
      (optional_count m.tool_use_prompt_token_count) m.total_token_count
check_present _ _ m = fault vertex_incomplete

-- The tokens that `record_vertex` reads, or its fault.
unfoldable pub response_tokens : Option Metadata → Measured Tokens
response_tokens none = fault vertex_incomplete
response_tokens (some m) = check_present m.prompt_token_count m.candidates_token_count m

abbrev pub add_tokens : Measured Tokens → LedgerAction
add_tokens (fault f) l = fail_ledger f l
add_tokens (measured t) l = (
  measured tt,
  record l {
    vertex_input_tokens = l.vertex_input_tokens + t.input;
    vertex_output_tokens = l.vertex_output_tokens + t.output;
  },
)

-- `record_vertex(response)`
unfoldable pub record_vertex : Option Metadata → LedgerAction
record_vertex m l = add_tokens (response_tokens m) l

abbrev pub add_estimate : Option ℕ → LedgerAction
add_estimate none l = fail_ledger dry_run_incomplete l
add_estimate (some n) l = (
  measured tt,
  record l { bigquery_dry_run_estimated_bytes = l.bigquery_dry_run_estimated_bytes + n },
)

-- `record_dry_run_job(job)`
unfoldable pub record_dry_run_job : Value → LedgerAction
record_dry_run_job v l = add_estimate (count_of v) l

abbrev pub add_billed : Option ℕ → LedgerAction
add_billed none l = fail_ledger query_invalid l
add_billed (some n) l = (
  measured tt,
  record l {
    bigquery_bytes_billed = l.bigquery_bytes_billed + n;
    pending_query_jobs = l.pending_query_jobs - 1;
  },
)

abbrev pub add_processed : Option ℕ → Option ℕ → LedgerAction
add_processed none billed l = fail_ledger query_invalid l
add_processed (some n) billed l =
    add_billed billed (record l { bigquery_bytes_processed = l.bigquery_bytes_processed + n })

-- `record_query(job)`; a number of bytes is `none` where it is missing or `None`. A job is recorded
-- only after `start_query`, so the number of pending jobs does not go below 0.
unfoldable pub record_query : Option Value → Option Value → LedgerAction
record_query (some p) (some b) l = add_processed (count_of p) (count_of b) l
record_query _ _ l = fail_ledger query_incomplete l

-- `start_query()`
abbrev pub start_query : LedgerAction
start_query l = (measured tt, record l { pending_query_jobs = l.pending_query_jobs + 1 })

-- `RuntimeUsage`
pub record RuntimeUsage : Type 0 where
  pub vertex_input_tokens : ℕ
  pub vertex_output_tokens : ℕ
  pub bigquery_bytes_processed : ℕ
  pub bigquery_bytes_billed : ℕ
  pub bigquery_dry_run_estimated_bytes : ℕ

abbrev pub usage_of : RunLedger → RuntimeUsage
usage_of l = record {
  vertex_input_tokens = l.vertex_input_tokens;
  vertex_output_tokens = l.vertex_output_tokens;
  bigquery_bytes_processed = l.bigquery_bytes_processed;
  bigquery_bytes_billed = l.bigquery_bytes_billed;
  bigquery_dry_run_estimated_bytes = l.bigquery_dry_run_estimated_bytes;
}

abbrev pub usage_without : List MeterFault → RunLedger → Measured RuntimeUsage
usage_without (f ∷ fs) l = fault f
usage_without [] l =
    if l.pending_query_jobs == 0 then measured (usage_of l) else fault job_incomplete

-- `usage()`
unfoldable pub usage_of_ledger : RunLedger → Measured RuntimeUsage
usage_of_ledger l = usage_without l.errors l
