-- ===== src/Meter/Accounted.antt =====
-- What a usage that is returned accounts for.
use repchat.Prelude.{
  ℕ, ◌+◌, ◌≡◌, ◌≢◌, ◌∙◌, refl, sym, ap, inl, inr, Bool, true, false, Option, none, some, List, [],
  ◌∷◌, ◌++◌, ◌==◌, sum_by, length, get_elem?, set, Bool-cases,
}
use repchat.BigQuery.DryRun.{Value, count_of, answered, raised}
use repchat.Meter.Ledger.{
  measured, RunLedger, Metadata, Tokens, optional_count, check_sum, check_token_total, check_counts,
  check_present,
}
use repchat.Meter.Run.{ClientCall, generated, dry_run, started, finished}

abbrev pub zero_or : Option ℕ → ℕ
zero_or none = 0
zero_or (some n) = n

-- The count of a value, and 0 where there is none.
abbrev pub amount_of : Option Value → ℕ
amount_of none = 0
amount_of (some v) = zero_or (count_of v)

-- What one call is to add to each sum.
unfoldable pub input_of : ClientCall → ℕ
input_of (generated (answered (some m))) =
    amount_of m.prompt_token_count + amount_of m.tool_use_prompt_token_count
input_of _ = 0

unfoldable pub output_of : ClientCall → ℕ
output_of (generated (answered (some m))) =
    amount_of m.candidates_token_count + amount_of m.thoughts_token_count
output_of _ = 0

unfoldable pub estimate_of : ClientCall → ℕ
estimate_of (dry_run (answered v)) = amount_of (some v)
estimate_of _ = 0

abbrev pub is_start : ClientCall → Bool
is_start (started (answered u)) = true
is_start _ = false

-- The bytes of a job after its result.
pub record JobBytes : Type 0 where
  pub processed : Option Value
  pub billed : Option Value

-- A result counts where the job has none yet; the other lists are those of the later results.
abbrev pub keep_first : Option Bool → JobBytes → List JobBytes → List JobBytes → List JobBytes
keep_first (some false) j rest later = j ∷ later
keep_first _ j rest later = rest

-- The first result of each job; a job is started by its query.
unfoldable pub first_results : List Bool → List ClientCall → List JobBytes
first_results jobs [] = []
first_results jobs (generated r ∷ es) = first_results jobs es
first_results jobs (dry_run r ∷ es) = first_results jobs es
first_results jobs (started (raised e) ∷ es) = first_results jobs es
first_results jobs (started (answered u) ∷ es) = first_results (jobs ++ false ∷ []) es
first_results jobs (finished i p b ∷ es) =
    keep_first (get_elem? jobs i) (record { processed = p; billed = b }) (first_results jobs es)
      (first_results (set jobs i true) es)

abbrev pub processed_of : JobBytes → ℕ
processed_of j = amount_of j.processed

abbrev pub billed_of : JobBytes → ℕ
billed_of j = amount_of j.billed

-- The sums of one ledger over another.
pub record Adds (i o d : ℕ) (results : List JobBytes) (starts : ℕ) (l l' : RunLedger) : Type 0 where
  pub input : l'.vertex_input_tokens ≡ l.vertex_input_tokens + i
  pub output : l'.vertex_output_tokens ≡ l.vertex_output_tokens + o
  pub estimate : l'.bigquery_dry_run_estimated_bytes ≡ l.bigquery_dry_run_estimated_bytes + d
  pub processed :
      l'.bigquery_bytes_processed ≡ l.bigquery_bytes_processed + sum_by processed_of results
  pub billed : l'.bigquery_bytes_billed ≡ l.bigquery_bytes_billed + sum_by billed_of results
  pub pending : l'.pending_query_jobs + length results ≡ l.pending_query_jobs + starts

pub snoc-nil : {A : Type 0} (xs : List A) (x : A) → xs ++ x ∷ [] ≢ []
snoc-nil [] x h = cc
snoc-nil (y ∷ ys) x h = cc

check_sum-tokens : (s t : Tokens) (n : ℕ) (m : Option ℕ) → check_sum s n m ≡ measured t → s ≡ t
check_sum-tokens s t n none h = cc
check_sum-tokens s t n (some m) h = elim (Bool-cases (m == n)) [
  | inl e ↦ measured-injective s t (rw e at h)
  | inr e ↦ absurd (let h' = rw e at h in cc)
]
  where
    measured-injective : (u v : Tokens) → measured u ≡ measured v → u ≡ v
    measured-injective u v k = cc

check_token_total-tokens :
    (s t : Tokens) (n : ℕ) (v : Option Value) → check_token_total s n v ≡ measured t → s ≡ t
check_token_total-tokens s t n none h = cc
check_token_total-tokens s t n (some v) h = check_sum-tokens s t n (count_of v) h

check_counts-tokens :
    (a b c d : Option ℕ) (v : Option Value) (t : Tokens)
    → check_counts a b c d v ≡ measured t
    → (t.input ≡ zero_or a + zero_or d) × (t.output ≡ zero_or b + zero_or c)
check_counts-tokens (some a) (some b) (some c) (some d) v t h =
    let e = check_token_total-tokens _ t (a + b + c + d) v h in
    (ap (λ x. x.input) (sym e), ap (λ x. x.output) (sym e))
check_counts-tokens (some a) (some b) (some c) none v t h = cc
check_counts-tokens (some a) (some b) none d v t h = cc
check_counts-tokens (some a) none c d v t h = cc
check_counts-tokens none b c d v t h = cc

optional_count-amount : (v : Option Value) → zero_or (optional_count v) ≡ amount_of v
optional_count-amount none = refl
optional_count-amount (some v) = refl

pub check_present-tokens :
    (p c : Option Value) (m : Metadata) (t : Tokens)
    → check_present p c m ≡ measured t
    → (t.input ≡ amount_of p + amount_of m.tool_use_prompt_token_count)
      × (t.output ≡ amount_of c + amount_of m.thoughts_token_count)
check_present-tokens (some p) (some c) m t h =
    let (i, o) = check_counts-tokens (count_of p) (count_of c) _ _ m.total_token_count t h in
    (
      i ∙ ap (λ x. zero_or (count_of p) + x) (optional_count-amount m.tool_use_prompt_token_count),
      o ∙ ap (λ x. zero_or (count_of c) + x) (optional_count-amount m.thoughts_token_count),
    )
check_present-tokens (some p) none m t h = cc
check_present-tokens none c m t h = cc
