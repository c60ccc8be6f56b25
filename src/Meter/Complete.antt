-- ===== src/Meter/Complete.antt =====
-- What one action on the ledger has added where it leaves no error.
use repchat.Prelude.{
  ℕ, ◌+◌, ◌≤◌, ◌≡◌, refl, ap, Bool, not, Option, none, some, List, [], ◌∷◌, ◌++◌, arith, count,
  sum_by, sum_by-append, length,
}
use repchat.BigQuery.DryRun.{Value, count_of, answered}
use repchat.Meter.Ledger.{
  Measured, measured, fault, RunLedger, Metadata, Tokens, response_tokens, add_tokens, add_estimate,
  add_processed, record_query,
}
use repchat.Meter.Run.{ClientCall, generated, Meter, meter_steps}
use repchat.Meter.Accounted.{
  zero_or, input_of, output_of, estimate_of, is_start, JobBytes, first_results, processed_of,
  billed_of, Adds, snoc-nil, check_present-tokens,
}

Adds-trans :
    (i o d s i' o' d' s' : ℕ) (rs rs' : List JobBytes) (l l1 l' : RunLedger)
    → Adds i o d rs s l l1
    → Adds i' o' d' rs' s' l1 l'
    → Adds (i + i') (o + o') (d + d') (rs ++ rs') (s + s') l l'
Adds-trans i o d s i' o' d' s' rs rs' l l1 l' a b = record {
  input = omega (arith, a.input, b.input);
  output = omega (arith, a.output, b.output);
  estimate = omega (arith, a.estimate, b.estimate);
  processed = omega (arith, a.processed, b.processed, sum_by-append processed_of rs rs');
  billed = omega (arith, a.billed, b.billed, sum_by-append billed_of rs rs');
  pending = omega (arith, a.pending, b.pending, length-append rs rs');
}
  where
    length-append : {A : Type 0} (xs ys : List A) → length (xs ++ ys) ≡ length xs + length ys
    length-append [] ys = omega arith
    length-append (x ∷ xs) ys = omega (arith, length-append xs ys)

-- An action that leaves no error had none before, and has added what it was to add.
unfoldable pub Quiet : ℕ → ℕ → ℕ → List JobBytes → ℕ → RunLedger → RunLedger → Type 0
Quiet i o d rs s l l' = (l.errors ≡ []) × Adds i o d rs s l l'

pub response_tokens-amount :
    (r : Option Metadata) (t : Tokens)
    → response_tokens r ≡ measured t
    → (t.input ≡ input_of (generated (answered r)))
      × (t.output ≡ output_of (generated (answered r)))
unfolding response_tokens input_of output_of
response_tokens-amount none t h = cc
response_tokens-amount (some m) t h =
    check_present-tokens m.prompt_token_count m.candidates_token_count m t h

pub add_tokens-Quiet :
    (q : Measured Tokens) (i o : ℕ) (l : RunLedger)
    → ((t : Tokens) → q ≡ measured t → (t.input ≡ i) × (t.output ≡ o))
    → (add_tokens q l).1.errors ≡ []
    → Quiet i o 0 [] 0 l (add_tokens q l).1
unfolding Quiet
add_tokens-Quiet (fault f) i o l k h = absurd (snoc-nil l.errors f h)
add_tokens-Quiet (measured t) i o l k h =
    let (p, q) = k t refl in
    (
      h,
      record {
        input = omega (arith, p);
        output = omega (arith, q);
        estimate = omega arith;
        processed = omega arith;
        billed = omega arith;
        pending = refl;
      },
    )

pub add_estimate-Quiet :
    (n : Option ℕ) (l : RunLedger)
    → (add_estimate n l).1.errors ≡ []
    → Quiet 0 0 (zero_or n) [] 0 l (add_estimate n l).1
unfolding Quiet
add_estimate-Quiet none l h = absurd (snoc-nil l.errors _ h)
add_estimate-Quiet (some n) l h = (
  h,
  record {
    input = omega arith;
    output = omega arith;
    estimate = refl;
    processed = omega arith;
    billed = omega arith;
    pending = refl;
  },
)

-- A job is recorded while it is pending.
pub record_query-Quiet :
    (p b : Option Value) (l : RunLedger)
    → 1 ≤ l.pending_query_jobs
    → (record_query p b l).1.errors ≡ []
    → Quiet 0 0 0 (record { processed = p; billed = b } ∷ []) 0 l (record_query p b l).1
unfolding record_query Quiet
record_query-Quiet none b l k h = absurd (snoc-nil l.errors _ h)
record_query-Quiet (some p) none l k h = absurd (snoc-nil l.errors _ h)
record_query-Quiet (some p) (some b) l k h = add_processed_lem (count_of p) (count_of b) refl refl h
  where
    add_processed_lem :
        (n m : Option ℕ)
        → count_of p ≡ n
        → count_of b ≡ m
        → (add_processed n m l).1.errors ≡ []
        → Quiet 0 0 0
            (record { processed = some p; billed = some b } ∷ [])
            0
            l
            (add_processed n m l).1
    add_processed_lem none m e f g = absurd (snoc-nil l.errors _ g)
    add_processed_lem (some n) none e f g = absurd (snoc-nil l.errors _ g)
    add_processed_lem (some n) (some m) e f g =
        let x : zero_or (count_of p) ≡ n = ap zero_or e in
        let y : zero_or (count_of b) ≡ m = ap zero_or f in
        (
          g,
          record {
            input = omega arith;
            output = omega arith;
            estimate = omega arith;
            processed = omega (arith, x);
            billed = omega (arith, y);
            pending = omega (arith, k);
          },
        )

-- The jobs of the run that have no result yet.
abbrev pub unrecorded : List Bool → ℕ
unrecorded jobs = count not jobs

-- The pending jobs of the ledger are these.
abbrev pub IsInStep : Meter → Type 0
IsInStep m = m.ledger.pending_query_jobs ≡ unrecorded m.jobs

-- What a sequence of calls has added where it leaves no error.
abbrev pub Accounts : List ClientCall → Meter → Type 0
Accounts es m =
    Quiet (sum_by input_of es) (sum_by output_of es) (sum_by estimate_of es)
      (first_results m.jobs es) (count is_start es) m.ledger (meter_steps es m).ledger
    × IsInStep (meter_steps es m)

-- A call before the rest.
pub after_call :
    (i o d s : ℕ) (rs : List JobBytes) (i' o' d' s' : ℕ) (rs' : List JobBytes) (l l1 l' : RunLedger)
    → (l1.errors ≡ [] → Quiet i o d rs s l l1)
    → Quiet i' o' d' rs' s' l1 l'
    → Quiet (i + i') (o + o') (d + d') (rs ++ rs') (s + s') l l'
unfolding Quiet
after_call i o d s rs i' o' d' s' rs' l l1 l' first (none_yet, adds) =
    let (none_before, added) = first none_yet in
    (none_before, Adds-trans i o d s i' o' d' s' rs rs' l l1 l' added adds)
