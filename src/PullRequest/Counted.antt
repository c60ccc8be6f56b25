-- ===== src/PullRequest/Counted.antt =====
-- The size that the policy judges is that of the files that are no lockfiles.
use repchat.Prelude.{
  ℕ, ◌+◌, ◌≡◌, ◌∙◌, refl, String, Bool, true, false, Option, none, some, List, [], ◌∷◌, arith, inl,
  inr, Bool-cases, sum_by, all,
}
use repchat.PullRequest.{
  FileEntry, Payload, Stats, is_lockfile, flatten_pages, summarize_from, summarize_lockfiles,
  no_stats, add_entry, then_stats, size_result, evaluate_size,
}

-- A file with a name and two numbers.
abbrev pub IsFile : FileEntry → String → ℕ → ℕ → Type 0
IsFile e name added deleted =
    (e.filename ≡ some name) × (e.additions ≡ some added) × (e.deletions ≡ some deleted)

abbrev pub has_parts : Option String → Option ℕ → Option ℕ → Bool
has_parts (some s) (some a) (some d) = true
has_parts _ _ _ = false

abbrev pub is_complete : FileEntry → Bool
is_complete e = has_parts e.filename e.additions e.deletions

abbrev pub number : Option ℕ → ℕ
number none = 0
number (some n) = n

abbrev pub is_lock : Option String → Bool
is_lock none = false
is_lock (some s) = is_lockfile s

abbrev pub weight : Bool → Bool → ℕ → ℕ
weight true true n = n
weight true false n = 0
weight false true n = 0
weight false false n = n

-- The measure of a file, if it is a lockfile or if it is none.
abbrev pub when_lock : Bool → FileEntry → ℕ → ℕ
when_lock b e n = weight b (is_lock e.filename) n

abbrev pub added_by : Bool → List FileEntry → ℕ
added_by b es = sum_by (λ (e : FileEntry). when_lock b e (number e.additions)) es

abbrev pub deleted_by : Bool → List FileEntry → ℕ
deleted_by b es = sum_by (λ (e : FileEntry). when_lock b e (number e.deletions)) es

abbrev pub files_of : Bool → List FileEntry → ℕ
files_of b es = sum_by (λ (e : FileEntry). when_lock b e 1) es

abbrev stats : ℕ → ℕ → ℕ → Stats
stats a d f = record { additions = a; deletions = d; files = f }

same_stats :
    (a a' d d' f f' : ℕ) → a ≡ a' → d ≡ d' → f ≡ f' → some (stats a d f) ≡ some (stats a' d' f')
same_stats a a' d d' f f' p q r = cc

-- One file before the rest of the loop, whose counts are given.
summarize_head :
    (t : Stats) (name : Option String) (added deleted : Option ℕ) (es : List FileEntry) (a d f : ℕ)
    → has_parts name added deleted ≡ true
    → ((u : Stats)
        → summarize_from u es ≡ some (stats (u.additions + a) (u.deletions + d) (u.files + f)))
    → then_stats (add_entry t name added deleted) (λ u. summarize_from u es)
      ≡ some (
          stats
            (t.additions + (weight true (is_lock name) (number added) + a))
            (t.deletions + (weight true (is_lock name) (number deleted) + d))
            (t.files + (weight true (is_lock name) 1 + f)))
summarize_head t (some s) (some x) (some y) es a d f h rest = elim (Bool-cases (is_lockfile s)) [
  | inl lock ↦
      rw (lock, rest (stats (t.additions + x) (t.deletions + y) (t.files + 1)))
        (same_stats _ _ _ _ _ _ (omega arith) (omega arith) (omega arith))
  | inr other ↦
      rw (other, rest t) (same_stats _ _ _ _ _ _ (omega arith) (omega arith) (omega arith))
]
summarize_head t none added deleted es a d f h rest = cc
summarize_head t (some s) none deleted es a d f h rest = cc
summarize_head t (some s) (some x) none es a d f h rest = cc

-- The loop adds the counts of the lockfiles to those it starts from.
summarize_from_lem :
    (es : List FileEntry) (t : Stats)
    → all is_complete es ≡ true
    → summarize_from t es
      ≡ some (
          stats
            (t.additions + added_by true es)
            (t.deletions + deleted_by true es)
            (t.files + files_of true es))
unfolding summarize_from
summarize_from_lem [] t h = same_stats _ _ _ _ _ _ (omega arith) (omega arith) (omega arith)
summarize_from_lem (e ∷ es) t h =
    summarize_head t e.filename e.additions e.deletions es (added_by true es) (deleted_by true es)
      (files_of true es) (ground arith) (λ u. summarize_from_lem es u (ground arith))

-- A measure of all files is that of the lockfiles and that of the others.
weights_add :
    (f : FileEntry → ℕ) (es : List FileEntry)
    → sum_by f es
      ≡ sum_by (λ e. when_lock true e (f e)) es + sum_by (λ e. when_lock false e (f e)) es
weights_add f [] = refl
weights_add f (e ∷ es) = elim (Bool-cases (is_lock e.filename)) [
  | inl lock ↦ rw lock (omega (arith, weights_add f es))
  | inr other ↦ rw other (omega (arith, weights_add f es))
]

evaluate_within :
    (a d f la ld lf oa od of_ : ℕ)
    → a ≡ la + oa
    → d ≡ ld + od
    → f ≡ lf + of_
    → evaluate_size a d f (stats la ld lf) ≡ some (size_result (oa + od) of_)
unfolding evaluate_size
evaluate_within a d f la ld lf oa od of_ p q r = ground arith

-- Where every file of the response has a name and its two numbers, and the totals are those of the
-- response, the policy raises no error: it judges exactly the lines that are added and deleted in
-- the files that are no lockfiles, and the number of these files.
pub size_counts_others :
    (p : Payload) (es : List FileEntry)
    → flatten_pages p ≡ some es
    → all is_complete es ≡ true
    → (t : Stats) × (summarize_lockfiles p ≡ some t)
      × (evaluate_size
            (sum_by (λ (e : FileEntry). number e.additions) es)
            (sum_by (λ (e : FileEntry). number e.deletions) es)
            (sum_by (λ (e : FileEntry). 1) es)
            t
          ≡ some (size_result (added_by false es + deleted_by false es) (files_of false es)))
unfolding summarize_lockfiles
size_counts_others p es read complete = (
  stats (added_by true es) (deleted_by true es) (files_of true es),
  rw read (
      summarize_from_lem es no_stats complete
      ∙ same_stats _ _ _ _ _ _ (omega arith) (omega arith) (omega arith)),
  evaluate_within _ _ _ _ _ _ _ _ _ (weights_add (λ e. number e.additions) es)
      (weights_add (λ e. number e.deletions) es) (weights_add (λ e. 1) es),
)
