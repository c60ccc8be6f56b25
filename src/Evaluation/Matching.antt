-- ===== src/Evaluation/Matching.antt =====
-- What it means that the rows of a run match those of its reference.
use Prim.Native.Nat.{Ordering}
use Prim.Native.String.{compare}
use text.Mathlib.Text.{◌==◌ as str_eq}
use mathlib.Core.Path.{◌∙◌}
use text.Mathlib.TextEquality.{eq_iff}
use repchat.Prelude.{
  ℕ, ◌+◌, ◌≡◌, refl, sym, ap, Bool, true, false, List, [], ◌∷◌, arith, count, bit, if◌then◌else◌,
}
use repchat.Outcome.{Row}
use repchat.Evaluation.{Reference}
use repchat.Evaluation.Summary.{place, sorted, insert, same_rows, rows_match}

-- How often a row stands in a list.
abbrev pub occurrences : Row → List Row → ℕ
occurrences s rows = count (str_eq s) rows

occurrences-place :
    (s : Row) (o : Ordering) (t r : Row) (rest rs : List Row)
    → occurrences s rest ≡ bit (str_eq s t) + occurrences s rs
    → occurrences s (place o t r rest rs) ≡ bit (str_eq s t) + occurrences s (r ∷ rs)
occurrences-place s Ordering.gt t r rest rs h = omega arith
occurrences-place s Ordering.lt t r rest rs h = refl
occurrences-place s Ordering.eq t r rest rs h = refl

occurrences-insert :
    (s t : Row) (rows : List Row)
    → occurrences s (insert t rows) ≡ bit (str_eq s t) + occurrences s rows
unfolding insert
occurrences-insert s t [] = refl
occurrences-insert s t (r ∷ rs) =
    occurrences-place s (compare t r) t r (insert t rs) rs (occurrences-insert s t rs)

occurrences-sorted : (s : Row) (rows : List Row) → occurrences s (sorted rows) ≡ occurrences s rows
unfolding sorted
occurrences-sorted s [] = refl
occurrences-sorted s (r ∷ rs) =
    rw (occurrences-insert s r (sorted rs), occurrences-sorted s rs) refl

same_rows-true : (xs ys : List Row) → same_rows xs ys ≡ true → xs ≡ ys
same_rows-true [] [] h = refl
same_rows-true (x ∷ xs) (y ∷ ys) h =
    rw ((eq_iff x y).0 (ground arith), same_rows-true xs ys (ground arith)) refl
same_rows-true [] (y ∷ ys) h = cc
same_rows-true (x ∷ xs) [] h = cc

-- An ordered reference asks for its rows in order, another one for its rows as often as they stand.
abbrev pub Matches : Bool → List Row → List Row → Type 0
Matches true rows expected = rows ≡ expected
Matches false rows expected = (s : Row) → occurrences s rows ≡ occurrences s expected

Matches-by_order :
    (ordered : Bool) (rows expected : List Row)
    → (if ordered then same_rows rows expected else same_rows (sorted rows) (sorted expected))
      ≡ true
    → Matches ordered rows expected
Matches-by_order true rows expected h = same_rows-true rows expected h
Matches-by_order false rows expected h = λ s.
    sym (occurrences-sorted s rows)
    ∙ ap (occurrences s) (same_rows-true (sorted rows) (sorted expected) h)
    ∙ occurrences-sorted s expected

-- Where rows match an ordered reference they are its rows in its order; where they match an unordered
-- one, every row stands among them as often as among the expected rows.
pub rows_match_lem :
    (e : Reference) (rows : List Row)
    → rows_match e rows ≡ true
    → Matches e.is_ordered rows e.expected_rows
unfolding rows_match
rows_match_lem e rows h = Matches-by_order e.is_ordered rows e.expected_rows h
