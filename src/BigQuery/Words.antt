-- ===== src/BigQuery/Words.antt =====
-- Where a keyword stands in a text: the searches of `validate_sql_diagnostic` for `\bkeyword\b`, against
-- the places of a text.
use Prim.Native.Char.{code}
use mathlib.Core.Path.{◌∙◌, subst}
use repchat.Prelude.{
  ℕ, zero, suc, String, ◌≡◌, ◌↔◌, ◌⊎◌, refl, ap, Bool, true, false, not, ◌&&◌, ◌||◌, some, List, [],
  ◌∷◌, inl, inr, arith, ◌==◌, any_of, any_of-get, get_elem?, Bool-cases, Option-cases,
}
use repchat.BigQuery.Scan.{
  fold_case, after_folded, is_word, starts_word, has_keyword, differs, search_word,
  forbidden_keywords, has_forbidden, is_select,
}

abbrev pub append : String → String → String
append String.[] t = t
append (String.◌∷◌ c s) t = String.◌∷◌ c (append s t)

-- A text is a word in lower case, up to the case of its letters.
abbrev pub Folds : String → String → Type 0
Folds String.[] String.[] = Unit
Folds (String.◌∷◌ p ps) (String.◌∷◌ c s) = (code p ≡ fold_case (code c)) × Folds ps s
Folds _ _ = ⊥

-- Whether the last character of a text is a word character, `before` for the empty text.
abbrev pub ends_word : (ℕ → Bool) → Bool → String → Bool
ends_word w before String.[] = before
ends_word w before (String.◌∷◌ c s) = ends_word w (is_word w (code c)) s

-- A text begins with a keyword that no word character follows.
abbrev pub Begins : (ℕ → Bool) → String → String → Type 0
Begins w k s =
    (word post : String) × (s ≡ append word post) × Folds k word × (starts_word w post ≡ false)

-- A place of a text at a boundary of words, where a keyword begins.
abbrev pub OccursAfter : (ℕ → Bool) → Bool → String → String → Type 0
OccursAfter w before k s =
    (pre rest : String) × (s ≡ append pre rest)
    × (differs (ends_word w before pre) (starts_word w rest) ≡ true)
    × Begins w k rest

abbrev pub Occurs : (ℕ → Bool) → String → String → Type 0
Occurs w k s = OccursAfter w false k s

-- The keywords of the statements that write, call or give rights.
abbrev pub writing_words : List String
writing_words =
    "insert" ∷ "update" ∷ "delete" ∷ "drop" ∷ "create" ∷ "merge" ∷ "alter" ∷ "call" ∷ "export"
    ∷ "grant" ∷ []

abbrev pub NoWriting : (ℕ → Bool) → String → Type 0
NoWriting w s = (i : ℕ) (k : String) → get_elem? writing_words i ≡ some k → ¬ Occurs w k s

after_folded-Folds :
    (k s t : String)
    → after_folded k s ≡ some t
    → (word : String) × (s ≡ append word t) × Folds k word
unfolding after_folded
after_folded-Folds String.[] s t h = (String.[], let q : s ≡ t = cc in q, tt)
after_folded-Folds (String.◌∷◌ p ps) String.[] t h = cc
after_folded-Folds (String.◌∷◌ p ps) (String.◌∷◌ c s) t h =
    elim (Bool-cases (code p == fold_case (code c))) [
      | inl e ↦
          let (word, q, f) = after_folded-Folds ps s t (rw e at h) in
          (String.◌∷◌ c word, ap (λ x. String.◌∷◌ c x) q, (ground arith, f))
      | inr e ↦ absurd (let h' = rw e at h in cc)
    ]

Folds-after_folded : (k word t : String) → Folds k word → after_folded k (append word t) ≡ some t
unfolding after_folded
Folds-after_folded String.[] String.[] t h = refl
Folds-after_folded String.[] (String.◌∷◌ c s) t h = absurd h
Folds-after_folded (String.◌∷◌ p ps) String.[] t h = absurd h
Folds-after_folded (String.◌∷◌ p ps) (String.◌∷◌ c s) t (e, h) =
    let same : (code p == fold_case (code c)) ≡ true = ground arith in
    rw same (Folds-after_folded ps s t h)

not-true : (b : Bool) → not b ≡ true → b ≡ false
not-true false h = refl
not-true true h = cc

pub has_keyword-Begins : (w : ℕ → Bool) (k s : String) → has_keyword w k s ≡ true → Begins w k s
unfolding has_keyword
has_keyword-Begins w k s h = elim (Option-cases (after_folded k s)) [
  | inl e ↦ absurd (let h' = rw (e, has_keyword) at h in cc)
  | inr (t, e) ↦
      let (word, q, f) = after_folded-Folds k s t e in
      (word, t, q, f, not-true (starts_word w t) (rw (e, has_keyword) at h))
]

pub Begins-has_keyword : (w : ℕ → Bool) (k s : String) → Begins w k s → has_keyword w k s ≡ true
unfolding has_keyword
Begins-has_keyword w k s (word, post, q, f, e) =
    let found : after_folded k s ≡ some post =
      ap (λ x. after_folded k x) q ∙ Folds-after_folded k word post f in
    rw (found, has_keyword) (rw e refl)

false_true : {A : Type 0} (b : Bool) → b ≡ false → b ≡ true → A
false_true true h k = cc
false_true false h k = cc

or_true : (a b : Bool) → b ≡ true → (a || b) ≡ true
or_true a b h = ground arith

or_false : (a b : Bool) → (a || b) ≡ false → b ≡ false
or_false a b h = ground arith

-- A search that finds nothing has no match at a boundary of the text.
search_word-false :
    (w : ℕ → Bool) (p : String → Bool) (before : Bool) (s pre rest : String)
    → search_word w p before s ≡ false
    → p String.[] ≡ false
    → s ≡ append pre rest
    → differs (ends_word w before pre) (starts_word w rest) ≡ true
    → p rest ≡ false
unfolding search_word starts_word
search_word-false w p before s String.[] String.[] h n q d = n
search_word-false w p before String.[] String.[] (String.◌∷◌ c t) h n q d = cc
search_word-false w p before (String.◌∷◌ e s) String.[] (String.◌∷◌ c t) h n q d =
    let h' = rw q at h in ground arith
search_word-false w p before String.[] (String.◌∷◌ c pre) rest h n q d = cc
search_word-false w p before (String.◌∷◌ e s) (String.◌∷◌ c pre) rest h n q d =
    let same : e ≡ c = cc in
    let tail : s ≡ append pre rest = cc in
    search_word-false w p (is_word w (code c)) s pre rest
      (subst (λ x. search_word w p (is_word w (code x)) s ≡ false) same (or_false _ _ h)) n tail d

search_word-true :
    (w : ℕ → Bool) (p : String → Bool) (before : Bool) (s : String)
    → search_word w p before s ≡ true
    → (pre rest : String) × (s ≡ append pre rest)
      × (differs (ends_word w before pre) (starts_word w rest) ≡ true)
      × (p rest ≡ true)
unfolding search_word starts_word
search_word-true w p before String.[] h = cc
search_word-true w p before (String.◌∷◌ c s) h =
    elim (Bool-cases (differs before (is_word w (code c)) && p (String.◌∷◌ c s))) [
      | inl e ↦ (String.[], String.◌∷◌ c s, refl, ground arith, ground arith)
      | inr e ↦
          let (pre, rest, q, d, m) = search_word-true w p (is_word w (code c)) s (rw e at h) in
          (String.◌∷◌ c pre, rest, ap (λ x. String.◌∷◌ c x) q, d, m)
    ]

any_of-false-get :
    (p : String → Bool) (ks : List String) (i : ℕ) (k : String)
    → any_of p ks ≡ false
    → get_elem? ks i ≡ some k
    → p k ≡ false
any_of-false-get p [] i k h e = cc
any_of-false-get p (x ∷ ks) zero k h e = let q : x ≡ k = cc in rw (← q) (ground arith)
any_of-false-get p (x ∷ ks) (suc i) k h e =
    any_of-false-get p ks i k (or_false (p x) (any_of p ks) h) e

module _ (w : ℕ → Bool) where
  abbrev here : String → Bool
  here t = any_of (λ k. has_keyword w k t) forbidden_keywords

  nothing_in_nothing : here String.[] ≡ false
  unfolding has_keyword after_folded
  nothing_in_nothing = refl

  -- The search finds no keyword exactly when none of the ten stands in the text as a word.
  pub has_forbidden-NoWriting : (s : String) → (has_forbidden w s ≡ false) ↔ NoWriting w s
  unfolding has_forbidden
  has_forbidden-NoWriting s = (
    (λ h i k e (pre, rest, q, d, b).
        false_true (has_keyword w k rest)
          (any_of-false-get (λ l. has_keyword w l rest) forbidden_keywords i k
            (search_word-false w here false s pre rest h nothing_in_nothing q d) e)
          (Begins-has_keyword w k rest b)),
    λ none_stands. elim (Bool-cases (search_word w here false s)) [
      | inr e ↦ e
      | inl e ↦
          let (pre, rest, q, d, m) = search_word-true w here false s e in
          let (i, (k, at, found)) = any_of-get (λ l. has_keyword w l rest) forbidden_keywords m in
          absurd (none_stands i k at (pre, rest, q, d, has_keyword-Begins w k rest found))
    ],
  )

  -- A text starts a query.
  abbrev pub StartsQuery : String → Type 0
  StartsQuery s = Begins w "select" s ⊎ Begins w "with" s

  pub is_select-StartsQuery : (s : String) → (is_select w s ≡ true) ↔ StartsQuery s
  unfolding is_select
  is_select-StartsQuery s = (
    (λ h. elim (Bool-cases (has_keyword w "select" s)) [
      | inl e ↦ inl (has_keyword-Begins w "select" s e)
      | inr e ↦ inr (has_keyword-Begins w "with" s (rw e at h))
    ]),
    λ b. elim b [
      | inl x ↦ rw (Begins-has_keyword w "select" s x) refl
      | inr x ↦ or_true (has_keyword w "select" s) _ (Begins-has_keyword w "with" s x)
    ],
  )
