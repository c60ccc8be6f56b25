-- ===== src/BigQuery/Allowed.antt =====
-- What it takes for a text to pass `validate_sql_diagnostic`, and that its answer passes again.
use Prim.Native.Char.{code}
use repchat.Prelude.{
  ℕ, zero, suc, ◌<◌, String, ◌≡◌, refl, sym, ◌↔◌, Bool, true, false, not, Option, none, some, List,
  [], ◌∷◌, inl, inr, arith, ◌==◌, Bool-cases, Option-cases, length, get_elem?, if◌then◌else◌,
}
use repchat.Text.{strip}
use repchat.Text.Stripped.{is_flush, strip-is_flush, strip-rstrip, strip-strip}
use repchat.Diagnostic.{Code}
use repchat.BigQuery.Scan.{has_forbidden, is_select, has_select_star}
use repchat.BigQuery.Replace.{TableMatch, table_matches}
use repchat.BigQuery.Words.{NoWriting, has_forbidden-NoWriting, StartsQuery, is_select-StartsQuery}
use repchat.BigQuery.Validation.{
  Policy, passed, contains, has_semicolon, without_final, normalize, is_decorated, table_diagnostic,
  tables_diagnostic, code_of_text, check_contract, text_diagnostic, answer_text,
  validate_sql_diagnostic,
}

without_final-none : (s : String) → has_semicolon s ≡ false → without_final s ≡ none
unfolding has_semicolon without_final
without_final-none String.[] h = refl
without_final-none (String.◌∷◌ c String.[]) h = ground arith
without_final-none (String.◌∷◌ c (String.◌∷◌ d s)) h =
    rw (without_final-none (String.◌∷◌ d s) (ground arith)) refl

without_final-is_flush :
    (s t : String) → is_flush s ≡ true → without_final s ≡ some t → is_flush t ≡ true
unfolding is_flush without_final
without_final-is_flush String.[] t h e = cc
without_final-is_flush (String.◌∷◌ c String.[]) t h e = elim (Bool-cases (code c == b';')) [
  | inl k ↦ let e' = rw k at e in let q : String.[] ≡ t = cc in rw (← q) refl
  | inr k ↦ absurd (let e' = rw k at e in cc)
]
without_final-is_flush (String.◌∷◌ c (String.◌∷◌ d s)) t h e =
    elim (Option-cases (without_final (String.◌∷◌ d s))) [
      | inl k ↦ absurd (let e' = rw k at e in cc)
      | inr (u, k) ↦ let e' = rw k at e in let q : String.◌∷◌ c u ≡ t = cc in rw (← q) h
    ]

strip-normalize : (s : String) → strip (normalize s) ≡ normalize s
unfolding normalize
strip-normalize s = elim (Option-cases (without_final (strip s))) [
  | inl e ↦ rw e (strip-strip s)
  | inr (t, e) ↦ rw e (strip-rstrip t (without_final-is_flush (strip s) t (strip-is_flush s) e))
]

normal : (t : String) → strip t ≡ t → without_final t ≡ none → normalize t ≡ t
unfolding normalize
normal t e k = rw e (rw k refl)

-- A normalized text without a semicolon is its own normal form.
normalize-normalize :
    (s : String) → has_semicolon (normalize s) ≡ false → normalize (normalize s) ≡ normalize s
normalize-normalize s h =
    normal (normalize s) (strip-normalize s) (without_final-none (normalize s) h)

-- Each place names a table of the list, with no decorator.
abbrev pub InScope : List String → List TableMatch → Type 0
InScope tables ms =
    (i : ℕ) (m : TableMatch)
    → get_elem? ms i ≡ some m
    → (is_decorated m ≡ false) × (contains tables m.reference ≡ true)

-- What a normalized text needs to pass.
pub record IsAllowed (wide_word : ℕ → Bool) (contract_error : String → Policy → Bool) (p : Policy)
    (t : String) : Type 0 where
  pub starts : StartsQuery wide_word t
  pub single : has_semicolon t ≡ false
  pub reads : NoWriting wide_word (code_of_text t)
  pub named : has_select_star wide_word (code_of_text t) ≡ false
  pub some_table : 0 < length (table_matches (code_of_text t))
  pub in_scope : InScope p.query_tables (table_matches (code_of_text t))
  pub in_contract : contract_error t p ≡ false

InScope-cons :
    (ts : List String) (x : TableMatch) (ms : List TableMatch)
    → is_decorated x ≡ false
    → contains ts x.reference ≡ true
    → InScope ts ms
    → InScope ts (x ∷ ms)
InScope-cons ts x ms k l h zero m e = let q : x ≡ m = cc in rw (← q) (k, l)
InScope-cons ts x ms k l h (suc i) m e = h i m e

table_diagnostic-InScope :
    (ts : List String) (ms : List TableMatch) → table_diagnostic ts ms ≡ none → InScope ts ms
table_diagnostic-InScope ts [] h i m e = cc
table_diagnostic-InScope ts (x ∷ ms) h i m e = elim (Bool-cases (is_decorated x)) [
  | inl k ↦ absurd (let h' = rw k at h in cc)
  | inr k ↦ elim (Bool-cases (contains ts x.reference)) [
    | inl l ↦ InScope-cons ts x ms k l (table_diagnostic-InScope ts ms (rw l at (rw k at h))) i m e
    | inr l ↦ absurd (let h' = rw l at (rw k at h) in cc)
  ]
]

InScope-table_diagnostic :
    (ts : List String) (ms : List TableMatch) → InScope ts ms → table_diagnostic ts ms ≡ none
InScope-table_diagnostic ts [] h = refl
InScope-table_diagnostic ts (x ∷ ms) h =
    rw ((h 0 x refl).0)
      (rw ((h 0 x refl).1) (InScope-table_diagnostic ts ms (λ i m e. h (suc i) m e)))

tables_diagnostic-none :
    (ts : List String) (ms : List TableMatch)
    → tables_diagnostic ts ms ≡ none
    → (0 < length ms) × InScope ts ms
tables_diagnostic-none ts [] h = cc
tables_diagnostic-none ts (m ∷ ms) h = (omega arith, table_diagnostic-InScope ts (m ∷ ms) h)

InScope-tables_diagnostic :
    (ts : List String) (ms : List TableMatch)
    → 0 < length ms
    → InScope ts ms
    → tables_diagnostic ts ms ≡ none
InScope-tables_diagnostic ts [] n h = absurd (omega arith)
InScope-tables_diagnostic ts (m ∷ ms) n h = InScope-table_diagnostic ts (m ∷ ms) h

if_some :
    (b : Bool) (k : Code) (o : Option Code)
    → (if b then some k else o) ≡ none
    → (b ≡ false) × (o ≡ none)
if_some true k o h = cc
if_some false k o h = (refl, h)

not-false : (b : Bool) → not b ≡ false → b ≡ true
not-false true h = refl
not-false false h = cc

answer_text-passed :
    (n t : String) (o : Option Code) → answer_text n o ≡ passed t → (n ≡ t) × (o ≡ none)
answer_text-passed n t none h = (cc, refl)
answer_text-passed n t (some k) h = cc

module _ (wide_word : ℕ → Bool) (contract_error : String → Policy → Bool) where
  check_contract-none :
      (t : String) (p : Policy) (o : Option Code)
      → check_contract wide_word contract_error t p o ≡ none
      → (o ≡ none) × (contract_error t p ≡ false)
  check_contract-none t p none h =
      (refl, (if_some (contract_error t p) Code.schema_policy_mismatch none h).0)
  check_contract-none t p (some k) h = cc

  text_diagnostic-IsAllowed :
      (t : String) (p : Policy)
      → text_diagnostic wide_word contract_error t p ≡ none
      → IsAllowed wide_word contract_error p t
  unfolding text_diagnostic
  text_diagnostic-IsAllowed t p h =
      let (a, h1) = if_some (not (is_select wide_word t)) _ _ h in
      let (b, h2) = if_some (has_semicolon t) _ _ h1 in
      let (c, h3) = if_some (has_forbidden wide_word (code_of_text t)) _ _ h2 in
      let (d, h4) = if_some (has_select_star wide_word (code_of_text t)) _ _ h3 in
      let (e, f) = check_contract-none t p _ h4 in
      let (g, i) = tables_diagnostic-none p.query_tables (table_matches (code_of_text t)) e in
      record {
        starts = (is_select-StartsQuery wide_word t).0 (not-false (is_select wide_word t) a);
        single = b;
        reads = (has_forbidden-NoWriting wide_word (code_of_text t)).0 c;
        named = d;
        some_table = g;
        in_scope = i;
        in_contract = f;
      }

  IsAllowed-text_diagnostic :
      (t : String) (p : Policy)
      → IsAllowed wide_word contract_error p t
      → text_diagnostic wide_word contract_error t p ≡ none
  unfolding text_diagnostic
  IsAllowed-text_diagnostic t p a = rw ((is_select-StartsQuery wide_word t).1 a.starts) (
      rw a.single (
        rw ((has_forbidden-NoWriting wide_word (code_of_text t)).1 a.reads) (
          rw a.named (
            rw
              (InScope-tables_diagnostic p.query_tables (table_matches (code_of_text t))
                a.some_table a.in_scope)
              (rw a.in_contract refl)))))

  -- A text passes, as its normalized form, exactly when that form begins with the word SELECT or
  -- WITH, has no semicolon, is not refused by the contract's check, and what is left of it when
  -- first its `--` and `/* */` comments and then its single-quoted literals are replaced has none
  -- of the ten writing keywords as a word, no match of the pattern of a selected star, and at least
  -- one match of the pattern of a table, each an undecorated table of the policy. A comment mark
  -- inside a literal counts as the start of a comment.
  pub validate_sql_diagnostic_exact :
      (s t : String) (p : Policy)
      → (validate_sql_diagnostic wide_word contract_error s (some p) ≡ passed t)
        ↔ ((t ≡ normalize s) × IsAllowed wide_word contract_error p t)
  unfolding validate_sql_diagnostic
  validate_sql_diagnostic_exact s t p = (
    (λ h.
        let (e, k) = answer_text-passed (normalize s) t _ h in
        (sym e, rw (← e) (text_diagnostic-IsAllowed (normalize s) p k))),
    λ (e, a). rw (← e) (rw (IsAllowed-text_diagnostic t p a) refl),
  )

  -- The text that validation answers with passes the same validation unchanged.
  pub validate_sql_diagnostic-again :
      (s t : String) (p : Policy)
      → validate_sql_diagnostic wide_word contract_error s (some p) ≡ passed t
      → validate_sql_diagnostic wide_word contract_error t (some p) ≡ passed t
  validate_sql_diagnostic-again s t p h =
      let (e, a) = (validate_sql_diagnostic_exact s t p).0 h in
      (validate_sql_diagnostic_exact t t p).1
        (sym (rw e (normalize-normalize s (rw (← e) a.single))), a)
