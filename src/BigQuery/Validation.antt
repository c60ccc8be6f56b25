-- ===== src/BigQuery/Validation.antt =====
-- `validate_sql_diagnostic`: the normalized text of a query or its refusal.
use Prim.Native.Char.{code}
use text.Mathlib.Text.{◌==◌ as str_eq}
use repchat.Prelude.{
  ℕ, String, Bool, false, not, ◌||◌, Option, none, some, List, [], ◌∷◌, ◌==◌, any_of, if◌then◌else◌,
}
use repchat.Text.{rstrip, strip}
use repchat.Diagnostic.{Code}
use repchat.BigQuery.Scan.{has_forbidden, is_select, has_select_star}
use repchat.BigQuery.Replace.{TableMatch, strip_comments, strip_literals, table_matches}

-- `AnalysisFieldPolicy` of analysis_schema_policy.py, by the fields that are read here
pub record FieldPolicy : Type 0 where
  pub table : String
  pub path : List String
  pub field_type : String
  pub mode : String
  pub restricted : Bool

-- `AnalysisExecutionPolicy` of analysis_contract_context.py, by the fields that are read here.
pub record Policy : Type 0 where
  pub query_tables : List String
  pub job_tables : List String
  pub maximum_bytes_billed : ℕ
  pub maximum_result_rows : ℕ
  pub schema_fields : List FieldPolicy

-- A function that returns a value or a diagnostic.
pub data Validated (A : Type 0) : Type 0 where
  passed : A → Validated A
  refused : Code → Validated A

abbrev pub contains : List String → String → Bool
contains ts t = any_of (λ u. str_eq u t) ts

-- `";" in s`
unfoldable pub has_semicolon : String → Bool
has_semicolon String.[] = false
has_semicolon (String.◌∷◌ c s) = code c == b';' || has_semicolon s

-- `s[:-1]` of a text that ends with a semicolon, if it does.
unfoldable pub without_final : String → Option String
without_final String.[] = none
without_final (String.◌∷◌ c String.[]) = if code c == b';' then some String.[] else none
without_final (String.◌∷◌ c (String.◌∷◌ d s)) = elim (without_final (String.◌∷◌ d s)) [
  | none ↦ none
  | some t ↦ some (String.◌∷◌ c t)
]

abbrev pub drop_final : String → Option String → String
drop_final s none = s
drop_final s (some t) = rstrip t

-- The text as it is sent: stripped, and without one semicolon at its end.
unfoldable pub normalize : String → String
unfolding without_final
normalize s = drop_final (strip s) (without_final (strip s))

-- `without_literals[m.end()] in "$@"`
abbrev pub is_decorated : TableMatch → Bool
is_decorated m = elim m.follower [ none ↦ false | some c ↦ c == b'$' || c == b'@' ]

-- The loop over the matches.
abbrev pub table_diagnostic : List String → List TableMatch → Option Code
table_diagnostic tables [] = none
table_diagnostic tables (m ∷ ms) =
    let rest = table_diagnostic tables ms in
    if is_decorated m
    then some Code.table_decorator_outside_scope
    else if not (contains tables m.reference)
    then some Code.table_outside_scope
    else rest

-- The refusal for the tables of a query.
abbrev pub tables_diagnostic : List String → List TableMatch → Option Code
tables_diagnostic tables [] = some Code.contract_table_required
tables_diagnostic tables (m ∷ ms) = table_diagnostic tables (m ∷ ms)

-- `without_literals`
unfoldable pub code_of_text : String → String
code_of_text s = strip_literals (strip_comments s)

abbrev pub answer_text : String → Option Code → Validated String
answer_text s none = passed s
answer_text s (some k) = refused k

-- What validation takes from elsewhere: which characters beyond ASCII a regular expression takes for
-- letters and digits, and whether `contract_sql_diagnostic(s, policy)` finds an error.
module _ (wide_word : ℕ → Bool) (contract_error : String → Policy → Bool) where
  abbrev pub check_contract : String → Policy → Option Code → Option Code
  check_contract s p (some k) = some k
  check_contract s p none = if contract_error s p then some Code.schema_policy_mismatch else none

  -- The refusal of a normalized text.
  unfoldable pub text_diagnostic : String → Policy → Option Code
  text_diagnostic s p =
      if not (is_select wide_word s)
      then some Code.not_select
      else if has_semicolon s
      then some Code.multiple_statements
      else if has_forbidden wide_word (code_of_text s)
      then some Code.forbidden_keyword
      else if has_select_star wide_word (code_of_text s)
      then some Code.select_star
      else check_contract s p (tables_diagnostic p.query_tables (table_matches (code_of_text s)))

  -- `validate_sql_diagnostic(sql, policy=policy)`
  unfoldable pub validate_sql_diagnostic : String → Option Policy → Validated String
  validate_sql_diagnostic sql none = refused Code.analysis_contract_required
  validate_sql_diagnostic sql (some p) =
      answer_text (normalize sql) (text_diagnostic (normalize sql) p)
