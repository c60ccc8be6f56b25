-- ===== src/BigQuery/Contract/Tables.antt =====
-- The names that the tables of a query are bound to: `_physical_bindings` of
-- contract_sql_validation.py, with the aliases and the lookup of the tables that a token sees.
use Prim.Native.Char.{code}
use text.Mathlib.Text.{◌==◌ as str_eq}
use repchat.Prelude.{
  String, Bool, true, false, not, ◌&&◌, ◌||◌, Option, none, some, List, [], ◌∷◌, ◌++◌, ◌==◌,
  if◌then◌else◌,
}
use repchat.BigQuery.Words.{append}
use repchat.BigQuery.Validation.{Policy, contains}
use repchat.BigQuery.Tokens.{Scope, Token, is_identifier}

-- `_ALIAS_BOUNDARIES`
abbrev alias_boundaries : List String
alias_boundaries =
    "CROSS" ∷ "EXCEPT" ∷ "FOR" ∷ "FULL" ∷ "GROUP" ∷ "HAVING" ∷ "INNER" ∷ "INTERSECT" ∷ "JOIN"
    ∷ "LEFT" ∷ "LIMIT" ∷ "NATURAL" ∷ "ON" ∷ "ORDER" ∷ "PIVOT" ∷ "QUALIFY" ∷ "RIGHT" ∷ "TABLESAMPLE"
    ∷ "UNION" ∷ "UNPIVOT" ∷ "USING" ∷ "WHERE" ∷ "WINDOW" ∷ []

-- `_KEYWORDS`
abbrev pub keywords : List String
keywords =
    alias_boundaries
    ++ "ALL" ∷ "AND" ∷ "AS" ∷ "BY" ∷ "CASE" ∷ "DISTINCT" ∷ "ELSE" ∷ "END" ∷ "EXISTS" ∷ "FROM" ∷ "IS"
      ∷ "NOT" ∷ "NULL" ∷ "OR" ∷ "OVER" ∷ "SELECT" ∷ "THEN" ∷ "WHEN" ∷ "WITH" ∷ []

-- `_Binding`
pub record Binding : Type 0 where
  pub table : String
  pub path : List String
  pub scalar : Bool

unfoldable pub scopes_equal : Scope → Scope → Bool
scopes_equal [] [] = true
scopes_equal ((g, b) ∷ s) ((h, c) ∷ t) = g == h && b == c && scopes_equal s t
scopes_equal _ _ = false

-- A `dict` from scopes and folded names.
abbrev pub Bindings : Type 0
Bindings = List (Scope × String × Binding)

unfoldable pub find : Scope → String → Bindings → Option Binding
unfolding scopes_equal
find scope name [] = none
find scope name ((s, n, b) ∷ rest) =
    let later = find scope name rest in
    if scopes_equal s scope && str_eq n name then some b else later

-- `table.rsplit(".", 1)[-1]`, where there is a dot.
after_dot : String → Option String
after_dot String.[] = none
after_dot (String.◌∷◌ c s) = elim (after_dot s) [
  | none ↦ if code c == b'.' then some s else none
  | some t ↦ some t
]

or_whole : {A : Type 0} → Option A → A → A
or_whole none a = a
or_whole (some b) a = b

-- `_path(tokens, …)`, on the tokens in question.
unfoldable pub path_of : List Token → Option (List String)
path_of [] = none
path_of (t ∷ []) = some (t.value ∷ [])
path_of (t ∷ d ∷ rest) =
    let others = path_of rest in
    if str_eq d.value "." then Option_map (λ x. t.value ∷ x) others else none
  where
    Option_map : (List String → List String) → Option (List String) → Option (List String)
    Option_map f none = none
    Option_map f (some x) = some (f x)

-- The five tokens of a table without quotes: `".".join(…)`.
joined : List Token → Option String
joined (a ∷ d ∷ b ∷ e ∷ c ∷ rest) =
    if str_eq d.value "." && str_eq e.value "."
    then some (append a.value (append "." (append b.value (append "." c.value))))
    else none
joined _ = none

after_five : List Token → List Token
after_five (a ∷ d ∷ b ∷ e ∷ c ∷ rest) = rest
after_five _ = []

-- `index_scope == scope[:len(item_scope)]`
is_prefix : Scope → Scope → Bool
is_prefix [] t = true
is_prefix ((g, b) ∷ s) [] = false
is_prefix ((g, b) ∷ s) ((h, c) ∷ t) = g == h && b == c && is_prefix s t

is_empty_path : List String → Bool
is_empty_path [] = true
is_empty_path (s ∷ ss) = false

-- The set `_visible_tables(bindings, scope)`, as a list without repetitions.
unfoldable pub visible_tables : Scope → Bindings → List String
unfolding is_prefix is_empty_path
visible_tables scope [] = []
visible_tables scope ((s, n, b) ∷ rest) =
    let later = visible_tables scope rest in
    if is_prefix s scope && is_empty_path b.path && not (contains later b.table)
    then b.table ∷ later
    else later

-- `casefold` and `upper` of `str` are parameters.
module _ (casefold upper : String → String) where
  -- `_alias(tokens, index, fallback)`, on the tokens from the index on; its second result is not read.
  unfoldable pub alias : List Token → String → Option String
  alias [] fallback = if str_eq fallback "" then none else some fallback
  alias (t ∷ rest) fallback =
      if str_eq (upper t.value) "AS"
      then elim rest [
        | [] ↦ none
        | u ∷ _ ↦ if u.quoted || not (is_identifier u.value) then none else some u.value
      ]
      else if not t.quoted
          && is_identifier t.value
          && not (contains alias_boundaries (upper t.value))
      then some t.value
      else if str_eq fallback ""
      then none
      else some fallback

  -- `_put(bindings, scope, alias, binding)`, where an alias was found.
  unfoldable pub put : Scope → Option String → Binding → Bindings → Option Bindings
  unfolding find
  put scope none b bindings = none
  put scope (some name) b bindings = elim (find scope (casefold name) bindings) [
    | none ↦ some (bindings ++ (scope, casefold name, b) ∷ [])
    | some _ ↦ none
  ]

  -- The table that a token names, with the tokens that follow it.
  named_table : List String → Token → List Token → Option (String × List Token)
  unfolding joined after_five
  named_table tables t rest =
      if t.quoted && contains tables t.value
      then some (t.value, rest)
      else elim (joined (t ∷ rest)) [
        | none ↦ none
        | some name ↦ if contains tables name then some (name, after_five (t ∷ rest)) else none
      ]

  physical_binding : List String → Token → List Token → Bindings → Option Bindings
  unfolding named_table alias put after_dot or_whole
  physical_binding tables t rest bindings = elim (named_table tables t rest) [
    | none ↦ some bindings
    | some (table, following) ↦
        put t.scope (alias following (or_whole (after_dot table) table))
          (record { table = table; path = []; scalar = false }) bindings
  ]

  physical_from : List String → List Token → Option Bindings → Option Bindings
  unfolding physical_binding
  physical_from tables ts none = none
  physical_from tables [] (some bindings) = some bindings
  physical_from tables (t ∷ rest) (some bindings) =
      physical_from tables rest (physical_binding tables t rest bindings)

  -- `_physical_bindings(tokens, execution)`
  unfoldable pub physical_bindings : Policy → List Token → Option Bindings
  unfolding physical_from
  physical_bindings p ts = elim (physical_from p.query_tables ts (some [])) [
    | none ↦ none
    | some [] ↦ none
    | some (b ∷ bs) ↦ elim p.schema_fields [ [] ↦ none | f ∷ fs ↦ some (b ∷ bs) ]
  ]
