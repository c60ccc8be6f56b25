-- ===== src/BigQuery/Contract.antt =====
-- `contract_sql_diagnostic` of contract_sql_validation.py: whether the paths of a query contradict the
-- schema of the policy. The one refusal, whatever raised it, is `none` or `true` here.
pub mod Tables
pub mod Fields
use Prim.Native.Char.{code}
use text.Mathlib.Text.{◌==◌ as str_eq}
use repchat.Prelude.{
  ℕ, zero, suc, ◌+◌, ◌-◌, String, Bool, true, false, not, ◌&&◌, ◌||◌, Option, none, some, List, [],
  ◌∷◌, ◌++◌, map, length, ◌==◌, if◌then◌else◌,
}
use repchat.BigQuery.Words.{append}
use repchat.BigQuery.Validation.{Policy, FieldPolicy, contains}
use repchat.BigQuery.Scan.{is_name_char}
use repchat.BigQuery.Replace.{line_end, run_length, drop, take}
use repchat.BigQuery.Tokens.{Scope, Token, is_identifier, tokens, raws, mask}
use repchat.BigQuery.Contract.Tables.{
  Bindings, keywords, scopes_equal, visible_tables, path_of, alias, put, physical_bindings,
}
use repchat.BigQuery.Contract.Fields.{Resolved, mismatch, no_field, field, field_at, resolve}

-- `casefold` and `upper` of `str` are parameters.
module _ (casefold upper : String → String) where
  is_structure : String → Bool
  is_structure t = str_eq t "RECORD" || str_eq t "STRUCT"

  -- The tokens before the parenthesis that closes a scope.
  before_close : Scope → List Token → List Token
  unfolding scopes_equal
  before_close scope [] = []
  before_close scope (t ∷ rest) =
      let others = before_close scope rest in
      if str_eq t.value ")" && scopes_equal t.scope scope then [] else t ∷ others

  after_close : Scope → List Token → List Token
  unfolding scopes_equal
  after_close scope [] = []
  after_close scope (t ∷ rest) =
      let others = after_close scope rest in
      if str_eq t.value ")" && scopes_equal t.scope scope then rest else others

  -- What the alias of an unnested field is bound to.
  bind_unnested : Scope → List Token → Bindings → Resolved → Option Bindings
  unfolding alias put is_structure
  bind_unnested scope following bindings mismatch = none
  bind_unnested scope following bindings no_field = some bindings
  bind_unnested scope following bindings (field f prefix) =
      if not (str_eq f.mode "REPEATED") || f.restricted
      then none
      else put casefold upper scope (alias casefold upper following "")
          (record { table = f.table; path = f.path; scalar = not (is_structure f.field_type) })
          bindings

  -- One round of `_unnest`; the tokens of the call are those after its parenthesis.
  unnest_at : List FieldPolicy → Token → List Token → Bindings → Option Bindings
  unfolding path_of before_close after_close resolve bind_unnested
  unnest_at fields t [] bindings = some bindings
  unnest_at fields t (o ∷ []) bindings = some bindings
  unnest_at fields t (o ∷ a ∷ rest) bindings =
      if not (str_eq (upper t.value) "UNNEST") || not (str_eq o.value "(")
      then some bindings
      else elim (path_of (before_close t.scope (a ∷ rest))) [
        | none ↦ some bindings
        | some segments ↦
            bind_unnested t.scope (after_close t.scope (a ∷ rest)) bindings
              (resolve casefold upper fields bindings t.scope segments)
      ]

  -- `_unnest(tokens, bindings, fields)`
  unnest : List FieldPolicy → List Token → Option Bindings → Option Bindings
  unfolding unnest_at
  unnest fields ts none = none
  unnest fields [] (some bindings) = some bindings
  unnest fields (t ∷ rest) (some bindings) = unnest fields rest (unnest_at fields t rest bindings)

  -- A part of a field's path that is repeated, or that `fields` has not under its own letters, for
  -- which the program raises `KeyError`; the prefix of the binding is passed over.
  repeated_part : List FieldPolicy → String → ℕ → List String → List String → Bool
  unfolding field_at
  repeated_part fields table skip done [] = false
  repeated_part fields table skip done (s ∷ []) = false
  repeated_part fields table (suc skip) done (s ∷ t ∷ rest) =
      repeated_part fields table skip (done ++ s ∷ []) (t ∷ rest)
  repeated_part fields table zero done (s ∷ t ∷ rest) =
      let later = repeated_part fields table zero (done ++ s ∷ []) (t ∷ rest) in
      elim (field_at casefold upper fields table (done ++ s ∷ [])) [
        | none ↦ true
        | some f ↦ str_eq f.mode "REPEATED" || later
      ]

  path_refused : List FieldPolicy → Resolved → Bool
  unfolding repeated_part
  path_refused fields mismatch = true
  path_refused fields no_field = false
  path_refused fields (field f prefix) =
      f.restricted
      || not (str_eq f.mode "REPEATED") && repeated_part fields f.table (length prefix) [] f.path

  -- The number of tokens of the path that starts at a token.
  chain_length : List Token → ℕ
  chain_length [] = 0
  chain_length (t ∷ []) = 1
  chain_length (t ∷ d ∷ []) = 1
  chain_length (t ∷ d ∷ u ∷ rest) =
      let longer = chain_length (u ∷ rest) in if str_eq d.value "." then 2 + longer else 1

  first_tokens : ℕ → List Token → List Token
  first_tokens zero ts = []
  first_tokens (suc n) [] = []
  first_tokens (suc n) (t ∷ ts) = t ∷ first_tokens n ts

  refused_at : List FieldPolicy → Bindings → Token → List Token → Bool
  unfolding path_of first_tokens chain_length resolve path_refused
  refused_at fields bindings t rest =
      not (chain_length (t ∷ rest) == 1)
      && (elim (path_of (first_tokens (chain_length (t ∷ rest)) (t ∷ rest))) [
        | none ↦ false
        | some segments ↦
            path_refused fields (resolve casefold upper fields bindings t.scope segments)
      ])

  -- `_qualified_paths(tokens, bindings, fields)` raises; the number of tokens is passed over.
  qualified_refused : List FieldPolicy → Bindings → ℕ → List Token → Bool
  unfolding refused_at chain_length
  qualified_refused fields bindings n [] = false
  qualified_refused fields bindings (suc n) (t ∷ rest) = qualified_refused fields bindings n rest
  qualified_refused fields bindings zero (t ∷ rest) =
      refused_at fields bindings t rest
      || qualified_refused fields bindings (chain_length (t ∷ rest) - 1) rest

  restricted_field : List FieldPolicy → List String → List String → Bool
  unfolding field_at
  restricted_field fields path [] = false
  restricted_field fields path (t ∷ ts) =
      let others = restricted_field fields path ts in
      elim (field_at casefold upper fields t path) [
        | none ↦ others
        | some f ↦ f.restricted || others
      ]

  value_of_first : List Token → String
  value_of_first [] = ""
  value_of_first (t ∷ ts) = t.value

  -- `_unqualified_restricted(tokens, bindings, fields)` raises; the text is the token before, in
  -- upper case.
  unqualified_refused : List FieldPolicy → Bindings → String → List Token → Bool
  unfolding restricted_field visible_tables value_of_first
  unqualified_refused fields bindings before [] = false
  unqualified_refused fields bindings before (t ∷ rest) =
      not (not t.quoted && (not (is_identifier t.value) || contains keywords (upper t.value)))
        && not (contains ("." ∷ "AS" ∷ []) before)
        && not (contains ("." ∷ "(" ∷ []) (value_of_first rest))
        && restricted_field fields (casefold t.value ∷ []) (visible_tables t.scope bindings)
      || unqualified_refused fields bindings (upper t.value) rest

  -- `contract_sql_diagnostic(sql, execution)` finds an error.
  unfoldable pub contract_sql_diagnostic : String → Policy → Bool
  unfolding physical_bindings unnest qualified_refused unqualified_refused tokens raws mask
      is_identifier is_name_char line_end run_length drop take
  contract_sql_diagnostic sql p =
      let ts = tokens upper sql in
      elim (unnest p.schema_fields ts (physical_bindings casefold upper p ts)) [
        | none ↦ true
        | some bindings ↦
            qualified_refused p.schema_fields bindings 0 ts
            || unqualified_refused p.schema_fields bindings "" ts
      ]
