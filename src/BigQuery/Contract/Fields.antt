-- ===== src/BigQuery/Contract/Fields.antt =====
-- The field that a path of a query stands for: `_field_index` and `_resolve` of
-- contract_sql_validation.py.
use text.Mathlib.Text.{◌==◌ as str_eq}
use repchat.Prelude.{
  String, Bool, true, false, ◌&&◌, Option, none, some, List, [], ◌∷◌, ◌++◌, map, if◌then◌else◌,
}
use repchat.BigQuery.Validation.{FieldPolicy}
use repchat.BigQuery.Tokens.{Scope}
use repchat.BigQuery.Contract.Tables.{Binding, Bindings, find, visible_tables}

-- What `_resolve` gives: it raises, it finds no field, or a field with the prefix of its binding.
pub data Resolved : Type 0 where
  mismatch no_field : Resolved
  field : FieldPolicy → List String → Resolved

texts_equal : List String → List String → Bool
texts_equal [] [] = true
texts_equal (s ∷ ss) (t ∷ ts) = str_eq s t && texts_equal ss ts
texts_equal _ _ = false

-- `casefold` and `upper` of `str` are parameters.
module _ (casefold upper : String → String) where
  fold_path : List String → List String
  fold_path path = map casefold path

  -- `fields.get((table, path))` of `_field_index`, where a later field takes the place of an earlier.
  unfoldable pub field_at : List FieldPolicy → String → List String → Option FieldPolicy
  unfolding fold_path texts_equal
  field_at [] table path = none
  field_at (f ∷ fs) table path = elim (field_at fs table path) [
    | some g ↦ some g
    | none ↦ if str_eq f.table table && texts_equal (fold_path f.path) path then some f else none
  ]

  -- The binding of a folded name in the longest of the scopes that begin with `done`.
  binding_from : Bindings → String → Scope → Scope → Option Binding
  unfolding find
  binding_from bindings name done [] = find done name bindings
  binding_from bindings name done (x ∷ rest) =
      elim (binding_from bindings name (done ++ x ∷ []) rest) [
        | some b ↦ some b
        | none ↦ find done name bindings
      ]

  -- The fields of the visible tables at a path.
  visible_fields : List FieldPolicy → List String → List String → List FieldPolicy
  unfolding field_at
  visible_fields fields path [] = []
  visible_fields fields path (t ∷ ts) =
      let others = visible_fields fields path ts in
      elim (field_at fields t path) [ none ↦ others | some f ↦ f ∷ others ]

  resolve_visible : List FieldPolicy → Resolved
  resolve_visible [] = no_field
  resolve_visible (f ∷ []) = field f []
  resolve_visible (f ∷ g ∷ fs) = mismatch

  resolve_bound : List FieldPolicy → Binding → List String → Resolved
  unfolding field_at fold_path
  resolve_bound fields b [] = mismatch
  resolve_bound fields b (s ∷ []) = mismatch
  resolve_bound fields b (s ∷ t ∷ rest) =
      if b.scalar
      then mismatch
      else elim (field_at fields b.table (fold_path (b.path ++ t ∷ rest))) [
        | none ↦ mismatch
        | some f ↦ field f b.path
      ]

  -- `_resolve(segments, scope, bindings, fields)`
  unfoldable pub resolve : List FieldPolicy → Bindings → Scope → List String → Resolved
  unfolding binding_from visible_fields visible_tables resolve_visible resolve_bound fold_path
  resolve fields bindings scope [] = mismatch
  resolve fields bindings scope (s ∷ rest) = elim (binding_from bindings (casefold s) [] scope) [
    | none ↦
        resolve_visible
          (visible_fields fields (fold_path (s ∷ rest)) (visible_tables scope bindings))
    | some b ↦ resolve_bound fields b (s ∷ rest)
  ]
