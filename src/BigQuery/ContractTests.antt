-- ===== src/BigQuery/ContractTests.antt =====
-- Queries at the check of a contract's schema.
use text.Mathlib.Text.{◌==◌ as str_eq}
use repchat.Prelude.{◌≡◌, refl, String, Bool, true, false, List, [], ◌∷◌, if◌then◌else◌}
use repchat.BigQuery.Validation.{Policy, FieldPolicy}
use repchat.BigQuery.Contract.{contract_sql_diagnostic}

abbrev table_name : String
table_name = "p-1.sales.orders"

abbrev plain : List String → String → Bool → FieldPolicy
plain path mode restricted = record {
  table = table_name;
  path = path;
  field_type = "STRING";
  mode = mode;
  restricted = restricted;
}

abbrev schema : Policy
schema = record {
  query_tables = table_name ∷ [];
  job_tables = table_name ∷ [];
  maximum_bytes_billed = 100;
  maximum_result_rows = 10;
  schema_fields =
      plain ("id" ∷ []) "NULLABLE" false
      ∷ plain ("email" ∷ []) "NULLABLE" true
      ∷ plain ("items" ∷ []) "REPEATED" false
      ∷ plain ("items" ∷ "price" ∷ []) "NULLABLE" false
      ∷ plain ("User" ∷ []) "NULLABLE" false
      ∷ plain ("User" ∷ "id" ∷ []) "NULLABLE" false
      ∷ [];
}

-- `str.casefold` on the names of the tests.
abbrev casefold : String → String
casefold s = if str_eq s "User" then "user" else s

-- The queries have their keywords in upper case.
abbrev check : String → Bool
check s = contract_sql_diagnostic casefold (λ x. x) s schema

field_of_table : check "SELECT o.id, 'o.x' FROM `p-1.sales.orders` AS o -- o.y" ≡ false
unfolding contract_sql_diagnostic
field_of_table = refl

unknown_field : check "SELECT o.name FROM `p-1.sales.orders` o" ≡ true
unfolding contract_sql_diagnostic
unknown_field = refl

restricted_name : check "SELECT email FROM `p-1.sales.orders`" ≡ true
unfolding contract_sql_diagnostic
restricted_name = refl

repeated_without_unnest : check "SELECT o.items.price FROM `p-1.sales.orders` o" ≡ true
unfolding contract_sql_diagnostic
repeated_without_unnest = refl

repeated_with_unnest : check "SELECT id FROM `p-1.sales.orders` o, UNNEST(o.items) i" ≡ false
unfolding contract_sql_diagnostic
repeated_with_unnest = refl

alias_twice : check "SELECT id FROM `p-1.sales.orders` o, `p-1.sales.orders` o" ≡ true
unfolding contract_sql_diagnostic
alias_twice = refl

-- A part of the schema that is not in lower case is not found again under its own letters.
upper_case_part : check "SELECT o.User.id FROM `p-1.sales.orders` o" ≡ true
unfolding contract_sql_diagnostic
upper_case_part = refl
