-- ===== src/Diagnostic.antt =====
-- The closed SQL diagnostics: spikes/report-generation/sql_diagnostic.py.
use repchat.Prelude.{String}

-- `SQLDiagnosticCategory`
pub data Category : Type 0 where
  invalid_request unauthorized_reference dangerous_sql scan_limit_exceeded : Category
  provider_failure infrastructure_failure cancelled : Category

-- `SQLDiagnosticCode`
pub data Code : Type 0 where
  analysis_contract_required not_select multiple_statements forbidden_keyword select_star : Code
  table_decorator_outside_scope table_outside_scope contract_table_required : Code
  schema_policy_mismatch : Code
  dry_run_statement_not_select dry_run_references_missing dry_run_reference_incomplete : Code
  dry_run_table_outside_scope dry_run_bytes_missing dry_run_scan_limit_exceeded : Code
  dry_run_provider_failure : Code
  execution_bytes_missing execution_scan_limit_exceeded execution_cancelled : Code
  execution_timeout execution_provider_failure : Code

-- `_SQL_DIAGNOSTICS`: the category of each code.
unfoldable pub category_of : Code → Category
category_of analysis_contract_required = invalid_request
category_of not_select = dangerous_sql
category_of multiple_statements = dangerous_sql
category_of forbidden_keyword = dangerous_sql
category_of select_star = dangerous_sql
category_of table_decorator_outside_scope = unauthorized_reference
category_of table_outside_scope = unauthorized_reference
category_of contract_table_required = dangerous_sql
category_of schema_policy_mismatch = unauthorized_reference
category_of dry_run_statement_not_select = dangerous_sql
category_of dry_run_references_missing = unauthorized_reference
category_of dry_run_reference_incomplete = unauthorized_reference
category_of dry_run_table_outside_scope = unauthorized_reference
category_of dry_run_bytes_missing = provider_failure
category_of dry_run_scan_limit_exceeded = scan_limit_exceeded
category_of dry_run_provider_failure = provider_failure
category_of execution_bytes_missing = provider_failure
category_of execution_scan_limit_exceeded = scan_limit_exceeded
category_of execution_cancelled = cancelled
category_of execution_timeout = infrastructure_failure
category_of execution_provider_failure = provider_failure

-- `_SQL_DIAGNOSTICS`: the message of each code.
unfoldable pub message_of : Code → String
message_of analysis_contract_required = "rejected: analysis contract required"
message_of not_select = "rejected: not a SELECT"
message_of multiple_statements = "rejected: multiple statements"
message_of forbidden_keyword = "rejected: forbidden keyword"
message_of select_star = "rejected: SELECT * anti-pattern"
message_of table_decorator_outside_scope =
    "rejected: table decorator is outside the analysis contract"
message_of table_outside_scope = "rejected: table is outside the analysis contract"
message_of contract_table_required = "rejected: query must reference an analysis contract table"
message_of schema_policy_mismatch = "rejected: schema policyとSQLを照合できません。"
message_of dry_run_statement_not_select = "bq dry-run rejected: statement type must be SELECT"
message_of dry_run_references_missing = "bq dry-run rejected: referenced tables were not returned"
message_of dry_run_reference_incomplete =
    "bq dry-run rejected: referenced table identity is incomplete"
message_of dry_run_table_outside_scope =
    "bq dry-run rejected: table is outside the analysis contract"
message_of dry_run_bytes_missing = "bq dry-run rejected: bytes processed were not returned"
message_of dry_run_scan_limit_exceeded = "bq dry-run rejected: scan limit exceeded"
message_of dry_run_provider_failure = "bq dry-run error: provider request failed"
message_of execution_bytes_missing = "bq execution rejected: bytes processed were not returned"
message_of execution_scan_limit_exceeded = "bq execution rejected: scan limit exceeded"
message_of execution_cancelled = "cancelled"
message_of execution_timeout = "bq error: TimeoutError: query exceeded 180 seconds"
message_of execution_provider_failure = "bq error: provider request failed"

pub record SqlDiagnostic : Type 0 where
  pub code : Code
  pub category : Category
  pub message : String

-- `sql_diagnostic(code)`
unfoldable pub sql_diagnostic : Code → SqlDiagnostic
unfolding category_of message_of
sql_diagnostic c = record { code = c; category = category_of c; message = message_of c }

-- `code.value`
unfoldable pub value_of : Code → String
value_of analysis_contract_required = "analysis_contract_required"
value_of not_select = "not_select"
value_of multiple_statements = "multiple_statements"
value_of forbidden_keyword = "forbidden_keyword"
value_of select_star = "select_star"
value_of table_decorator_outside_scope = "table_decorator_outside_scope"
value_of table_outside_scope = "table_outside_scope"
value_of contract_table_required = "contract_table_required"
value_of schema_policy_mismatch = "schema_policy_mismatch"
value_of dry_run_statement_not_select = "dry_run_statement_not_select"
value_of dry_run_references_missing = "dry_run_references_missing"
value_of dry_run_reference_incomplete = "dry_run_reference_incomplete"
value_of dry_run_table_outside_scope = "dry_run_table_outside_scope"
value_of dry_run_bytes_missing = "dry_run_bytes_missing"
value_of dry_run_scan_limit_exceeded = "dry_run_scan_limit_exceeded"
value_of dry_run_provider_failure = "dry_run_provider_failure"
value_of execution_bytes_missing = "execution_bytes_missing"
value_of execution_scan_limit_exceeded = "execution_scan_limit_exceeded"
value_of execution_cancelled = "execution_cancelled"
value_of execution_timeout = "execution_timeout"
value_of execution_provider_failure = "execution_provider_failure"
