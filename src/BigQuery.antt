-- ===== src/BigQuery.antt =====
-- The BigQuery calls of the common modules: bigquery_execution.py of spikes/report-generation. The
-- display messages, which repeat the diagnostic or quote the provider, are left out.
pub mod Scan
pub mod Replace
pub mod Validation
pub mod Tokens
pub mod Contract
pub mod Words
pub mod Allowed
pub mod DryRun
pub mod Execution
pub mod Wait
pub mod Inspected
pub mod Staged
pub mod Lawful
pub mod Composed
pub mod Tests
mod RunTests
mod ContractTests
