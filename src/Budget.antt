-- ===== src/Budget.antt =====
-- The evaluation budget: spikes/schema-generalization-evaluation/execution_budget.py.
pub mod Amount
pub mod Gate
pub mod Trace
pub mod Behaviour
pub mod Run
pub mod Overlap
mod Tests
