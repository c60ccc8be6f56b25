-- ===== src/Spending.antt =====
-- The priced reservations of spikes/schema-generalization-evaluation and the clients that hold them:
-- the pricing snapshot of manifest_runtime_meter.py, vertex_budget.py, bigquery_budget.py,
-- vertex_budget_adapter.py and bigquery_budget_adapter.py.
pub mod Pricing
pub mod Ceilings
pub mod Vertex
pub mod Bounds
pub mod Settled
pub mod QueryJob
pub mod JobPhases
pub mod Queried
mod Tests
