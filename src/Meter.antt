-- ===== src/Meter.antt =====
-- The measurement of a run: `_RunLedger`, the measured clients and `RuntimeMeter` of
-- spikes/schema-generalization-evaluation/manifest_runtime_meter.py. The floats of
-- `RuntimePricing.cost_jpy` are a parameter.
pub mod Ledger
pub mod Run
pub mod Accounted
pub mod Complete
pub mod Steps
pub mod Metered
mod Tests
