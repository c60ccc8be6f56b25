-- ===== src/Pipeline.antt =====
-- One planned run of the schema evaluation, from the preflight to its recording:
-- preflight.py and the manifest_*.py modules of spikes/schema-generalization-evaluation.
pub mod Attempts
pub mod Result
pub mod Boundary
pub mod Stages
pub mod Validation
pub mod Inspection
pub mod Run
pub mod Artifacts
pub mod Collection
pub mod Measured
pub mod Accepted
pub mod Sound
pub mod Tests
pub mod Recording
