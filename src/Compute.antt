-- ===== src/Compute.antt =====
-- The compute subsystem: crates/rabbitcore/src/compute.
pub mod Types
pub mod Results
pub mod Store
pub mod Tx
pub mod Validate
pub mod Executor
pub mod Policy
pub mod Gas
pub mod Batch
pub mod Scheduler
pub mod Runner
pub mod Tests
