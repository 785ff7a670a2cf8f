-- ===== src/Compute/Tests.antt =====
-- Runs and concrete instances of the theorems on the compute subsystem.
pub mod Samples
mod StoreRuns
mod ExecutorRuns
mod PolicyRuns
mod GasRuns
mod BatchRuns
mod SchedulerRuns
mod RunnerRuns
