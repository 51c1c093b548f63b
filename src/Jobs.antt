-- ===== src/Jobs.antt =====
-- control-plane/src/jobs and control-plane/src/batches: job runs and the counters of batches.
pub mod Store
pub mod Batches
pub mod Runs
pub mod Console
pub mod Queue
pub mod Access
mod Examples
