-- ===== src/Scheduler.antt =====
-- control-plane/src/scheduler: when schedules run.
pub mod Cron
pub mod Store
pub mod Service
pub mod Manage
mod Examples
