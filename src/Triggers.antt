-- ===== src/Triggers.antt =====
-- control-plane/src/triggers: rewards for a first join, for playtime and for donations.
pub mod Catalog
pub mod Fires
pub mod Backfill
pub mod Manage
mod Examples
