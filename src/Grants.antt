-- ===== src/Grants.antt =====
-- control-plane/src/donations/shop-grants.ts: reading grant items, their delivery states and the
-- classification of a command's output.
pub mod Items
pub mod Status
pub mod Stored
pub mod Outcome
pub mod Command
pub mod Delivery
mod Examples
