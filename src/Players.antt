-- ===== src/Players.antt =====
-- control-plane/src/players: who is on a server, as the agent's player list tells it.
pub mod Parse
pub mod Store
pub mod Identity
pub mod Roster
pub mod Protection
mod Examples
