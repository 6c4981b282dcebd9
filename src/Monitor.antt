-- ===== src/Monitor.antt =====
-- The session monitor of internal/monitor: who blocks whom.
pub mod Deadlocks
pub mod Blocking
pub mod LockTree
mod Examples
