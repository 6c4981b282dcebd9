-- ===== src/Gsbench.antt =====
-- The load generator and fault injector, internal/gsbench.
pub mod Action
pub mod Journal
pub mod Ledger
pub mod Controller
pub mod Topology
pub mod Capacity
pub mod Safety
pub mod Store
pub mod Restore
