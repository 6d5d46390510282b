-- ===== src/Ledger.antt =====
-- ledger/src: how the peers' ledgers are brought together.
pub mod Json
pub mod Conflict
pub mod GossipSync
pub mod Store
mod Tests
