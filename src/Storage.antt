-- ===== src/Storage.antt =====
-- storage/src: what a host keeps of the network's data.
pub mod Replication
pub mod Files
pub mod Shards
pub mod Sandbox
pub mod Disk
mod Tests
