-- ===== src/P2p.antt =====
-- p2p/src: messages, heartbeats, the gossip queue, storage challenges, and the node that joins them.
pub mod Message
pub mod Heartbeat
pub mod Gossip
pub mod Challenge
pub mod Config
pub mod Behaviour
pub mod Node
pub mod Discovery
mod Tests
