-- ===== src/Core.antt =====
-- core/src: hashing, chunks, padding, encryption, erasure coding, Merkle trees, challenges and recovery phrases.
pub mod Extern
pub mod Types
pub mod Merkle
pub mod Chunking
pub mod Padding
pub mod Erasure
pub mod Encryption
pub mod Challenge
pub mod Recovery
pub mod Restore
pub mod Tests
