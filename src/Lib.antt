-- ===== src/Lib.antt =====
-- VaultKeeper P2P, a peer-to-peer storage system: a verification of its Rust crates.
--
-- A client cuts its data into chunks, pads and hashes them and builds a Merkle tree over them (core);
-- hosts keep shards of the chunks and prove that they do (p2p, storage); peers follow each other by
-- heartbeats, exchange messages through a prioritized queue, and when one dies the replication manager
-- says which chunks have to be repaired (p2p, storage); every hour of storage is charged to a prepaid
-- account, which is frozen and in the end deleted when it runs out (billing); and the peers' ledgers of
-- these movements are brought together by adverts, requests and the resolution of conflicts (ledger). A
-- command line sets up the data directory of a node and starts its daemon with an HTTP interface (cli).
--
-- The parts, and the code that each models. A definition bears the name of the Rust function or type,
-- a method takes its object last and returns it first, and a helper that stands for a loop, a closure
-- or a match within a function is named for what it does. Beneath a component stand the modules of its
-- proofs, named for what they prove.
--
-- - Base: what the components share. Base/Int has the signed integers over the native numbers and the
--   wrap-around of 64-bit ones, Base/Text the byte strings and the order of texts, Base/HashMap the hash
--   maps with text keys, as a list of entries in the order in which an iteration meets them.
-- - Core: core/src. Core/Types is types.rs, Core/Merkle merkle.rs (MerkleTree::from_hashes, proof,
--   verify_proof), Core/Challenge its generate_challenge, Core/Chunking chunking.rs, Core/Padding
--   padding.rs, Core/Erasure erasure.rs with the interface of the Reed-Solomon crate, Core/Encryption
--   encryption.rs with those of the cipher and of Argon2, Core/Recovery bip39_recovery.rs with that of
--   the crate bip39. Core/Extern holds the interfaces of the crates blake3 and hex: a
--   hash has 32 bytes, and what is encoded decodes.
-- - Billing: billing/src. Billing/Rates is rates.rs, Billing/Types types.rs, Billing/Freeze freeze.rs,
--   Billing/Account account.rs (deposit, charge, request_withdrawal), Billing/Calculator calculator.rs,
--   Billing/Subscription subscription.rs. Billing/Extern holds the interfaces of chrono and
--   rust_decimal. What rounding and overflow of decimals could spoil is stated where amounts are exact,
--   by the laws of IsExact and IsExactProduct.
-- - P2p: p2p/src. P2p/Message is message.rs, P2p/Heartbeat heartbeat.rs (process_heartbeat, tick),
--   P2p/Gossip gossip.rs (GossipQueue, SeenMessages, the priorities), P2p/Challenge challenge.rs,
--   P2p/Config config.rs, P2p/Behaviour behaviour.rs, P2p/Node node.rs, P2p/Discovery discovery.rs over
--   an interface for libp2p's table of peers.
-- - Storage: storage/src. Storage/Replication is replication.rs, Storage/Shards shard_store.rs,
--   Storage/Disk disk.rs, Storage/Sandbox sandbox.rs. Storage/Files is what these and cli use of
--   std::fs: a base directory with files and with directories of files, in which every call that changes
--   something can be refused and a write can stop in the middle.
-- - Ledger: ledger/src. Ledger/Conflict is conflict.rs, Ledger/GossipSync gossip_sync.rs,
--   Ledger/Store schema.rs and store.rs with the tables as lists of rows. Ledger/Json is the interface
--   of serde_json.
-- - Cli: cli/src. Cli/Config is config.rs, Cli/Commands commands.rs (Cli/Commands/Handle its choice of
--   the command), Cli/Api api.rs with the events of the network as a list, Cli/Main main.rs.
-- - Tauri: tauri/src-tauri/src/lib.rs.
--
-- How they meet: Core/Types gives the chunk identifiers and challenges to P2p/Message and P2p/Challenge;
-- Billing/Freeze is the lifecycle inside Billing/Account; the weights of Billing/Subscription are those
-- that P2p/Gossip turns into priorities; Ledger/Conflict is the resolver inside Ledger/GossipSync;
-- Ledger/Store computes the same root as Core/Merkle, and Ledger/GossipSync/Exchange puts a round of
-- synchronization together from the two; Core/Encryption/Roundtrip joins the cipher with the erasure code,
-- Core/Encryption/Rebuilt puts decrypt after reconstruct as they stand,
-- Core/Restore both with chunking, Storage/Shards/Backup all of these with the shard store, and
-- Storage/Replication/Survival the cipher and the erasure code with the replication manager;
-- Billing/Account/Lifecycle follows an account from its last charge to its deletion, and
-- Billing/Account/Emptied reads its state off its transactions; P2p/Node puts the queue and the heartbeats
-- together; Cli/Main hands over to Cli/Commands, which starts the node, the ledger, the account and the
-- shard store and then the server of Cli/Api.
--
-- State is passed explicitly: a method takes the object and returns it changed. What a method reads of
-- the outside, the time, a new identifier or random bytes, is an argument or a parameter. A Result is an
-- outcome beside the unchanged object or an Option, and a panic is the none of an Option or an outcome
-- of its own. Sequences of calls are lists of calls that a function `run` carries out. Unsigned counters
-- keep their wrap-around at 2^32 or 2^64 written out.
--
-- Fuel: the loop of MerkleTree::from_hashes has one unit for each leaf, since every round on two hashes
-- or more makes the level shorter, as has that of compute_merkle_root. The loop of chunk_data has one
-- for each byte, since a round moves on by at least one, and so has chunks_exact in the encoding of
-- shards. All other loops are recursion on a list.
--
-- Decimal digits (Base/Decimal) have one unit for the number itself, and the trimming of a phrase one for
-- each byte.
--
-- Not modelled: SQLite's opening of a file; the transport and the key pairs of libp2p; the clearing of keys
-- in memory; the parsing of command line arguments, printing and logging; the start of the desktop shell;
-- serialization and the Display implementations; the panics of rust_decimal when an amount
-- overflows. Two readings of the clock in one call (change_tier) are one argument; the order in which a
-- set is met is one function of its entries. Data directories are taken to lie apart, each under one name.
pub mod Base
pub mod Core
pub mod Billing
pub mod P2p
pub mod Storage
pub mod Ledger
pub mod Cli
pub mod Tauri
