-- ===== src/Core/Types.antt =====
-- core/src/types.rs: the constants and `ChunkId`.
use dest.Base.{ℕ, ◌+◌, ◌*◌, ◌≡◌, ap, Option, none, some, List, length, if◌then◌else◌, ◌==◌, arith}
unfoldable pub use dest.Base.Text.{bytes_eq}
pub use dest.Base.Text.{bytes_eq_refl, eq_of_bytes_eq, bytes_eq_iff}
use dest.Core.Extern.{Bytes, Text, Blake3, Hex, encode-injective}

-- `CHUNK_SIZE`: 4 MiB.
abbrev pub chunk_size : ℕ
chunk_size = 4 * 1024 * 1024

abbrev pub rs_data_shards : ℕ
rs_data_shards = 3

abbrev pub rs_parity_shards : ℕ
rs_parity_shards = 2

abbrev pub rs_total_shards : ℕ
rs_total_shards = rs_data_shards + rs_parity_shards

abbrev pub block_size : ℕ
block_size = chunk_size

abbrev pub key_len : ℕ
key_len = 32

abbrev pub nonce_len : ℕ
nonce_len = 24

abbrev pub tag_len : ℕ
tag_len = 16

abbrev pub salt_len : ℕ
salt_len = 32

abbrev pub derived_key_len : ℕ
derived_key_len = 32

abbrev pub heartbeat_interval_secs : ℕ
heartbeat_interval_secs = 900

abbrev pub replication_timeout_secs : ℕ
replication_timeout_secs = 600

abbrev pub export_window_secs : ℕ
export_window_secs = 48 * 3600

pub data MnemonicWordCount : Type 0 where
  twelve twenty_four : MnemonicWordCount

-- `pub struct ChunkId(pub [u8; 32])`
abbrev pub ChunkId : Type 0
ChunkId = Bytes

-- `hex::decode` with the length test that `from_hex` and `verify_proof` make.
unfoldable pub decode32 : ⦃hx : Hex⦄ → Text → Option Bytes
decode32 ⦃hx⦄ t = elim (hx.decode t) [
  | none ↦ none
  | some b ↦ if length b == 32 then some b else none
]

pub decode32-encode : ⦃hx : Hex⦄ → (b : Bytes) → length b ≡ 32 → decode32 (hx.encode b) ≡ some b
unfolding decode32
decode32-encode ⦃hx⦄ b h = rw (hx.decode-encode b, decode32) (ground arith)

pub length-decode32 : ⦃hx : Hex⦄ → (t : Text) {b : Bytes} → decode32 t ≡ some b → length b ≡ 32
unfolding decode32
length-decode32 t e = ground arith

-- `ChunkId::new`
unfoldable pub new : ⦃b3 : Blake3⦄ → Bytes → ChunkId
new ⦃b3⦄ d = b3.hash d

-- `ChunkId::as_hex`, which `Display` prints too.
unfoldable pub as_hex : ⦃hx : Hex⦄ → ChunkId → Text
as_hex ⦃hx⦄ c = hx.encode c

-- `ChunkId::from_hex`; `none` is the error.
unfoldable pub from_hex : ⦃hx : Hex⦄ → Text → Option ChunkId
from_hex t = decode32 t

pub as_hex-injective : ⦃hx : Hex⦄ → (c e : ChunkId) → as_hex c ≡ as_hex e → c ≡ e
unfolding as_hex
as_hex-injective c e h = encode-injective c e h

pub bytes_eq-as_hex : ⦃hx : Hex⦄ → (c e : ChunkId) → bytes_eq (as_hex c) (as_hex e) ≡ bytes_eq c e
bytes_eq-as_hex c e =
    ground
      (arith, bytes_eq_iff (as_hex c) (as_hex e), bytes_eq_iff c e, as_hex-injective c e, ap as_hex)

pub from_hex-as_hex_id : ⦃hx : Hex⦄ → (c : ChunkId) → length c ≡ 32 → from_hex (as_hex c) ≡ some c
unfolding from_hex as_hex
from_hex-as_hex_id c l = decode32-encode c l

-- A chunk's id survives printing and parsing.
from_hex-as_hex : ⦃b3 : Blake3⦄ ⦃hx : Hex⦄ → (d : Bytes) → from_hex (as_hex (new d)) ≡ some (new d)
unfolding from_hex as_hex new
from_hex-as_hex ⦃b3⦄ d = decode32-encode (b3.hash d) (b3.length-hash d)

-- `ShardIndex`
abbrev pub ShardIndex : Type 0
ShardIndex = ℕ

pub record EncryptedShard : Type 0 where
  pub chunk_id : ChunkId
  pub shard_index : ShardIndex
  pub nonce : Bytes
  pub length-nonce : length nonce ≡ nonce_len
  pub ciphertext : Bytes
  pub tag : Bytes
  pub length-tag : length tag ≡ tag_len

-- `StorageChallenge` and `StorageProof`.
pub record StorageChallenge : Type 0 where
  pub chunk_id : ChunkId
  pub leaf_indices : List ℕ
  pub nonce : Bytes
  pub timestamp : ℕ

pub record StorageProof : Type 0 where
  pub chunk_id : ChunkId
  pub leaf_indices : List ℕ
  pub leaves : List Bytes
  pub proofs : List (List Text)
  pub root : Text

-- `MasterKey`, `DerivedKey` and `Nonce`: bytes, whose number the type of each fixes.
pub record MasterKey : Type 0 where
  pub bytes : Bytes
  pub length-bytes : length bytes ≡ key_len

pub record DerivedKey : Type 0 where
  pub bytes : Bytes
  pub length-bytes : length bytes ≡ derived_key_len

pub record Nonce : Type 0 where
  pub bytes : Bytes
  pub length-bytes : length bytes ≡ nonce_len
