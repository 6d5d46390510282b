-- ===== src/Storage/Shards.antt =====
-- storage/src/shard_store.rs: shards on disk, each as a file beside a file of metadata, in a directory for
-- its chunk. `now` is the clock's two answers in a call; JSON is an interface. An error is `none`.
pub mod Names
pub mod Laws
pub mod Deletion
pub mod Metadata
pub mod Runs
pub mod Crash
pub mod Listing
pub mod Listed
pub mod Download
pub mod Backup
pub mod Tidy
pub mod Size
pub mod Total
mod Tests
use dest.Base.{
  ℕ, ◌+◌, ◌%◌, ◌^◌, Bool, true, false, ◌&&◌, Option, none, some, List, [], ◌∷◌, ◌++◌, length, take,
  ◌<◌, ◌≡◌,
}
use dest.Base.Decimal.{to_decimal}
use dest.Base.Text.{Bytes, Text, bytes_eq}
use dest.Base.HashMap.{HashMap, values}
use dest.Core.Extern.{Blake3, Hex}
use dest.Core.Types.{ChunkId, as_hex, from_hex}
use dest.Storage.Files.{
  create_base, Node, Drive, create_dir_all, write, read, exists_file, remove_file, is_some,
}

pub record ShardMeta : Type 0 where
  pub chunk_id : Text
  pub shard_index : ℕ
  pub size : ℕ
  pub blake3_hash : Text
  pub created_at : Text
  pub last_verified : Text

-- `serde_json` on `ShardMeta`: what it prints reads back, and a part of an object is no JSON. Bytes that
-- are not UTF-8, which `read_to_string` refuses, read as `none` too.
pub record MetaJson : Type 0 where
  pub to_string_pretty : ShardMeta → Bytes
  pub from_str : Bytes → Option ShardMeta
  pub from_str-to_string : (m : ShardMeta) → from_str (to_string_pretty m) ≡ some m
  pub from_str-take :
      (m : ShardMeta) (k : ℕ)
      → k < length (to_string_pretty m)
      → from_str (take k (to_string_pretty m)) ≡ none

-- "shard_", ".bin" and ".meta.json"
abbrev pub shard_ : Text
shard_ = b's' ∷ b'h' ∷ b'a' ∷ b'r' ∷ b'd' ∷ b'_' ∷ []

abbrev pub bin : Text
bin = b'.' ∷ b'b' ∷ b'i' ∷ b'n' ∷ []

abbrev pub meta_json : Text
meta_json = b'.' ∷ b'm' ∷ b'e' ∷ b't' ∷ b'a' ∷ b'.' ∷ b'j' ∷ b's' ∷ b'o' ∷ b'n' ∷ []

-- The last parts of `shard_path` and `meta_path`.
pub shard_path : ℕ → Text
shard_path i = shard_ ++ (to_decimal i ++ bin)

pub meta_path : ℕ → Text
meta_path i = shard_ ++ (to_decimal i ++ meta_json)

-- `?` after a call of the file system.
abbrev pub and_then {ℓ} :
    {A : Type ℓ} → Drive × Bool → (Drive → Drive × Option A) → Drive × Option A
and_then (drv, true) k = k drv
and_then (drv, false) k = (drv, none)

abbrev pub done {ℓ} : {A : Type ℓ} → A → Drive × Bool → Drive × Option A
done x r = and_then r (λ drv. (drv, some x))

-- `if path.exists() { remove_file(path)?; }`
abbrev pub remove_found : Bool → Text → Text → Drive → Drive × Bool
remove_found true d n drv = remove_file d n drv
remove_found false d n drv = (drv, true)

abbrev pub remove_if_exists : Text → Text → Drive → Drive × Bool
remove_if_exists d n drv = remove_found (exists_file d n drv) d n drv

-- `ShardStore::new`; the store itself is no more than its base directory.
abbrev pub new : Drive → Drive × Bool
new drv = create_base drv

module _ ⦃hx : Hex⦄ where
  -- `chunk_directory`, in the base directory.
  abbrev pub chunk_directory : ChunkId → Text
  chunk_directory c = as_hex c

  module _ ⦃b3 : Blake3⦄ ⦃js : MetaJson⦄ where
    pub save_meta : ChunkId → ℕ → ShardMeta → Drive → Drive × Bool
    save_meta c i m drv = write (chunk_directory c) (meta_path i) (js.to_string_pretty m) drv

    abbrev pub parse_meta : Option Bytes → Option ShardMeta
    parse_meta none = none
    parse_meta (some b) = js.from_str b

    pub load_meta : ChunkId → ℕ → Drive → Option ShardMeta
    load_meta c i drv = parse_meta (read (chunk_directory c) (meta_path i) drv)

    abbrev pub new_meta : Text × Text → ChunkId → ℕ → Bytes → ShardMeta
    new_meta now c i bytes = record {
      chunk_id = as_hex c;
      shard_index = i;
      size = length bytes;
      blake3_hash = hx.encode (b3.hash bytes);
      created_at = now.0;
      last_verified = now.1;
    }

    pub store_shard : Text × Text → ChunkId → ℕ → Bytes → Drive → Drive × Option ShardMeta
    store_shard now c i bytes drv = and_then (create_dir_all (chunk_directory c) drv) (λ made.
        and_then (write (chunk_directory c) (shard_path i) bytes made) (λ written.
          done (new_meta now c i bytes) (save_meta c i (new_meta now c i bytes) written)))

    -- The test of the hash.
    abbrev pub check_hash : Bytes → Option ShardMeta → Option Bytes
    check_hash bytes none = none
    check_hash bytes (some m) = elim (bytes_eq (hx.encode (b3.hash bytes)) m.blake3_hash) [
      | true ↦ some bytes
      | false ↦ none
    ]

    abbrev pub check_read : Option Bytes → Option ShardMeta → Option Bytes
    check_read none meta = none
    check_read (some bytes) meta = check_hash bytes meta

    pub retrieve_shard : ChunkId → ℕ → Drive → Option Bytes
    retrieve_shard c i drv =
        check_read (read (chunk_directory c) (shard_path i) drv) (load_meta c i drv)

  -- The removal of the metadata, where that of the shard went well.
  abbrev pub remove_meta : ChunkId → ℕ → Drive × Bool → Drive × Bool
  remove_meta c i (drv, true) = remove_if_exists (chunk_directory c) (meta_path i) drv
  remove_meta c i (drv, false) = (drv, false)

  pub delete_shard : ChunkId → ℕ → Drive → Drive × Bool
  delete_shard c i drv = remove_meta c i (remove_if_exists (chunk_directory c) (shard_path i) drv)

  pub shard_exists : ChunkId → ℕ → Drive → Bool
  shard_exists c i drv = exists_file (chunk_directory c) (shard_path i) drv

  -- The names of directories that are chunk ids.
  abbrev pub push_id : Option ChunkId → List ChunkId → List ChunkId
  push_id none ids = ids
  push_id (some c) ids = c ∷ ids

  abbrev pub chunk_ids : HashMap Node → List ChunkId
  chunk_ids [] = []
  chunk_ids ((name, Node.file b) ∷ ns) = chunk_ids ns
  chunk_ids ((name, Node.dir fs) ∷ ns) = push_id (from_hex name) (chunk_ids ns)

  pub list_chunks : Drive → List ChunkId
  list_chunks drv = elim drv.base [ none ↦ [] | some ns ↦ chunk_ids ns ]

-- The sum of the sizes of files, a `u64`.
abbrev pub add_files : ℕ → List Bytes → ℕ
add_files total [] = total
add_files total (b ∷ bs) = add_files ((total + length b) % 2 ^ 64) bs

abbrev pub add_dirs : ℕ → List Node → ℕ
add_dirs total [] = total
add_dirs total (Node.file b ∷ ns) = add_dirs total ns
add_dirs total (Node.dir fs ∷ ns) = add_dirs (add_files total (values fs)) ns

pub total_size : Drive → ℕ
total_size drv = elim drv.base [ none ↦ 0 | some ns ↦ add_dirs 0 (values ns) ]

-- A placeholder: 1 TB.
abbrev pub available_space : ℕ
available_space = 1_099_511_627_776

-- Calls that change the store.
pub data Call : Type 0 where
  store : Text × Text → ChunkId → ℕ → Bytes → Call
  delete : ChunkId → ℕ → Call

module _ ⦃hx : Hex⦄ ⦃b3 : Blake3⦄ ⦃js : MetaJson⦄ where
  -- The drive after a call, and whether it reported success.
  abbrev pub step : Call → Drive → Drive × Bool
  step (Call.store now c i bytes) drv = let r = store_shard now c i bytes drv in (r.0, is_some r.1)
  step (Call.delete c i) drv = delete_shard c i drv

  pub run : List Call → Drive → Drive
  run [] drv = drv
  run (call ∷ calls) drv = run calls (step call drv).0

  pub all_ok : List Call → Drive → Bool
  all_ok [] drv = true
  all_ok (call ∷ calls) drv = (step call drv).1 && all_ok calls (step call drv).0
