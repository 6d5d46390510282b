-- ===== src/Storage/Shards/Tests.antt =====
-- The theorems on storage/src/shard_store.rs at small inputs.
mod Json
mod Backup
use dest.Base.{
  true, false, none, some, List, [], ◌∷◌, replicate, ◌≡◌, refl, ◌||◌, All, ◌+◌, ◌%◌, ◌^◌,
}
use dest.Base.Text.{Bytes, Text, bytes_eq}
use dest.Base.HashMap.{get, insert, remove}
use dest.Core.Types.{ChunkId, as_hex}
use dest.Storage.Files.{
  Drive, Fault, Node, create_base, create_dir_all, write, remove_file, read, files_in, put_files,
}
use dest.Storage.Shards.{
  save_meta, load_meta, shard_path, meta_path, Call, run, all_ok, store_shard, retrieve_shard,
  delete_shard, list_chunks, step, new, total_size,
}
use dest.Storage.Shards.Runs.{run_refines_table, table}
use dest.Storage.Shards.Crash.{retrieve_shard-was_stored, was_stored}
use dest.Storage.Shards.Listing.{listed}
use dest.Storage.Shards.Listed.{list_chunks-run, stored, IsId}
use dest.Storage.Shards.Total.{total_size-step, held, put, absent}
use dest.Storage.Shards.Tests.Json.{blake3, hex, json}

abbrev drive : Drive
drive = record { base = none; faults = [] }

abbrev chunk : ChunkId
chunk = replicate 32 7

abbrev now : Text × Text
now = (b'1' ∷ [], b'2' ∷ [])

abbrev calls : List Call
calls =
    Call.store now chunk 10 (1 ∷ 2 ∷ [])
    ∷ Call.store now chunk 1 (3 ∷ [])
    ∷ Call.delete chunk 1
    ∷ []

calls-all_ok : all_ok calls drive ≡ true
unfolding all_ok store_shard save_meta delete_shard shard_path meta_path create_dir_all write
    remove_file read files_in put_files get insert remove bytes_eq as_hex
calls-all_ok = refl

run_refines_table_example :
    retrieve_shard chunk 10 (run calls drive) ≡ table calls chunk 10 (retrieve_shard chunk 10 drive)
run_refines_table_example = run_refines_table calls chunk 10 drive calls-all_ok

-- The second call stops in the middle of its data, and its shard is given up.
abbrev torn : Drive
torn = record drive {
  faults = Fault.pass ∷ Fault.pass ∷ Fault.pass ∷ Fault.pass ∷ Fault.tear 1 ∷ [];
}

abbrev writes : List Call
writes = Call.store now chunk 0 (1 ∷ 2 ∷ []) ∷ Call.store now chunk 1 (3 ∷ 4 ∷ []) ∷ []

unread : load_meta chunk 0 torn ≡ none
unfolding load_meta read files_in get
unread = refl

read_back : retrieve_shard chunk 0 (run writes torn) ≡ some (1 ∷ 2 ∷ [])
unfolding retrieve_shard load_meta run store_shard save_meta shard_path meta_path create_dir_all
    write read files_in put_files get insert bytes_eq as_hex
read_back = refl

retrieve_shard-was_stored_example :
    (x : Bytes) × (was_stored writes chunk 0 x ≡ true) × (blake3.hash (1 ∷ 2 ∷ []) ≡ blake3.hash x)
retrieve_shard-was_stored_example =
    retrieve_shard-was_stored writes chunk 0 torn (1 ∷ 2 ∷ []) unread read_back

ids : All IsId calls
ids = (refl, (refl, (refl, tt)))

list_chunks-run_example :
    listed chunk (list_chunks (run calls drive))
    ≡ (stored chunk calls || listed chunk (list_chunks drive))
list_chunks-run_example = list_chunks-run chunk calls drive ids calls-all_ok

last-deleted : (step (Call.delete chunk 10) (run calls (new (absent [])).0)).1 ≡ true
unfolding run store_shard save_meta delete_shard shard_path meta_path create_base create_dir_all
    write remove_file read files_in put_files get insert remove bytes_eq as_hex
last-deleted = refl

total_size-step_example :
    let drv = run calls (new (absent [])).0 in
    let call = Call.delete chunk 10 in
    (total_size (step call drv).0 + held call drv) % 2 ^ 64 ≡ (total_size drv + put call) % 2 ^ 64
total_size-step_example = total_size-step [] calls (Call.delete chunk 10) last-deleted
