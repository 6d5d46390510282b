-- ===== src/Storage/Shards/Tests/Backup.antt =====
-- The theorem on data stored by a host and given back at a small input.
use dest.Base.{ℕ, true, none, some, List, [], ◌∷◌, All, ◌≡◌, refl, arith}
use dest.Base.Text.{Bytes, Text, bytes_eq}
use dest.Base.HashMap.{get, insert}
use dest.Core.Types.{as_hex}
use dest.Core.Encryption.{random_nonce}
use dest.Core.Encryption.Tests.{
  rng, tagger, key, sealed, shards, left, sealed-encrypt, sealed-encode, left-Distinct,
}
use dest.Core.Chunking.{chunk_data, chunks_from, assemble_chunks}
use dest.Core.Restore.{Spread, AllRestore}
use dest.Core.Tests.Codec.{copier}
use dest.Storage.Files.{Drive, create_dir_all, write, read, files_in, put_files}
use dest.Storage.Shards.{
  run, all_ok, store_shard, retrieve_shard, save_meta, load_meta, shard_path, meta_path,
}
use dest.Storage.Shards.Download.{store_from}
use dest.Storage.Shards.Backup.{
  Uploads, spreads, store_all, IsFresh, AreGiven, assemble_chunks-store_all,
}
use dest.Storage.Shards.Tests.Json.{blake3, hex, json}

abbrev host : Drive
host = record { base = none; faults = [] }

abbrev chunk : Bytes
chunk = 7 ∷ []

abbrev now : Text × Text
now = (b'1' ∷ [], b'2' ∷ [])

abbrev made : Spread
made = record {
  rng = rng;
  nonce = random_nonce;
  ciphertext = sealed;
  shards = shards;
  found = left;
}

host-fresh : (j : ℕ) → retrieve_shard chunk j host ≡ none
unfolding retrieve_shard load_meta read files_in get
host-fresh j = refl

abbrev uploads : Uploads
uploads = (chunk, made) ∷ []

host-IsFresh : IsFresh host uploads
host-IsFresh = (host-fresh, tt)

one-chunk : chunk_data (5 ∷ 6 ∷ []) ≡ (5 ∷ 6 ∷ []) ∷ []
unfolding chunk_data chunks_from
one-chunk = refl

stores-all_ok : all_ok (store_all now uploads) host ≡ true
unfolding all_ok store_all store_from store_shard save_meta shard_path meta_path create_dir_all
    write read files_in put_files get insert bytes_eq as_hex
stores-all_ok = refl

left-found : All (λ p. retrieve_shard chunk p.0 (run (store_all now uploads) host) ≡ some p.1) left
unfolding run store_all store_from store_shard save_meta shard_path meta_path create_dir_all write
    read files_in put_files get insert bytes_eq as_hex retrieve_shard load_meta
left-found = (refl, (refl, (refl, tt)))

uploads-AreGiven : AreGiven (run (store_all now uploads) host) key ((5 ∷ 6 ∷ []) ∷ []) uploads
uploads-AreGiven = ((sealed-encrypt, sealed-encode, left-found, left-Distinct, omega arith), tt)

assemble_chunks-store_all_example :
    (chunks : List Bytes) × AllRestore key (spreads uploads) chunks
    × (assemble_chunks chunks ≡ 5 ∷ 6 ∷ [])
assemble_chunks-store_all_example =
    assemble_chunks-store_all key (5 ∷ 6 ∷ []) now uploads host (tt, tt) host-IsFresh stores-all_ok
      (rw one-chunk uploads-AreGiven)
