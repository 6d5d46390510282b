-- ===== src/Storage/Shards/Listing.antt =====
-- The chunks that the shard store lists.
use dest.Base.{
  ℕ, Bool, true, false, Option, none, some, List, [], ◌∷◌, ◌≡◌, ◌||◌, refl, sym, ap, ◌∙◌, length,
  arith, Bool-cases, inl, inr,
}
use dest.Base.Text.{Bytes, Text, bytes_eq, bytes_eq_iff, bytes_eq_refl}
use dest.Base.HashMap.{HashMap, get, insert, remove}
use dest.Core.Extern.{Hex}
use dest.Core.Types.{ChunkId, as_hex, from_hex, from_hex-as_hex_id}
use dest.Storage.Files.{
  Drive, Fault, Files, Node, nodes, node_files, files_in, get_file, read, put_files, exists_file,
  is_some, remove_in, remove_file, next_fault, tick,
}
use dest.Storage.Files.Laws.{node_files-dir}
use dest.Storage.Shards.Deletion.{delete_shard-read}
use dest.Storage.Shards.{
  delete_shard, shard_exists, list_chunks, chunk_ids, push_id, remove_found, remove_if_exists,
  remove_meta, shard_path, meta_path,
}

unfoldable pub listed : ChunkId → List ChunkId → Bool
listed c [] = false
listed c (e ∷ es) = bytes_eq c e || listed c es

absurd_node : {A : Type 0} {b : Bytes} {fs : Files} → some (Node.file b) ≡ some (Node.dir fs) → A
absurd_node h = cc

file_elsewhere :
    (d name : Text) (b : Bytes) (fs : Files) (ns : HashMap Node)
    → get d ((name, Node.file b) ∷ ns) ≡ some (Node.dir fs)
    → bytes_eq d name ≡ false
unfolding get
file_elsewhere d name b fs ns h = elim (Bool-cases (bytes_eq d name)) [
  | inl same ↦ absurd_node (rw (same) at h)
  | inr other ↦ other
]

module _ ⦃hx : Hex⦄ where
  listed-push_id :
      (c : ChunkId) (o : Option ChunkId) (ids : List ChunkId)
      → listed c ids ≡ true
      → listed c (push_id o ids) ≡ true
  unfolding listed
  listed-push_id c none ids h = h
  listed-push_id c (some e) ids h = ground (arith, h)

  pub listed-chunk_ids :
      (c : ChunkId) (fs : Files) (ns : HashMap Node)
      → length c ≡ 32
      → get (as_hex c) ns ≡ some (Node.dir fs)
      → listed c (chunk_ids ns) ≡ true
  unfolding get listed
  listed-chunk_ids c fs [] l h = cc
  listed-chunk_ids c fs ((name, Node.file b) ∷ ns) l h =
      listed-chunk_ids c fs ns l (rw (file_elsewhere (as_hex c) name b fs ns h) at h)
  listed-chunk_ids c fs ((name, Node.dir gs) ∷ ns) l h =
      elim (Bool-cases (bytes_eq (as_hex c) name)) [
        | inl same ↦
            rw (sym ((bytes_eq_iff (as_hex c) name).0 same), from_hex-as_hex_id c l)
              (rw (bytes_eq_refl c) refl)
        | inr other ↦
            listed-push_id c (from_hex name) (chunk_ids ns)
              (listed-chunk_ids c fs ns l (rw (other) at h))
      ]

  pub chunk_ids-insert :
      (d : Text) (fs gs : Files) (ns : HashMap Node)
      → get d ns ≡ some (Node.dir fs)
      → chunk_ids (insert d (Node.dir gs) ns) ≡ chunk_ids ns
  unfolding get insert
  chunk_ids-insert d fs gs [] h = cc
  chunk_ids-insert d fs gs ((name, Node.file b) ∷ ns) h =
      rw (file_elsewhere d name b fs ns h)
        (chunk_ids-insert d fs gs ns (rw (file_elsewhere d name b fs ns h) at h))
  chunk_ids-insert d fs gs ((name, Node.dir hs) ∷ ns) h = elim (Bool-cases (bytes_eq d name)) [
    | inl same ↦ rw (same) refl
    | inr other ↦
        rw (other) (ap (push_id (from_hex name)) (chunk_ids-insert d fs gs ns (rw (other) at h)))
  ]

  pub list_chunks-base :
      (o : Option (HashMap Node)) (drv : Drive)
      → drv.base ≡ o
      → list_chunks drv ≡ chunk_ids (nodes drv.base)
  unfolding list_chunks
  list_chunks-base none drv h = rw (h) refl
  list_chunks-base (some ns) drv h = rw (h) refl

  pub list_chunks-put_files :
      (d : Text) (fs gs : Files) (drv : Drive)
      → files_in d drv ≡ some fs
      → list_chunks (put_files d gs drv) ≡ list_chunks drv
  unfolding list_chunks files_in put_files
  list_chunks-put_files d fs gs drv h =
      chunk_ids-insert d fs gs (nodes drv.base) (node_files-dir (get d (nodes drv.base)) fs h)
      ∙ sym (list_chunks-base drv.base drv refl)

  list_chunks-remove_in :
      (f : Fault) (o : Option Files) (d n : Text) (drv : Drive)
      → files_in d drv ≡ o
      → list_chunks (remove_in f o d n drv).0 ≡ list_chunks drv
  list_chunks-remove_in f none d n drv h = refl
  list_chunks-remove_in Fault.refuse (some fs) d n drv h = refl
  list_chunks-remove_in (Fault.tear k) (some fs) d n drv h = refl
  list_chunks-remove_in Fault.pass (some fs) d n drv h =
      list_chunks-put_files d fs (remove n fs) drv h

  list_chunks-remove_found :
      (there : Bool) (d n : Text) (drv : Drive)
      → list_chunks (remove_found there d n drv).0 ≡ list_chunks drv
  unfolding remove_file files_in list_chunks
  list_chunks-remove_found true d n drv =
      list_chunks-remove_in (next_fault drv.faults) (files_in d drv) d n (tick drv) refl
  list_chunks-remove_found false d n drv = refl

  list_chunks-remove_meta :
      (c : ChunkId) (i : ℕ) (r : Drive × Bool) → list_chunks (remove_meta c i r).0 ≡ list_chunks r.0
  list_chunks-remove_meta c i (drv, true) =
      list_chunks-remove_found (exists_file (as_hex c) (meta_path i) drv) (as_hex c) (meta_path i)
        drv
  list_chunks-remove_meta c i (drv, false) = refl

  -- Removing a shard, even the last one of its chunk, changes nothing in the list of chunks.
  pub list_chunks-delete_shard :
      (c : ChunkId) (i : ℕ) (drv : Drive) → list_chunks (delete_shard c i drv).0 ≡ list_chunks drv
  unfolding delete_shard
  list_chunks-delete_shard c i drv =
      list_chunks-remove_meta c i (remove_if_exists (as_hex c) (shard_path i) drv)
      ∙ list_chunks-remove_found (exists_file (as_hex c) (shard_path i) drv) (as_hex c)
          (shard_path i) drv

  in_dir :
      (o : Option Node) (n : Text)
      → is_some (get_file n (node_files o)) ≡ true
      → (fs : Files) × (o ≡ some (Node.dir fs))
  in_dir none n h = cc
  in_dir (some (Node.file b)) n h = cc
  in_dir (some (Node.dir fs)) n h = (fs, refl)

  -- A chunk id of 32 bytes is listed if a shard of it exists.
  listed-shard_exists :
      (c : ChunkId) (i : ℕ) (drv : Drive)
      → length c ≡ 32
      → shard_exists c i drv ≡ true
      → listed c (list_chunks drv) ≡ true
  unfolding shard_exists read files_in
  listed-shard_exists c i drv l h =
      let (fs, e) = in_dir (get (as_hex c) (nodes drv.base)) (shard_path i) h in
      rw (list_chunks-base drv.base drv refl) (listed-chunk_ids c fs (nodes drv.base) l e)

  -- After a shard's removal without an error, its chunk is still listed though that shard is gone: for a
  -- chunk id of 32 bytes of which a shard existed.
  list_chunks-stale :
      (c : ChunkId) (i j : ℕ) (drv : Drive)
      → length c ≡ 32
      → shard_exists c j drv ≡ true
      → (delete_shard c i drv).1 ≡ true
      → (shard_exists c i (delete_shard c i drv).0 ≡ false)
        × (listed c (list_chunks (delete_shard c i drv).0) ≡ true)
  unfolding shard_exists
  list_chunks-stale c i j drv l h ok = (
    rw
        (
          delete_shard-read (as_hex c) (shard_path i) c i drv ok,
          bytes_eq_refl (as_hex c),
          bytes_eq_refl (shard_path i),
        )
        refl,
    rw (list_chunks-delete_shard c i drv) (listed-shard_exists c j drv l h),
  )
