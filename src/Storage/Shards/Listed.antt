-- ===== src/Storage/Shards/Listed.antt =====
-- What runs of calls of the shard store leave in its list of chunks.
use dest.Base.{
  ℕ, Bool, true, false, Option, none, some, List, [], ◌∷◌, ◌≡◌, ◌||◌, refl, ap, ◌∙◌, length, All,
  arith, Bool-cases, inl, inr,
}
use dest.Base.Text.{Bytes, Text, bytes_eq, bytes_eq_iff}
use dest.Base.HashMap.{HashMap, get, insert}
use dest.Core.Extern.{Blake3, Hex}
use dest.Core.Types.{ChunkId, as_hex, from_hex, from_hex-as_hex_id}
use dest.Storage.Files.{
  Drive, Fault, Files, Node, nodes, files_in, put_files, create_in, create_dir_all, write_in, write,
  next_fault, tick, is_some,
}
use dest.Storage.Shards.{
  Call, MetaJson, ShardMeta, step, run, all_ok, and_then, done, new_meta, store_shard, save_meta,
  list_chunks, chunk_ids, push_id, shard_path, meta_path,
}
use dest.Storage.Shards.Listing.{
  listed, listed-chunk_ids, list_chunks-base, list_chunks-put_files, list_chunks-delete_shard,
}

-- A call names its chunk by 32 bytes, as the type `[u8; 32]` has it.
abbrev pub IsId : Call → Type 0
IsId (Call.store now c i bytes) = length c ≡ 32
IsId (Call.delete c i) = length c ≡ 32

-- Whether a call of the run stores a shard of the chunk.
pub stored : ChunkId → List Call → Bool
stored c [] = false
stored c (Call.store now e i bytes ∷ calls) = bytes_eq c e || stored c calls
stored c (Call.delete e i ∷ calls) = stored c calls

swap_or : (a b c : Bool) → (a || (b || c)) ≡ (b || (a || c))
swap_or a b c = ground arith

-- A test that holds of the same bytes adds nothing.
same_or :
    (c e : ChunkId) (ids : List ChunkId)
    → listed e ids ≡ true
    → listed c ids ≡ (bytes_eq c e || listed c ids)
same_or c e ids h = elim (Bool-cases (bytes_eq c e)) [
  | inl same ↦ rw (same, (bytes_eq_iff c e).0 same, h) refl
  | inr other ↦ rw (other) refl
]

module _ ⦃hx : Hex⦄ where
  listed-push :
      (c : ChunkId) (o : Option ChunkId) (b : Bool) (ids more : List ChunkId)
      → listed c more ≡ (b || listed c ids)
      → listed c (push_id o more) ≡ (b || listed c (push_id o ids))
  unfolding listed
  listed-push c none b ids more h = h
  listed-push c (some e) b ids more h =
      ap (λ x. bytes_eq c e || x) h ∙ swap_or (bytes_eq c e) b (listed c ids)

  listed-insert :
      (c e : ChunkId) (fs : Files) (ns : HashMap Node)
      → length e ≡ 32
      → get (as_hex e) ns ≡ none
      → listed c (chunk_ids (insert (as_hex e) (Node.dir fs) ns))
        ≡ (bytes_eq c e || listed c (chunk_ids ns))
  unfolding get insert listed
  listed-insert c e fs [] l h = rw (from_hex-as_hex_id e l) refl
  listed-insert c e fs ((name, Node.file b) ∷ ns) l h =
      elim (Bool-cases (bytes_eq (as_hex e) name)) [
        | inl same ↦ let bad : some (Node.file b) ≡ none = rw (same) at h in cc
        | inr other ↦ rw (other) (listed-insert c e fs ns l (rw (other) at h))
      ]
  listed-insert c e fs ((name, Node.dir gs) ∷ ns) l h =
      elim (Bool-cases (bytes_eq (as_hex e) name)) [
        | inl same ↦ let bad : some (Node.dir gs) ≡ none = rw (same) at h in cc
        | inr other ↦ rw (other) (
            listed-push c (from_hex name) (bytes_eq c e) (chunk_ids ns)
              (chunk_ids (insert (as_hex e) (Node.dir fs) ns))
              (listed-insert c e fs ns l (rw (other) at h)))
      ]

  -- Making the directory of a chunk adds the chunk to the list.
  listed-create_in :
      (f : Fault) (o : Option Node) (c e : ChunkId) (drv : Drive)
      → length e ≡ 32
      → get (as_hex e) (nodes drv.base) ≡ o
      → (create_in f o (as_hex e) drv).1 ≡ true
      → listed c (list_chunks (create_in f o (as_hex e) drv).0)
        ≡ (bytes_eq c e || listed c (list_chunks drv))
  listed-create_in Fault.refuse o c e drv l g h = cc
  listed-create_in (Fault.tear k) o c e drv l g h = cc
  listed-create_in Fault.pass none c e drv l g h =
      unfold list_chunks put_files in
      rw (list_chunks-base drv.base drv refl) (listed-insert c e [] (nodes drv.base) l g)
  listed-create_in Fault.pass (some (Node.file b)) c e drv l g h = cc
  listed-create_in Fault.pass (some (Node.dir fs)) c e drv l g h =
      rw (list_chunks-base drv.base drv refl)
        (same_or c e (chunk_ids (nodes drv.base)) (listed-chunk_ids e fs (nodes drv.base) l g))

  listed-create_dir_all :
      (c e : ChunkId) (drv : Drive)
      → length e ≡ 32
      → (create_dir_all (as_hex e) drv).1 ≡ true
      → listed c (list_chunks (create_dir_all (as_hex e) drv).0)
        ≡ (bytes_eq c e || listed c (list_chunks drv))
  unfolding create_dir_all list_chunks
  listed-create_dir_all c e drv l h =
      listed-create_in (next_fault drv.faults) (get (as_hex e) (nodes drv.base)) c e (tick drv) l
        refl h

  list_chunks-write_in :
      (f : Fault) (o : Option Files) (d n : Text) (b : Bytes) (drv : Drive)
      → files_in d drv ≡ o
      → list_chunks (write_in f o d n b drv).0 ≡ list_chunks drv
  list_chunks-write_in f none d n b drv g = refl
  list_chunks-write_in Fault.refuse (some fs) d n b drv g = refl
  list_chunks-write_in (Fault.tear k) (some fs) d n b drv g = list_chunks-put_files d fs _ drv g
  list_chunks-write_in Fault.pass (some fs) d n b drv g = list_chunks-put_files d fs _ drv g

  list_chunks-write :
      (d n : Text) (b : Bytes) (drv : Drive) → list_chunks (write d n b drv).0 ≡ list_chunks drv
  unfolding write files_in list_chunks
  list_chunks-write d n b drv =
      list_chunks-write_in (next_fault drv.faults) (files_in d drv) d n b (tick drv) refl

  -- What follows the making of the directory.
  made_well :
      {A : Type 0} (r : Drive × Bool) (k : Drive → Drive × Option A)
      → is_some (and_then r k).1 ≡ true
      → (r.1 ≡ true) × ((and_then r k).0 ≡ (k r.0).0)
  made_well (drv, true) k h = (refl, refl)
  made_well (drv, false) k h = cc

  list_chunks-and_then :
      {A : Type 0} (r : Drive × Bool) (k : Drive → Drive × Option A)
      → ((d : Drive) → list_chunks (k d).0 ≡ list_chunks d)
      → list_chunks (and_then r k).0 ≡ list_chunks r.0
  list_chunks-and_then (drv, true) k h = h drv
  list_chunks-and_then (drv, false) k h = refl

  module _ ⦃b3 : Blake3⦄ ⦃js : MetaJson⦄ where
    listed-store_shard :
        (c : ChunkId) (now : Text × Text) (e : ChunkId) (i : ℕ) (b : Bytes) (drv : Drive)
        → length e ≡ 32
        → is_some (store_shard now e i b drv).1 ≡ true
        → listed c (list_chunks (store_shard now e i b drv).0)
          ≡ (bytes_eq c e || listed c (list_chunks drv))
    unfolding store_shard save_meta
    listed-store_shard c now e i b drv l h =
        let m : ShardMeta = new_meta now e i b in
        let save : Drive → Drive × Option ShardMeta = λ written. done m (save_meta e i m written) in
        let rest : Drive → Drive × Option ShardMeta =
          λ made. and_then (write (as_hex e) (shard_path i) b made) save in
        let (ok, same) = made_well (create_dir_all (as_hex e) drv) rest h in
        ap (λ x. listed c (list_chunks x)) same
        ∙ ap (listed c) (
            list_chunks-and_then
              (write (as_hex e) (shard_path i) b (create_dir_all (as_hex e) drv).0) save
              (λ d.
                list_chunks-and_then (save_meta e i m d) (λ x. (x, some m)) (λ x. refl)
                ∙ list_chunks-write (as_hex e) (meta_path i) (js.to_string_pretty m) d)
            ∙ list_chunks-write (as_hex e) (shard_path i) b (create_dir_all (as_hex e) drv).0)
        ∙ listed-create_dir_all c e drv l ok

    listed-step :
        (c : ChunkId) (call : Call) (calls : List Call) (drv : Drive)
        → IsId call
        → (step call drv).1 ≡ true
        → (stored c calls || listed c (list_chunks (step call drv).0))
          ≡ (stored c (call ∷ calls) || listed c (list_chunks drv))
    unfolding stored
    listed-step c (Call.store now e i b) calls drv l h =
        rw (listed-store_shard c now e i b drv l h) (ground arith)
    listed-step c (Call.delete e i) calls drv l h = rw (list_chunks-delete_shard e i drv) refl

    -- After calls that all report success, from any drive, a chunk is listed exactly when it was listed before or one of the calls stored a shard of it, whatever the calls deleted since: where each call names its chunk by 32 bytes.
    pub list_chunks-run :
        (c : ChunkId) (calls : List Call) (drv : Drive)
        → All IsId calls
        → all_ok calls drv ≡ true
        → listed c (list_chunks (run calls drv)) ≡ (stored c calls || listed c (list_chunks drv))
    unfolding run all_ok stored
    list_chunks-run c [] drv l h = refl
    list_chunks-run c (call ∷ calls) drv l h =
        list_chunks-run c calls (step call drv).0 l.1 (ground (arith, h))
        ∙ listed-step c call calls drv l.0 (ground (arith, h))
