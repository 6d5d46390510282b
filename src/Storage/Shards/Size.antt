-- ===== src/Storage/Shards/Size.antt =====
-- What the calls of the shard store do to the total size of the files.
use dest.Base.{
  ℕ, ◌+◌, ◌%◌, ◌^◌, ◌<◌, ◌≡◌, refl, sym, ap, ◌∙◌, Bool, true, false, Option, none, some, [], ◌∷◌,
  length, arith,
}
use dest.Base.Text.{Bytes, Text}
use dest.Base.HashMap.{HashMap, values}
use dest.Base.HashMap.Weight.{weigh}
use dest.Core.Extern.{Blake3, Hex}
use dest.Core.Types.{ChunkId, as_hex}
use dest.Storage.Files.{Drive, Node, read, exists_file, create_dir_all, write}
use dest.Storage.Files.Laws.{read-create_dir_all, write-other}
use dest.Storage.Files.Size.{
  drive_len, node_len, size_of, IsTidy, drive_len-create_dir_all, drive_len-write,
  drive_len-remove_file,
}
use dest.Storage.Shards.{
  MetaJson, ShardMeta, and_then, done, new_meta, store_shard, save_meta, delete_shard, remove_found,
  remove_if_exists, remove_meta, shard_path, meta_path, add_files, add_dirs, total_size,
}
use dest.Storage.Shards.Deletion.{is_some-none, remove_if_exists-read}
use dest.Storage.Shards.Laws.{and_then-ok, done-ok, other_name}
use dest.Storage.Shards.Names.{meta_path≢shard_path}
use dest.Storage.Shards.Tidy.{remove_found-IsTidy}

-- The sums of `u64` are those of numbers, modulo 2 ^ 64.
add_files-weigh :
    (total : ℕ) (fs : HashMap Bytes)
    → total < 2 ^ 64
    → add_files total (values fs) ≡ (total + weigh length fs) % 2 ^ 64
unfolding values
add_files-weigh total [] h = omega (arith, h)
add_files-weigh total ((n, b) ∷ fs) h =
    add_files-weigh ((total + length b) % 2 ^ 64) fs (omega arith) ∙ omega arith

add_dirs-weigh :
    (total : ℕ) (ns : HashMap Node)
    → total < 2 ^ 64
    → add_dirs total (values ns) ≡ (total + weigh node_len ns) % 2 ^ 64
unfolding values
add_dirs-weigh total [] h = omega (arith, h)
add_dirs-weigh total ((n, Node.file b) ∷ ns) h = add_dirs-weigh total ns h ∙ omega arith
add_dirs-weigh total ((n, Node.dir fs) ∷ ns) h =
    let e = add_files-weigh total fs h in
    add_dirs-weigh (add_files total (values fs)) ns (omega (arith, e)) ∙ omega (arith, e)

pub total_size-base :
    (o : Option (HashMap Node)) (drv : Drive)
    → drv.base ≡ o
    → total_size drv ≡ drive_len drv % 2 ^ 64
unfolding total_size drive_len
total_size-base none drv h = rw h refl
total_size-base (some ns) drv h = rw h (add_dirs-weigh 0 ns (omega arith) ∙ omega arith)

-- A removal, made or spared.
drive_len-remove_found :
    (there : Bool) (d n : Text) (drv : Drive)
    → exists_file d n drv ≡ there
    → IsTidy drv
    → (remove_found there d n drv).1 ≡ true
    → drive_len (remove_found there d n drv).0 + size_of (read d n drv) ≡ drive_len drv
drive_len-remove_found true d n drv e t h = drive_len-remove_file d n drv t h
drive_len-remove_found false d n drv e t h =
    let z : size_of (read d n drv) ≡ 0 = rw (is_some-none (read d n drv) e) refl in omega (arith, z)

module _ ⦃hx : Hex⦄ where
  drive_len-remove_meta :
      (c : ChunkId) (i : ℕ) (r : Drive × Bool)
      → IsTidy r.0
      → (remove_meta c i r).1 ≡ true
      → (r.1 ≡ true)
        × (drive_len (remove_meta c i r).0 + size_of (read (as_hex c) (meta_path i) r.0)
            ≡ drive_len r.0)
  drive_len-remove_meta c i (drv, true) t h = (
    refl,
    drive_len-remove_found (exists_file (as_hex c) (meta_path i) drv) (as_hex c) (meta_path i) drv
        refl t h,
  )
  drive_len-remove_meta c i (drv, false) t h = cc

  -- What the two files of a shard hold.
  abbrev pub shard_len : ChunkId → ℕ → Drive → ℕ
  shard_len c i drv =
      size_of (read (as_hex c) (shard_path i) drv) + size_of (read (as_hex c) (meta_path i) drv)

  pub drive_len-delete_shard :
      (c : ChunkId) (i : ℕ) (drv : Drive)
      → IsTidy drv
      → (delete_shard c i drv).1 ≡ true
      → drive_len (delete_shard c i drv).0 + shard_len c i drv ≡ drive_len drv
  unfolding delete_shard
  drive_len-delete_shard c i drv t h =
      let d = as_hex c in
      let r = remove_if_exists d (shard_path i) drv in
      let there = exists_file d (shard_path i) drv in
      let (ok, second) =
        drive_len-remove_meta c i r (remove_found-IsTidy there d (shard_path i) drv t) h in
      let first = drive_len-remove_found there d (shard_path i) drv refl t ok in
      let apart = other_name d (meta_path i) d (shard_path i) (meta_path≢shard_path i i) in
      let same : read d (meta_path i) r.0 ≡ read d (meta_path i) drv =
        remove_if_exists-read d (meta_path i) d (shard_path i) drv ∙ ground (arith, apart) in
      omega (arith, first, second, ap size_of same)

  module _ ⦃b3 : Blake3⦄ ⦃js : MetaJson⦄ where
    pub drive_len-store_shard :
        (now : Text × Text) (c : ChunkId) (i : ℕ) (bytes : Bytes) (drv : Drive) (m : ShardMeta)
        → (store_shard now c i bytes drv).1 ≡ some m
        → drive_len (store_shard now c i bytes drv).0 + shard_len c i drv
          ≡ drive_len drv + length bytes + length (js.to_string_pretty (new_meta now c i bytes))
    unfolding store_shard save_meta
    drive_len-store_shard now c i bytes drv m h =
        let d = as_hex c in
        let meta = new_meta now c i bytes in
        let json = js.to_string_pretty meta in
        let r1 = create_dir_all d drv in
        let k2 = λ (written : Drive). done meta (write d (meta_path i) json written) in
        let k1 = λ (made : Drive). and_then (write d (shard_path i) bytes made) k2 in
        let (ok1, e1) = and_then-ok r1 k1 m h in
        let r2 = write d (shard_path i) bytes r1.0 in
        let (ok2, e2) = and_then-ok r2 k2 m (ap (λ r. r.1) (sym e1) ∙ h) in
        let r3 = write d (meta_path i) json r2.0 in
        let (ok3, e3) = done-ok meta m r3 (ap (λ r. r.1) (sym (e1 ∙ e2)) ∙ h) in
        let all = ap (λ r. drive_len r.0) (e1 ∙ (e2 ∙ e3)) in
        let apart = other_name d (meta_path i) d (shard_path i) (meta_path≢shard_path i i) in
        let old1 = ap size_of (read-create_dir_all d (shard_path i) d drv) in
        let old2 = ap size_of (
          write-other d (meta_path i) d (shard_path i) bytes r1.0 apart
          ∙ read-create_dir_all d (meta_path i) d drv) in
        let len1 = drive_len-create_dir_all d drv in
        let len2 = drive_len-write d (shard_path i) bytes r1.0 ok2 in
        let len3 = drive_len-write d (meta_path i) json r2.0 ok3 in
        omega (arith, all, old1, old2, len1, len2, len3)
