-- ===== src/Storage/Shards/Deletion.antt =====
-- What the removal of a shard leaves.
use dest.Base.{
  ℕ, Bool, true, false, Option, none, some, inl, inr, ◌&&◌, ◌||◌, ◌==◌, ◌≡◌, refl, ◌∙◌,
  if◌then◌else◌, arith, Bool-cases,
}
use dest.Base.Text.{Bytes, Text, bytes_eq, bytes_eq_iff}
use dest.Core.Extern.{Blake3, Hex}
use dest.Core.Types.{ChunkId, as_hex, bytes_eq-as_hex}
use dest.Storage.Files.{Drive, read, exists_file, is_some}
use dest.Storage.Files.Laws.{read-remove_file}
use dest.Storage.Shards.{
  MetaJson, shard_path, meta_path, load_meta, parse_meta, check_read, retrieve_shard, delete_shard,
  remove_found, remove_if_exists, remove_meta,
}
use dest.Storage.Shards.Names.{
  bytes_eq-shard_path, bytes_eq-meta_path, meta_path≢shard_path, shard_path≢meta_path,
}

read_same :
    (e m d n : Text) (drv : Drive)
    → bytes_eq e d && bytes_eq m n ≡ true
    → read e m drv ≡ read d n drv
read_same e m d n drv h =
    rw ((bytes_eq_iff e d).0 (ground arith), (bytes_eq_iff m n).0 (ground arith)) refl

pub is_some-none : (o : Option Bytes) → is_some o ≡ false → o ≡ none
is_some-none none h = refl
is_some-none (some x) h = cc

-- A removal, made or spared.
remove_found-read :
    (there : Bool) (e m d n : Text) (drv : Drive)
    → exists_file d n drv ≡ there
    → read e m (remove_found there d n drv).0 ≡ (
        if (remove_found there d n drv).1 && bytes_eq e d && bytes_eq m n
        then none
        else read e m drv)
remove_found-read true e m d n drv h = read-remove_file e m d n drv
remove_found-read false e m d n drv h = elim (Bool-cases (bytes_eq e d && bytes_eq m n)) [
  | inl same ↦ rw (same) (read_same e m d n drv same ∙ is_some-none (read d n drv) h)
  | inr other ↦ rw (other) refl
]

pub remove_if_exists-read :
    (e m d n : Text) (drv : Drive)
    → read e m (remove_if_exists d n drv).0 ≡ (
        if (remove_if_exists d n drv).1 && bytes_eq e d && bytes_eq m n then none else read e m drv)
remove_if_exists-read e m d n drv = remove_found-read (exists_file d n drv) e m d n drv refl

module _ ⦃hx : Hex⦄ where
  -- Every file after the removal of a shard.
  remove_meta-read :
      (e n : Text) (c : ChunkId) (i : ℕ) (r : Drive × Bool) (drv : Drive)
      → (read e n r.0 ≡ (
          if r.1 && bytes_eq e (as_hex c) && bytes_eq n (shard_path i) then none else read e n drv))
      → (remove_meta c i r).1 ≡ true
      → read e n (remove_meta c i r).0 ≡ (
          if bytes_eq e (as_hex c) && (bytes_eq n (shard_path i) || bytes_eq n (meta_path i))
          then none
          else read e n drv)
  remove_meta-read e n c i (r, true) drv g h =
      remove_if_exists-read e n (as_hex c) (meta_path i) r ∙ ground (arith, g, h)
  remove_meta-read e n c i (r, false) drv g h = cc

  pub delete_shard-read :
      (e n : Text) (c : ChunkId) (i : ℕ) (drv : Drive)
      → (delete_shard c i drv).1 ≡ true
      → read e n (delete_shard c i drv).0 ≡ (
          if bytes_eq e (as_hex c) && (bytes_eq n (shard_path i) || bytes_eq n (meta_path i))
          then none
          else read e n drv)
  unfolding delete_shard
  delete_shard-read e n c i drv h =
      remove_meta-read e n c i (remove_if_exists (as_hex c) (shard_path i) drv) drv
        (remove_if_exists-read e n (as_hex c) (shard_path i) drv) h

module _ ⦃hx : Hex⦄ ⦃b3 : Blake3⦄ ⦃js : MetaJson⦄ where
  check_read-if :
      (b k : Bool) (o p : Option Bytes)
      → check_read
          (if b && (k || false) then none else o)
          (parse_meta (if b && (false || k) then none else p))
        ≡ (if b && k then none else check_read o (parse_meta p))
  check_read-if true true o p = refl
  check_read-if true false o p = refl
  check_read-if false k o p = refl

  -- A shard whose removal reported no error is gone, and every other is as it was.
  pub retrieve_shard-delete_shard :
      (c e : ChunkId) (i j : ℕ) (drv : Drive)
      → (delete_shard c i drv).1 ≡ true
      → retrieve_shard e j (delete_shard c i drv).0
        ≡ (if bytes_eq e c && (j == i) then none else retrieve_shard e j drv)
  unfolding retrieve_shard load_meta
  retrieve_shard-delete_shard c e i j drv h =
      rw
        (
          delete_shard-read (as_hex e) (shard_path j) c i drv h,
          delete_shard-read (as_hex e) (meta_path j) c i drv h,
          bytes_eq-as_hex e c,
          bytes_eq-shard_path j i,
          bytes_eq-meta_path j i,
          shard_path≢meta_path j i,
          meta_path≢shard_path j i,
        )
        (check_read-if (bytes_eq e c) (j == i) (read (as_hex e) (shard_path j) drv)
          (read (as_hex e) (meta_path j) drv))
