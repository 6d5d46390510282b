-- ===== src/Storage/Shards/Crash.antt =====
-- What is left of a shard when the system refuses calls or stops writes in the middle.
use dest.Base.{
  ℕ, Bool, true, false, Option, none, some, List, [], ◌∷◌, ◌&&◌, ◌||◌, ◌==◌, ◌⊎◌, inl, inr,
  if◌then◌else◌, ◌≡◌, refl, sym, ap, ◌∙◌, arith, Bool-cases, ==_iff,
}
use dest.Base.Text.{Bytes, Text, bytes_eq, bytes_eq_iff, bytes_eq_refl}
use dest.Core.Extern.{Blake3, Hex, encode-injective}
use dest.Core.Types.{ChunkId, as_hex}
use dest.Storage.Files.{Drive, read}
use dest.Storage.Shards.{
  Call, step, run, MetaJson, ShardMeta, load_meta, parse_meta, retrieve_shard, delete_shard,
  remove_meta, remove_if_exists, shard_path, meta_path, check_read, check_hash,
}
use dest.Storage.Shards.Laws.{load_meta-store_other}
use dest.Storage.Shards.Deletion.{remove_if_exists-read}
use dest.Storage.Shards.Metadata.{store_shard-load_at}
use mathlib.Core.Option

-- A removal, made or refused, leaves a file or nothing.
remove-or-keep :
    {A : Type 0} (b : Bool) (o : Option A)
    → ((if b then none else o) ≡ o) ⊎ ((if b then none else o) ≡ none)
remove-or-keep true o = inr refl
remove-or-keep false o = inl refl

module _ ⦃hx : Hex⦄ ⦃b3 : Blake3⦄ ⦃js : MetaJson⦄ where
  -- The metadata of a shard after a removal is what it was, or gone.
  remove-load :
      (e c : ChunkId) (j : ℕ) (n : Text) (drv : Drive)
      → let o = load_meta e j (remove_if_exists (as_hex c) n drv).0 in
        (o ≡ load_meta e j drv) ⊎ (o ≡ none)
  unfolding load_meta
  remove-load e c j n drv =
      rw (remove_if_exists-read (as_hex e) (meta_path j) (as_hex c) n drv)
        (elim (remove-or-keep
          ((remove_if_exists (as_hex c) n drv).1
            && bytes_eq (as_hex e) (as_hex c)
            && bytes_eq (meta_path j) n)
          (read (as_hex e) (meta_path j) drv)) [
            | inl same ↦ inl (ap parse_meta same)
            | inr gone ↦ inr (ap parse_meta gone)
          ])

  remove_meta-load :
      (e c : ChunkId) (j i : ℕ) (r : Drive × Bool)
      → let o = load_meta e j (remove_meta c i r).0 in (o ≡ load_meta e j r.0) ⊎ (o ≡ none)
  remove_meta-load e c j i (drv, true) = remove-load e c j (meta_path i) drv
  remove_meta-load e c j i (drv, false) = inl refl

  delete_shard-load :
      (e c : ChunkId) (j i : ℕ) (drv : Drive) (m : ShardMeta)
      → load_meta e j (delete_shard c i drv).0 ≡ some m
      → load_meta e j drv ≡ some m
  unfolding delete_shard
  delete_shard-load e c j i drv m h =
      let a = remove_meta-load e c j i (remove_if_exists (as_hex c) (shard_path i) drv) in
      let b = remove-load e c j (shard_path i) drv in ground (arith, a, b, h)

  -- Whether some call stored these bytes as the shard, with success or not.
  abbrev pub stored_by : Call → ChunkId → ℕ → Bytes → Bool
  stored_by (Call.store now c i bytes) e j x = bytes_eq e c && (j == i) && bytes_eq x bytes
  stored_by (Call.delete c i) e j x = false

  pub was_stored : List Call → ChunkId → ℕ → Bytes → Bool
  was_stored [] e j x = false
  was_stored (call ∷ calls) e j x = stored_by call e j x || was_stored calls e j x

  step-load :
      (call : Call) (e : ChunkId) (j : ℕ) (drv : Drive) (m : ShardMeta)
      → load_meta e j (step call drv).0 ≡ some m
      → (load_meta e j drv ≡ some m)
        ⊎ ((x : Bytes) × (stored_by call e j x ≡ true) × (m.blake3_hash ≡ hx.encode (b3.hash x)))
  step-load (Call.delete c i) e j drv m h = inl (delete_shard-load e c j i drv m h)
  step-load (Call.store now c i bytes) e j drv m h = elim (Bool-cases (bytes_eq e c && (j == i))) [
    | inr other ↦ inl (sym (load_meta-store_other now c e i j bytes drv other) ∙ h)
    | inl same ↦
        elim (store_shard-load_at now c e i j bytes drv m
          ((bytes_eq_iff e c).0 (ground (arith, same))) ((==_iff j i).0 (ground (arith, same))) h) [
            | inl before ↦ inl before
            | inr fresh ↦ inr (bytes, ground (arith, same, bytes_eq_refl bytes), fresh)
          ]
  ]

  run-load :
      (calls : List Call) (e : ChunkId) (j : ℕ) (drv : Drive) (m : ShardMeta)
      → load_meta e j (run calls drv) ≡ some m
      → (load_meta e j drv ≡ some m)
        ⊎ ((x : Bytes) × (was_stored calls e j x ≡ true) × (m.blake3_hash ≡ hx.encode (b3.hash x)))
  unfolding run was_stored
  run-load [] e j drv m h = inl h
  run-load (call ∷ calls) e j drv m h = elim (run-load calls e j (step call drv).0 m h) [
    | inr (x, y, z) ↦ inr (x, ground (arith, y), z)
    | inl before ↦ elim (step-load call e j drv m before) [
      | inl b ↦ inl b
      | inr (x, y, z) ↦ inr (x, ground (arith, y), z)
    ]
  ]

  check_hash-meta :
      (x y : Bytes) (meta : Option ShardMeta)
      → check_hash x meta ≡ some y
      → (m : ShardMeta) × (meta ≡ some m) × (m.blake3_hash ≡ hx.encode (b3.hash y))
  check_hash-meta x y none h = cc
  check_hash-meta x y (some m) h =
      elim (Bool-cases (bytes_eq (hx.encode (b3.hash x)) m.blake3_hash)) [
        | inl same ↦ (
          m,
          refl,
          sym ((bytes_eq_iff (hx.encode (b3.hash x)) m.blake3_hash).0 same)
              ∙ ap (λ z. hx.encode (b3.hash z))
                  (Option.some-injective x y (rw (same, check_hash) at h)),
        )
        | inr other ↦ absurd (Option.none-ne-some y (rw (other, check_hash) at h))
      ]

  check_read-meta :
      (o : Option Bytes) (y : Bytes) (meta : Option ShardMeta)
      → check_read o meta ≡ some y
      → (m : ShardMeta) × (meta ≡ some m) × (m.blake3_hash ≡ hx.encode (b3.hash y))
  check_read-meta none y meta h = cc
  check_read-meta (some x) y meta h = check_hash-meta x y meta h

  -- Whatever calls the system refuses and wherever it stops a write, the bytes that a retrieval returns
  -- have the hash of bytes that a call stored as this very shard, if the shard had no metadata at first.
  pub retrieve_shard-was_stored :
      (calls : List Call) (c : ChunkId) (i : ℕ) (drv : Drive) (y : Bytes)
      → load_meta c i drv ≡ none
      → retrieve_shard c i (run calls drv) ≡ some y
      → (x : Bytes) × (was_stored calls c i x ≡ true) × (b3.hash y ≡ b3.hash x)
  unfolding retrieve_shard
  retrieve_shard-was_stored calls c i drv y fresh h =
      let (m, loaded, same) =
        check_read-meta (read (as_hex c) (shard_path i) (run calls drv)) y
          (load_meta c i (run calls drv)) h in
      elim (run-load calls c i drv m loaded) [
        | inl before ↦ absurd (Option.none-ne-some m (sym fresh ∙ before))
        | inr (x, stored, e) ↦ (x, stored, encode-injective (b3.hash y) (b3.hash x) (sym same ∙ e))
      ]
