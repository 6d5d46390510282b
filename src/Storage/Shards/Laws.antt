-- ===== src/Storage/Shards/Laws.antt =====
-- The shard store as a table of shards.
use dest.Base.{ℕ, Bool, true, false, Option, some, ◌&&◌, ◌==◌, ◌≡◌, refl, sym, ap, ◌∙◌, arith}
use dest.Base.Text.{Bytes, Text, bytes_eq, bytes_eq_refl}
use dest.Core.Extern.{Blake3, Hex}
use dest.Core.Types.{ChunkId, as_hex, bytes_eq-as_hex}
use dest.Storage.Files.{Drive, create_dir_all, write, read}
use dest.Storage.Files.Laws.{read-create_dir_all, write-ok, write-other}
use dest.Storage.Shards.{
  ShardMeta, MetaJson, shard_path, meta_path, and_then, done, save_meta, load_meta, new_meta,
  parse_meta, store_shard, check_hash, retrieve_shard,
}
use dest.Storage.Shards.Names.{
  bytes_eq-shard_path, bytes_eq-meta_path, meta_path≢shard_path, shard_path≢meta_path,
}

pub and_then-ok :
    {A : Type 0} (r : Drive × Bool) (k : Drive → Drive × Option A) (x : A)
    → (and_then r k).1 ≡ some x
    → (r.1 ≡ true) × (and_then r k ≡ k r.0)
and_then-ok (drv, true) k x h = (refl, refl)
and_then-ok (drv, false) k x h = cc

pub done-ok :
    {A : Type 0} (x y : A) (r : Drive × Bool)
    → (done x r).1 ≡ some y
    → (r.1 ≡ true) × (done x r ≡ (r.0, some x))
done-ok x y (drv, true) h = (refl, refl)
done-ok x y (drv, false) h = cc

-- Base/e/m is not base/d/n.
abbrev pub IsApart : Text → Text → Text → Text → Type 0
IsApart e m d n = bytes_eq e d && bytes_eq m n ≡ false

pub other_name : (e m d n : Text) → bytes_eq m n ≡ false → IsApart e m d n
other_name e m d n h = ground arith

and_then-read :
    {A : Type 0} (e m : Text) (r : Drive × Bool) (k : Drive → Drive × Option A)
    → ((drv : Drive) → read e m (k drv).0 ≡ read e m drv)
    → read e m (and_then r k).0 ≡ read e m r.0
and_then-read e m (drv, true) k h = h drv
and_then-read e m (drv, false) k h = refl

module _ ⦃hx : Hex⦄ ⦃b3 : Blake3⦄ ⦃js : MetaJson⦄ where
  -- Both files of a shard, once it is stored.
  store_shard-files :
      (now : Text × Text) (c : ChunkId) (i : ℕ) (bytes : Bytes) (drv : Drive) (m : ShardMeta)
      → (store_shard now c i bytes drv).1 ≡ some m
      → (read (as_hex c) (shard_path i) (store_shard now c i bytes drv).0 ≡ some bytes)
        × (read (as_hex c) (meta_path i) (store_shard now c i bytes drv).0
            ≡ some (js.to_string_pretty (new_meta now c i bytes)))
  unfolding store_shard save_meta
  store_shard-files now c i bytes drv m h =
      let d = as_hex c in
      let meta = new_meta now c i bytes in
      let json = js.to_string_pretty meta in
      let r1 = create_dir_all d drv in
      let k2 = λ (written : Drive). done meta (write d (meta_path i) json written) in
      let k1 = λ (made : Drive). and_then (write d (shard_path i) bytes made) k2 in
      let (ok1, e1) = and_then-ok r1 k1 m h in
      let r2 = write d (shard_path i) bytes r1.0 in
      let (ok2, e2) = and_then-ok r2 k2 m (ap (λ r. r.1) (sym e1) ∙ h) in
      let (ok3, e3) =
        done-ok meta m (write d (meta_path i) json r2.0) (ap (λ r. r.1) (sym (e1 ∙ e2)) ∙ h) in
      let all = ap (λ r. r.0) (e1 ∙ (e2 ∙ e3)) in
      (
        ap (read d (shard_path i)) all
            ∙ (write-other d (shard_path i) d (meta_path i) json r2.0
                  (other_name d (shard_path i) d (meta_path i) (shard_path≢meta_path i i))
                ∙ write-ok d (shard_path i) bytes r1.0 ok2),
        ap (read d (meta_path i)) all ∙ write-ok d (meta_path i) json r2.0 ok3,
      )

  -- A shard that was stored without an error comes back as it was.
  pub retrieve_shard-store_shard :
      (now : Text × Text) (c : ChunkId) (i : ℕ) (bytes : Bytes) (drv : Drive) (m : ShardMeta)
      → (store_shard now c i bytes drv).1 ≡ some m
      → retrieve_shard c i (store_shard now c i bytes drv).0 ≡ some bytes
  unfolding retrieve_shard load_meta
  retrieve_shard-store_shard now c i bytes drv m h =
      let (f, g) = store_shard-files now c i bytes drv m h in
      rw
        (
          f,
          g,
          js.from_str-to_string (new_meta now c i bytes),
          bytes_eq_refl (hx.encode (b3.hash bytes)),
          check_hash,
        )
        refl

  store_shard-read :
      (e n : Text) (now : Text × Text) (c : ChunkId) (i : ℕ) (bytes : Bytes) (drv : Drive)
      → IsApart e n (as_hex c) (shard_path i)
      → IsApart e n (as_hex c) (meta_path i)
      → read e n (store_shard now c i bytes drv).0 ≡ read e n drv
  unfolding store_shard save_meta
  store_shard-read e n now c i bytes drv h g =
      let d = as_hex c in
      let meta = new_meta now c i bytes in
      let json = js.to_string_pretty meta in
      let k2 = λ (written : Drive). done meta (write d (meta_path i) json written) in
      let k1 = λ (made : Drive). and_then (write d (shard_path i) bytes made) k2 in
      let h2 = λ (drv : Drive).
        and_then-read e n (write d (meta_path i) json drv) (λ x. (x, some meta)) (λ x. refl)
        ∙ write-other e n d (meta_path i) json drv g in
      and_then-read e n (create_dir_all d drv) k1 (λ made.
        and_then-read e n (write d (shard_path i) bytes made) k2 h2
        ∙ write-other e n d (shard_path i) bytes made h)
      ∙ read-create_dir_all e n d drv

  pub load_meta-store_other :
      (now : Text × Text) (c e : ChunkId) (i j : ℕ) (bytes : Bytes) (drv : Drive)
      → bytes_eq e c && (j == i) ≡ false
      → load_meta e j (store_shard now c i bytes drv).0 ≡ load_meta e j drv
  unfolding load_meta
  load_meta-store_other now c e i j bytes drv h = ap parse_meta (
      store_shard-read (as_hex e) (meta_path j) now c i bytes drv
        (other_name (as_hex e) (meta_path j) (as_hex c) (shard_path i) (meta_path≢shard_path j i))
        (rw (bytes_eq-as_hex e c, bytes_eq-meta_path j i) h))

  -- Storing a shard, with or without an error, leaves every other shard as it was.
  pub retrieve_shard-store_other :
      (now : Text × Text) (c e : ChunkId) (i j : ℕ) (bytes : Bytes) (drv : Drive)
      → bytes_eq e c && (j == i) ≡ false
      → retrieve_shard e j (store_shard now c i bytes drv).0 ≡ retrieve_shard e j drv
  unfolding retrieve_shard
  retrieve_shard-store_other now c e i j bytes drv h =
      rw
        (
          store_shard-read (as_hex e) (shard_path j) now c i bytes drv
              (rw (bytes_eq-as_hex e c, bytes_eq-shard_path j i) h)
              (other_name (as_hex e) (shard_path j) (as_hex c) (meta_path i)
                (shard_path≢meta_path j i)),
          load_meta-store_other now c e i j bytes drv h,
        )
        refl
