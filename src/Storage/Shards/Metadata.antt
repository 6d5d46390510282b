-- ===== src/Storage/Shards/Metadata.antt =====
-- What an attempt to store a shard leaves of its metadata, when the system refuses calls or stops writes
-- in the middle.
use dest.Base.{
  ℕ, Bool, true, false, Option, none, some, ◌⊎◌, inl, inr, length, ◌≡◌, sym, ap, ◌∙◌, lt-cases,
  take-length,
}
use mathlib.Core.Path.{subst}
use dest.Base.Text.{Bytes, Text}
use dest.Core.Extern.{Blake3, Hex}
use dest.Core.Types.{ChunkId, as_hex}
use dest.Storage.Files.{Drive, read, create_dir_all, write}
use dest.Storage.Files.Laws.{Written, write-Written, write-other, read-create_dir_all}
use dest.Storage.Shards.{
  MetaJson, ShardMeta, and_then, done, new_meta, save_meta, load_meta, parse_meta, store_shard,
  shard_path, meta_path,
}
use dest.Storage.Shards.Laws.{other_name}
use dest.Storage.Shards.Names.{meta_path≢shard_path}
use mathlib.Core.Option

-- What holds after the first call and after both holds where `?` stops or goes on.
and_then-elim :
    {A : Type 0} (P : Drive → Type 0) (r : Drive × Bool) (k : Drive → Drive × Option A)
    → P r.0
    → P (k r.0).0
    → P (and_then r k).0
and_then-elim P (drv, true) k h g = g
and_then-elim P (drv, false) k h g = h

module _ ⦃hx : Hex⦄ ⦃b3 : Blake3⦄ ⦃js : MetaJson⦄ where
  -- The metadata of a shard after an attempt to change it.
  data Left (before after : Option ShardMeta) (fresh : ShardMeta) : Type 0 where
    kept : after ≡ before → Left before after fresh
    lost : after ≡ none → Left before after fresh
    new : after ≡ some fresh → Left before after fresh

  Written-Left :
      (before after : Option Bytes) (m : ShardMeta)
      → Written before after (js.to_string_pretty m)
      → Left (parse_meta before) (parse_meta after) m
  Written-Left before after m (Written.kept e) = Left.kept (ap parse_meta e)
  Written-Left before after m (Written.torn k e) =
      elim (lt-cases k (length (js.to_string_pretty m))) [
        | inl short ↦ Left.lost (rw (e) (js.from_str-take m k short))
        | inr long ↦
            Left.new (rw (e, take-length k (js.to_string_pretty m) long) (js.from_str-to_string m))
      ]
  Written-Left before after m (Written.whole e) = Left.new (rw (e) (js.from_str-to_string m))

  store_shard-Left :
      (now : Text × Text) (c : ChunkId) (i : ℕ) (bytes : Bytes) (drv : Drive)
      → Left
          (load_meta c i drv)
          (load_meta c i (store_shard now c i bytes drv).0)
          (new_meta now c i bytes)
  unfolding store_shard save_meta load_meta
  store_shard-Left now c i bytes drv =
      let d = as_hex c in
      let meta = new_meta now c i bytes in
      let json = js.to_string_pretty meta in
      let k2 = λ (written : Drive). done meta (write d (meta_path i) json written) in
      let k1 = λ (made : Drive). and_then (write d (shard_path i) bytes made) k2 in
      let P = λ (x : Drive).
        Left (parse_meta (read d (meta_path i) drv)) (parse_meta (read d (meta_path i) x)) meta in
      let r1 = create_dir_all d drv in
      let r2 = write d (shard_path i) bytes r1.0 in
      let r3 = write d (meta_path i) json r2.0 in
      let e1 = read-create_dir_all d (meta_path i) d drv in
      let e2 =
        write-other d (meta_path i) d (shard_path i) bytes r1.0
          (other_name d (meta_path i) d (shard_path i) (meta_path≢shard_path i i))
        ∙ e1 in
      let w =
        subst (λ o. Left (parse_meta o) (parse_meta (read d (meta_path i) r3.0)) meta) e2
          (Written-Left (read d (meta_path i) r2.0) (read d (meta_path i) r3.0) meta
            (write-Written d (meta_path i) json r2.0)) in
      and_then-elim P r1 k1 (Left.kept (ap parse_meta e1)) (
        and_then-elim P r2 k2 (Left.kept (ap parse_meta e2))
          (and_then-elim P r3 (λ x. (x, some meta)) w w))

module _ ⦃hx : Hex⦄ ⦃b3 : Blake3⦄ ⦃js : MetaJson⦄ where
  Left-load :
      (before after : Option ShardMeta) (fresh m : ShardMeta)
      → Left before after fresh
      → after ≡ some m
      → (before ≡ some m) ⊎ (m.blake3_hash ≡ fresh.blake3_hash)
  Left-load before after fresh m (Left.kept p) h = inl (sym p ∙ h)
  Left-load before after fresh m (Left.lost p) h = cc
  Left-load before after fresh m (Left.new p) h =
      inr (sym (ap (λ x. x.blake3_hash) (Option.some-injective fresh m (sym p ∙ h))))

  store_shard-load :
      (now : Text × Text) (c : ChunkId) (i : ℕ) (bytes : Bytes) (drv : Drive) (m : ShardMeta)
      → load_meta c i (store_shard now c i bytes drv).0 ≡ some m
      → (load_meta c i drv ≡ some m) ⊎ (m.blake3_hash ≡ hx.encode (b3.hash bytes))
  store_shard-load now c i bytes drv m h =
      Left-load (load_meta c i drv) (load_meta c i (store_shard now c i bytes drv).0)
        (new_meta now c i bytes) m (store_shard-Left now c i bytes drv) h

  pub store_shard-load_at :
      (now : Text × Text) (c e : ChunkId) (i j : ℕ) (bytes : Bytes) (drv : Drive) (m : ShardMeta)
      → e ≡ c
      → j ≡ i
      → load_meta e j (store_shard now c i bytes drv).0 ≡ some m
      → (load_meta e j drv ≡ some m) ⊎ (m.blake3_hash ≡ hx.encode (b3.hash bytes))
  store_shard-load_at now c e i j bytes drv m p q =
      rw (p, q) (λ h. store_shard-load now c i bytes drv m h)
