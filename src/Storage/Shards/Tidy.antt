-- ===== src/Storage/Shards/Tidy.antt =====
-- The calls of the shard store keep the names of files unique in each directory.
use dest.Base.{ℕ, Bool, true, false, Option, some, List, [], ◌∷◌}
use dest.Base.Text.{Bytes, Text}
use dest.Core.Extern.{Blake3, Hex}
use dest.Core.Types.{ChunkId, as_hex}
use dest.Storage.Files.{Drive, exists_file, create_dir_all, write}
use dest.Storage.Files.Size.{IsTidy, create_dir_all-IsTidy, write-IsTidy, remove_file-IsTidy}
use dest.Storage.Shards.{
  Call, MetaJson, step, run, and_then, done, new_meta, store_shard, save_meta, delete_shard,
  remove_found, remove_if_exists, remove_meta, shard_path, meta_path,
}

pub remove_found-IsTidy :
    (there : Bool) (d n : Text) (drv : Drive) → IsTidy drv → IsTidy (remove_found there d n drv).0
remove_found-IsTidy true d n drv t = remove_file-IsTidy d n drv t
remove_found-IsTidy false d n drv t = t

module _ ⦃hx : Hex⦄ where
  remove_meta-IsTidy :
      (c : ChunkId) (i : ℕ) (r : Drive × Bool) → IsTidy r.0 → IsTidy (remove_meta c i r).0
  remove_meta-IsTidy c i (drv, true) t =
      remove_found-IsTidy (exists_file (as_hex c) (meta_path i) drv) (as_hex c) (meta_path i) drv t
  remove_meta-IsTidy c i (drv, false) t = t

  remove_shard-IsTidy :
      (c : ChunkId) (i : ℕ) (drv : Drive) → IsTidy drv → IsTidy (delete_shard c i drv).0
  unfolding delete_shard
  remove_shard-IsTidy c i drv t =
      remove_meta-IsTidy c i (remove_if_exists (as_hex c) (shard_path i) drv) (
        remove_found-IsTidy (exists_file (as_hex c) (shard_path i) drv) (as_hex c) (shard_path i)
          drv t)

  and_then-IsTidy :
      {A : Type 0} (r : Drive × Bool) (k : Drive → Drive × Option A)
      → ((drv : Drive) → IsTidy drv → IsTidy (k drv).0)
      → IsTidy r.0
      → IsTidy (and_then r k).0
  and_then-IsTidy (drv, true) k h t = h drv t
  and_then-IsTidy (drv, false) k h t = t

  module _ ⦃b3 : Blake3⦄ ⦃js : MetaJson⦄ where
    store_shard-IsTidy :
        (now : Text × Text) (c : ChunkId) (i : ℕ) (bytes : Bytes) (drv : Drive)
        → IsTidy drv
        → IsTidy (store_shard now c i bytes drv).0
    unfolding store_shard save_meta
    store_shard-IsTidy now c i bytes drv t =
        let d = as_hex c in
        let meta = new_meta now c i bytes in
        let json = js.to_string_pretty meta in
        and_then-IsTidy (create_dir_all d drv)
          (λ made.
            and_then (write d (shard_path i) bytes made)
              (λ written. done meta (write d (meta_path i) json written)))
          (λ made ready.
            and_then-IsTidy (write d (shard_path i) bytes made)
              (λ written. done meta (write d (meta_path i) json written))
              (λ written more.
                and_then-IsTidy (write d (meta_path i) json written) (λ x. (x, some meta))
                  (λ x last. last) (write-IsTidy d (meta_path i) json written more))
              (write-IsTidy d (shard_path i) bytes made ready))
          (create_dir_all-IsTidy d drv t)

    pub run-IsTidy : (calls : List Call) (drv : Drive) → IsTidy drv → IsTidy (run calls drv)
    unfolding run
    run-IsTidy [] drv t = t
    run-IsTidy (Call.store now c i bytes ∷ calls) drv t =
        run-IsTidy calls (step (Call.store now c i bytes) drv).0
          (store_shard-IsTidy now c i bytes drv t)
    run-IsTidy (Call.delete c i ∷ calls) drv t =
        run-IsTidy calls (step (Call.delete c i) drv).0 (remove_shard-IsTidy c i drv t)
