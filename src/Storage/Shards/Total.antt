-- ===== src/Storage/Shards/Total.antt =====
-- What the calls of the shard store do to the total size, in any store.
use dest.Base.{ℕ, ◌+◌, ◌%◌, ◌^◌, ◌≡◌, refl, true, none, List, [], ◌∷◌, length, arith}
use dest.Core.Extern.{Blake3, Hex}
use dest.Storage.Files.{Drive, Fault, create_base}
use dest.Storage.Files.Size.{drive_len, IsTidy}
use dest.Storage.Shards.{Call, MetaJson, step, run, new, new_meta, store_shard, total_size}
use dest.Storage.Shards.Tidy.{run-IsTidy}
use dest.Storage.Shards.Size.{
  shard_len, total_size-base, drive_len-store_shard, drive_len-delete_shard,
}
use dest.Storage.Shards.Runs.{some-of}

module _ ⦃hx : Hex⦄ ⦃b3 : Blake3⦄ ⦃js : MetaJson⦄ where
  -- What the files of a call's shard hold before it.
  abbrev pub held : Call → Drive → ℕ
  held (Call.store now c i bytes) drv = shard_len c i drv
  held (Call.delete c i) drv = shard_len c i drv

  -- What a call writes.
  abbrev pub put : Call → ℕ
  put (Call.store now c i bytes) =
      length bytes + length (js.to_string_pretty (new_meta now c i bytes))
  put (Call.delete c i) = 0

  drive_len-step :
      (call : Call) (drv : Drive)
      → IsTidy drv
      → (step call drv).1 ≡ true
      → drive_len (step call drv).0 + held call drv ≡ drive_len drv + put call
  drive_len-step (Call.store now c i bytes) drv t h =
      let (m, ok) = some-of (store_shard now c i bytes drv).1 h in
      omega (arith, drive_len-store_shard now c i bytes drv m ok)
  drive_len-step (Call.delete c i) drv t h = omega (arith, drive_len-delete_shard c i drv t h)

  -- A directory that does not exist, on a file system that behaves in this way.
  abbrev pub absent : List Fault → Drive
  absent faults = record { base = none; faults = faults }

  new-IsTidy : (faults : List Fault) → IsTidy (new (absent faults)).0
  unfolding create_base
  new-IsTidy [] = tt
  new-IsTidy (Fault.pass ∷ faults) = tt
  new-IsTidy (Fault.refuse ∷ faults) = tt
  new-IsTidy (Fault.tear k ∷ faults) = tt

  -- In a store that was made anew and that any calls have led to, whatever failed of them, a call that reports success changes the total size by what it writes less what the two files of its shard held before: a store writes the shard and its metadata, a removal nothing. The sizes are taken modulo 2^64.
  pub total_size-step :
      (faults : List Fault) (calls : List Call) (call : Call)
      → (step call (run calls (new (absent faults)).0)).1 ≡ true
      → let drv = run calls (new (absent faults)).0 in
        (total_size (step call drv).0 + held call drv) % 2 ^ 64
        ≡ (total_size drv + put call) % 2 ^ 64
  total_size-step faults calls call h =
      let drv = run calls (new (absent faults)).0 in
      let after = (step call drv).0 in
      let same =
        drive_len-step call drv (run-IsTidy calls (new (absent faults)).0 (new-IsTidy faults)) h in
      omega (arith, same, total_size-base after.base after refl, total_size-base drv.base drv refl)
