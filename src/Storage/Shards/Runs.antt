-- ===== src/Storage/Shards/Runs.antt =====
-- Runs of calls of the shard store.
use dest.Base.{
  ℕ, true, Option, none, some, List, [], ◌∷◌, ◌&&◌, ◌==◌, inl, inr, if◌then◌else◌, ◌≡◌, refl, ap,
  ◌∙◌, arith, Bool-cases, ==_iff,
}
use dest.Base.Text.{Bytes, Text, bytes_eq, bytes_eq_iff}
use dest.Core.Extern.{Blake3, Hex}
use dest.Core.Types.{ChunkId}
use dest.Storage.Files.{Drive, is_some}
use dest.Storage.Shards.{Call, step, run, all_ok, MetaJson, store_shard, retrieve_shard}
use dest.Storage.Shards.Laws.{retrieve_shard-store_shard, retrieve_shard-store_other}
use dest.Storage.Shards.Deletion.{retrieve_shard-delete_shard}

-- A table of shards: what the calls mean.
abbrev pub update : Call → ChunkId → ℕ → Option Bytes → Option Bytes
update (Call.store now c i bytes) e j o = if bytes_eq e c && (j == i) then some bytes else o
update (Call.delete c i) e j o = if bytes_eq e c && (j == i) then none else o

unfoldable pub table : List Call → ChunkId → ℕ → Option Bytes → Option Bytes
table [] e j o = o
table (call ∷ calls) e j o = table calls e j (update call e j o)

module _ ⦃hx : Hex⦄ ⦃b3 : Blake3⦄ ⦃js : MetaJson⦄ where
  pub some-of : {A : Type 0} (o : Option A) → is_some o ≡ true → (x : A) × (o ≡ some x)
  some-of none h = cc
  some-of (some x) h = (x, refl)

  retrieve_shard-store :
      (now : Text × Text) (c e : ChunkId) (i j : ℕ) (bytes : Bytes) (drv : Drive)
      → is_some (store_shard now c i bytes drv).1 ≡ true
      → retrieve_shard e j (store_shard now c i bytes drv).0
        ≡ (if bytes_eq e c && (j == i) then some bytes else retrieve_shard e j drv)
  retrieve_shard-store now c e i j bytes drv h =
      let (m, ok) = some-of (store_shard now c i bytes drv).1 h in
      elim (Bool-cases (bytes_eq e c && (j == i))) [
        | inl same ↦
            rw
              (
                same,
                (bytes_eq_iff e c).0 (ground (arith, same)),
                (==_iff j i).0 (ground (arith, same)),
              )
              (retrieve_shard-store_shard now c i bytes drv m ok)
        | inr other ↦ rw (other) (retrieve_shard-store_other now c e i j bytes drv other)
      ]

  retrieve_shard-step :
      (call : Call) (e : ChunkId) (j : ℕ) (drv : Drive)
      → (step call drv).1 ≡ true
      → retrieve_shard e j (step call drv).0 ≡ update call e j (retrieve_shard e j drv)
  retrieve_shard-step (Call.store now c i bytes) e j drv h =
      retrieve_shard-store now c e i j bytes drv h
  retrieve_shard-step (Call.delete c i) e j drv h = retrieve_shard-delete_shard c e i j drv h

  -- After calls that all report success, from any drive, a retrieval finds what the last call for its shard stored, nothing where that call deleted, and what it found before where there is no such call.
  pub run_refines_table :
      (calls : List Call) (e : ChunkId) (j : ℕ) (drv : Drive)
      → all_ok calls drv ≡ true
      → retrieve_shard e j (run calls drv) ≡ table calls e j (retrieve_shard e j drv)
  unfolding run table all_ok
  run_refines_table [] e j drv h = refl
  run_refines_table (call ∷ calls) e j drv h =
      run_refines_table calls e j (step call drv).0 (ground (arith, h))
      ∙ ap (table calls e j) (retrieve_shard-step call e j drv (ground (arith, h)))
