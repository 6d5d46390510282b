-- ===== src/Storage/Shards/Backup.antt =====
-- Data on their way to a host and back: core/src/chunking.rs, encryption.rs and erasure.rs with the shard
-- store of storage/src/shard_store.rs.
use dest.Base.{
  ℕ, suc, ◌≤◌, ◌≡◌, refl, sym, ap, ◌∙◌, true, false, Option, none, some, List, [], ◌∷◌, ◌++◌, All,
  length, get_elem?, arith,
}
use dest.Base.Text.{Bytes, Text, bytes_eq}
use dest.Core.Extern.{Blake3, Hex}
use dest.Core.Types.{ChunkId, DerivedKey, rs_data_shards}
use dest.Core.Chunking.{chunk_data, assemble_chunks}
use dest.Core.Encryption.{Aead, encrypt}
use dest.Core.Erasure.{ReedSolomon, encode}
use dest.Core.Erasure.Slots.{IsShardOf, Distinct}
use dest.Core.Restore.{Spread, AreSpread, AllRestore, assemble_chunks-restored}
use dest.Storage.Files.{Drive}
use dest.Storage.Shards.{Call, run, all_ok, MetaJson, retrieve_shard}
use dest.Storage.Shards.Runs.{table, update, run_refines_table}
use dest.Storage.Shards.Download.{store_from, or_else-none, table-store_from}

-- Each chunk's id, and what becomes of the chunk.
abbrev pub Uploads : Type 0
Uploads = List (ChunkId × Spread)

abbrev pub spreads : Uploads → List Spread
spreads [] = []
spreads ((c, s) ∷ us) = s ∷ spreads us

-- One call for each shard of each chunk.
unfoldable pub store_all : Text × Text → Uploads → List Call
store_all now [] = []
store_all now ((c, s) ∷ us) = store_from now c 0 s.shards ++ store_all now us

-- The id c is none of these chunks'.
abbrev pub IsOther : ChunkId → Uploads → Type 0
IsOther c [] = Unit
IsOther c ((e, s) ∷ us) = (bytes_eq e c ≡ false) × (bytes_eq c e ≡ false) × IsOther c us

-- No two chunks have one id.
abbrev pub AreApart : Uploads → Type 0
AreApart [] = Unit
AreApart ((c, s) ∷ us) = IsOther c us × AreApart us

table-append :
    (ks ls : List Call) (e : ChunkId) (j : ℕ) (o : Option Bytes)
    → table (ks ++ ls) e j o ≡ table ls e j (table ks e j o)
unfolding table
table-append [] ls e j o = refl
table-append (k ∷ ks) ls e j o = table-append ks ls e j (update k e j o)

-- Calls for one chunk leave another's shards.
table-elsewhere :
    (now : Text × Text) (c e : ChunkId) (k j : ℕ) (shards : List Bytes) (o : Option Bytes)
    → bytes_eq e c ≡ false
    → table (store_from now c k shards) e j o ≡ o
unfolding table store_from
table-elsewhere now c e k j [] o h = refl
table-elsewhere now c e k j (s ∷ shards) o h =
    table-elsewhere now c e (suc k) j shards (update (Call.store now c k s) e j o) h
    ∙ ground (arith, h)

table-store_all_other :
    (now : Text × Text) (c : ChunkId) (j : ℕ) (us : Uploads) (o : Option Bytes)
    → IsOther c us
    → table (store_all now us) c j o ≡ o
unfolding store_all table
table-store_all_other now c j [] o h = refl
table-store_all_other now c j ((e, s) ∷ us) o h =
    table-append (store_from now e 0 s.shards) (store_all now us) c j o
    ∙ (table-store_all_other now c j us (table (store_from now e 0 s.shards) c j o) h.2
        ∙ table-elsewhere now e c 0 j s.shards o h.1)

-- In the table the shards of these chunks are those that were made.
abbrev AreTabled : List Call → Uploads → Type 0
AreTabled ks [] = Unit
AreTabled ks ((c, s) ∷ us) = ((j : ℕ) → table ks c j none ≡ get_elem? s.shards j) × AreTabled ks us

AreTabled-store_from :
    (now : Text × Text) (c : ChunkId) (shards : List Bytes) (ks : List Call) (us : Uploads)
    → IsOther c us
    → AreTabled ks us
    → AreTabled (store_from now c 0 shards ++ ks) us
AreTabled-store_from now c shards ks [] h t = tt
AreTabled-store_from now c shards ks ((e, s) ∷ us) h t = (
  λ j.
      table-append (store_from now c 0 shards) ks e j none
      ∙ (ap (table ks e j) (table-elsewhere now c e 0 j shards none h.0) ∙ t.0 j),
  AreTabled-store_from now c shards ks us h.2 t.1,
)

store_all-AreTabled :
    (now : Text × Text) (us : Uploads) → AreApart us → AreTabled (store_all now us) us
unfolding store_all
store_all-AreTabled now [] h = tt
store_all-AreTabled now ((c, s) ∷ us) h = (
  λ j.
      table-append (store_from now c 0 s.shards) (store_all now us) c j none
      ∙ (table-store_all_other now c j us (table (store_from now c 0 s.shards) c j none) h.0
          ∙ (table-store_from now c 0 j j s.shards none (omega arith)
              ∙ or_else-none (get_elem? s.shards j))),
  AreTabled-store_from now c s.shards (store_all now us) us h.0 (store_all-AreTabled now us h.1),
)

module _ ⦃hx : Hex⦄ ⦃b3 : Blake3⦄ ⦃js : MetaJson⦄ where
  -- The host has no shard of these chunks.
  abbrev pub IsFresh : Drive → Uploads → Type 0
  IsFresh drv [] = Unit
  IsFresh drv ((c, s) ∷ us) = ((j : ℕ) → retrieve_shard c j drv ≡ none) × IsFresh drv us

  -- What a host gives out of a chunk are its shards.
  given-shards :
      (c : ChunkId) (shards : List Bytes) (drv : Drive) (found : List (ℕ × Bytes))
      → ((j : ℕ) → retrieve_shard c j drv ≡ get_elem? shards j)
      → All (λ p. retrieve_shard c p.0 drv ≡ some p.1) found
      → All (IsShardOf shards) found
  given-shards c shards drv [] has h = tt
  given-shards c shards drv ((j, s) ∷ found) has h =
      (sym (has j) ∙ h.0, given-shards c shards drv found has h.1)

  module _ ⦃aead : Aead⦄ ⦃rs : ReedSolomon⦄ where
    -- The chunk was encrypted and encoded, and the host gives out three or more shards of it, at
    -- different indices.
    abbrev pub IsGiven : Drive → DerivedKey → Bytes → ChunkId → Spread → Type 0
    IsGiven drv key chunk c s =
        (encrypt ⦃rng = s.rng⦄ key chunk ≡ some (s.nonce, s.ciphertext))
        × (encode s.ciphertext ≡ some s.shards)
        × All (λ p. retrieve_shard c p.0 drv ≡ some p.1) s.found
        × Distinct s.found
        × (rs_data_shards ≤ length s.found)

    abbrev pub AreGiven : Drive → DerivedKey → List Bytes → Uploads → Type 0
    AreGiven drv key [] [] = Unit
    AreGiven drv key (chunk ∷ chunks) ((c, s) ∷ us) =
        IsGiven drv key chunk c s × AreGiven drv key chunks us
    AreGiven drv key _ _ = ⊥

    AreGiven-AreSpread :
        (ks : List Call) (drv : Drive) (key : DerivedKey) (chunks : List Bytes) (us : Uploads)
        → all_ok ks drv ≡ true
        → IsFresh drv us
        → AreTabled ks us
        → AreGiven (run ks drv) key chunks us
        → AreSpread key chunks (spreads us)
    AreGiven-AreSpread ks drv key [] [] ok fresh t h = tt
    AreGiven-AreSpread ks drv key [] ((c, s) ∷ us) ok fresh t h = absurd h
    AreGiven-AreSpread ks drv key (chunk ∷ chunks) [] ok fresh t h = absurd h
    AreGiven-AreSpread ks drv key (chunk ∷ chunks) ((c, s) ∷ us) ok fresh t (h, more) = (
      (
        h.0,
        h.1,
        given-shards c s.shards (run ks drv) s.found
            (λ j. run_refines_table ks c j drv ok ∙ (ap (table ks c j) (fresh.0 j) ∙ t.0 j)) h.2,
        h.3,
        h.4,
      ),
      AreGiven-AreSpread ks drv key chunks us ok fresh.1 t.1 more,
    )

    -- Data are cut into chunks, each of them is encrypted under one key, with a nonce of its own, and encoded, and all the shards are stored without an error by a host that had none of them, each chunk under an id of its own. From any three or more shards of every chunk that the host then gives out, at different indices and in any order, its encrypted text is rebuilt, followed by the zeros that padded it to a multiple of three bytes. Without these zeros, which no function of the program takes off, it decrypts to the chunk, and the chunks assembled are the data.
    pub assemble_chunks-store_all :
        (key : DerivedKey) (bytes : Bytes) (now : Text × Text) (us : Uploads) (drv : Drive)
        → AreApart us
        → IsFresh drv us
        → all_ok (store_all now us) drv ≡ true
        → AreGiven (run (store_all now us) drv) key (chunk_data bytes) us
        → (chunks : List Bytes) × AllRestore key (spreads us) chunks
          × (assemble_chunks chunks ≡ bytes)
    assemble_chunks-store_all key bytes now us drv apart fresh ok h =
        assemble_chunks-restored key bytes (spreads us) (
          AreGiven-AreSpread (store_all now us) drv key (chunk_data bytes) us ok fresh
            (store_all-AreTabled now us apart) h)
