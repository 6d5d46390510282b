-- ===== src/Storage/Shards/Download.antt =====
-- A host that stored the shards of an encrypted chunk gives the plaintext back.
use dest.Base.{
  ℕ, zero, suc, ◌+◌, ◌≤◌, ◌<◌, true, Option, none, some, List, [], ◌∷◌, All, length, get_elem?, ◌≡◌,
  refl, sym, ap, ◌∙◌, arith,
}
use dest.Base.Text.{Bytes, Text, bytes_eq_refl}
use dest.Core.Extern.{Blake3, Hex}
use dest.Core.Padding.{Rng}
use dest.Core.Types.{ChunkId, DerivedKey, Nonce, rs_data_shards}
use dest.Core.Encryption.{Aead, encrypt, decrypt}
use dest.Core.Encryption.Roundtrip.{decrypt-reconstruct}
use dest.Core.Erasure.{ReedSolomon, encode, reconstruct, padded}
use dest.Core.Erasure.Slots.{IsShardOf, Distinct}
use dest.Storage.Files.{Drive}
use dest.Storage.Shards.{Call, run, all_ok, MetaJson, retrieve_shard}
use dest.Storage.Shards.Runs.{table, update, run_refines_table}

-- One call for each shard, from the k-th on.
unfoldable pub store_from : Text × Text → ChunkId → ℕ → List Bytes → List Call
store_from now c k [] = []
store_from now c k (s ∷ shards) = Call.store now c k s ∷ store_from now c (suc k) shards

abbrev pub or_else : Option Bytes → Option Bytes → Option Bytes
or_else none o = o
or_else (some s) o = some s

table-below :
    (now : Text × Text) (c : ChunkId) (k j : ℕ) (shards : List Bytes) (o : Option Bytes)
    → j < k
    → table (store_from now c k shards) c j o ≡ o
unfolding table store_from
table-below now c k j [] o h = refl
table-below now c k j (s ∷ shards) o h =
    table-below now c (suc k) j shards (update (Call.store now c k s) c j o) (omega arith)
    ∙ ground (arith, h)

update-same :
    (now : Text × Text) (c : ChunkId) (k j : ℕ) (s : Bytes) (o : Option Bytes)
    → j ≡ k
    → update (Call.store now c k s) c j o ≡ some s
update-same now c k j s o h = ground (arith, bytes_eq_refl c, h)

pub table-store_from :
    (now : Text × Text) (c : ChunkId) (k m j : ℕ) (shards : List Bytes) (o : Option Bytes)
    → j ≡ k + m
    → table (store_from now c k shards) c j o ≡ or_else (get_elem? shards m) o
unfolding table store_from
table-store_from now c k m j [] o h = refl
table-store_from now c k zero j (s ∷ shards) o h =
    table-below now c (suc k) j shards (update (Call.store now c k s) c j o) (omega (arith, h))
    ∙ update-same now c k j s o (omega (arith, h))
table-store_from now c k (suc m) j (s ∷ shards) o h =
    table-store_from now c (suc k) m j shards (update (Call.store now c k s) c j o)
      (omega (arith, h))
    ∙ ap (or_else (get_elem? shards m)) (ground (arith, h))

pub or_else-none : (o : Option Bytes) → or_else o none ≡ o
or_else-none none = refl
or_else-none (some s) = refl

module _ ⦃hx : Hex⦄ ⦃b3 : Blake3⦄ ⦃js : MetaJson⦄ where
  -- A retrieval after the shards were stored finds the shard of its index.
  retrieve_shard-store_from :
      (now : Text × Text) (c : ChunkId) (shards : List Bytes) (drv : Drive) (j : ℕ)
      → all_ok (store_from now c 0 shards) drv ≡ true
      → retrieve_shard c j drv ≡ none
      → retrieve_shard c j (run (store_from now c 0 shards) drv) ≡ get_elem? shards j
  retrieve_shard-store_from now c shards drv j ok fresh =
      run_refines_table (store_from now c 0 shards) c j drv ok
      ∙ (table-store_from now c 0 j j shards (retrieve_shard c j drv) (omega arith)
          ∙ (ap (or_else (get_elem? shards j)) fresh ∙ or_else-none (get_elem? shards j)))

  found-shards :
      (now : Text × Text) (c : ChunkId) (shards : List Bytes) (drv : Drive)
      (shard_data : List (ℕ × Bytes))
      → all_ok (store_from now c 0 shards) drv ≡ true
      → ((j : ℕ) → retrieve_shard c j drv ≡ none)
      → All (λ p. retrieve_shard c p.0 (run (store_from now c 0 shards) drv) ≡ some p.1) shard_data
      → All (IsShardOf shards) shard_data
  found-shards now c shards drv [] ok fresh h = tt
  found-shards now c shards drv ((j, s) ∷ rest) ok fresh h = (
    sym (retrieve_shard-store_from now c shards drv j ok (fresh j)) ∙ h.0,
    found-shards now c shards drv rest ok fresh h.1,
  )

  -- A text is encrypted, split into shards, and these are stored without an error by a host that had none of
  -- the chunk: then any three or more shards that the host gives out, at different indices and in any order,
  -- are rebuilt to the encrypted text, padded as it was to be encoded, and the text itself decrypts.
  decrypt-retrieve_shard :
      ⦃aead : Aead⦄ ⦃rng : Rng⦄ ⦃rs : ReedSolomon⦄
      → (key : DerivedKey) (nonce : Nonce) (plaintext ciphertext : Bytes) (shards : List Bytes)
      → (now : Text × Text) (c : ChunkId) (drv : Drive) (shard_data : List (ℕ × Bytes))
      → encrypt key plaintext ≡ some (nonce, ciphertext)
      → encode ciphertext ≡ some shards
      → ((j : ℕ) → retrieve_shard c j drv ≡ none)
      → all_ok (store_from now c 0 shards) drv ≡ true
      → All (λ p. retrieve_shard c p.0 (run (store_from now c 0 shards) drv) ≡ some p.1) shard_data
      → Distinct shard_data
      → rs_data_shards ≤ length shard_data
      → (reconstruct shard_data ≡ some (padded ciphertext))
        × (decrypt key nonce ciphertext ≡ some plaintext)
  decrypt-retrieve_shard key nonce plaintext ciphertext shards now c drv shard_data sealed encoded
        fresh ok found apart enough =
      decrypt-reconstruct key nonce plaintext ciphertext shards shard_data sealed encoded
        (found-shards now c shards drv shard_data ok fresh found) apart enough
