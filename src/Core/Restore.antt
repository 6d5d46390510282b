-- ===== src/Core/Restore.antt =====
-- core/src/chunking.rs, encryption.rs and erasure.rs together: data on their way to the hosts and back.
mod Tests
use dest.Base.{ℕ, ◌≤◌, ◌≡◌, some, List, [], ◌∷◌, All, length}
use dest.Core.Extern.{Bytes}
use dest.Core.Padding.{Rng}
use dest.Core.Types.{DerivedKey, Nonce, rs_data_shards}
use dest.Core.Chunking.{chunk_data, assemble_chunks}
use dest.Core.Chunking.Laws.{assemble_chunks-chunk_data}
use dest.Core.Encryption.{Aead, encrypt, decrypt}
use dest.Core.Encryption.Roundtrip.{decrypt-reconstruct}
use dest.Core.Erasure.{ReedSolomon, encode, reconstruct, padded}
use dest.Core.Erasure.Slots.{IsShardOf, Distinct}

-- What becomes of a chunk: the generator of its nonce, the encrypted text, its shards, and those of them
-- that are found again, with their indices.
pub record Spread : Type 0 where
  pub rng : Rng
  pub nonce : Nonce
  pub ciphertext : Bytes
  pub shards : List Bytes
  pub found : List (ℕ × Bytes)

module _ ⦃aead : Aead⦄ ⦃rs : ReedSolomon⦄ where
  -- The chunk was encrypted and encoded, and three or more shards are found, at different indices.
  abbrev pub IsSpread : DerivedKey → Bytes → Spread → Type 0
  IsSpread key chunk s =
      (encrypt ⦃rng = s.rng⦄ key chunk ≡ some (s.nonce, s.ciphertext))
      × (encode s.ciphertext ≡ some s.shards)
      × All (IsShardOf s.shards) s.found
      × Distinct s.found
      × (rs_data_shards ≤ length s.found)

  -- For each chunk, in order.
  abbrev pub AreSpread : DerivedKey → List Bytes → List Spread → Type 0
  AreSpread key [] [] = Unit
  AreSpread key (chunk ∷ chunks) (s ∷ spreads) = IsSpread key chunk s × AreSpread key chunks spreads
  AreSpread key _ _ = ⊥

  -- The shards found are rebuilt to the encrypted text, padded as it was to be encoded, and the text
  -- itself decrypts to the chunk.
  abbrev pub Restores : DerivedKey → Spread → Bytes → Type 0
  Restores key s chunk =
      (reconstruct s.found ≡ some (padded s.ciphertext))
      × (decrypt key s.nonce s.ciphertext ≡ some chunk)

  abbrev pub AllRestore : DerivedKey → List Spread → List Bytes → Type 0
  AllRestore key [] [] = Unit
  AllRestore key (s ∷ spreads) (chunk ∷ chunks) =
      Restores key s chunk × AllRestore key spreads chunks
  AllRestore key _ _ = ⊥

  AllRestore-AreSpread :
      (key : DerivedKey) (chunks : List Bytes) (spreads : List Spread)
      → AreSpread key chunks spreads
      → AllRestore key spreads chunks
  AllRestore-AreSpread key [] [] h = tt
  AllRestore-AreSpread key [] (s ∷ spreads) h = absurd h
  AllRestore-AreSpread key (chunk ∷ chunks) [] h = absurd h
  AllRestore-AreSpread key (chunk ∷ chunks) (s ∷ spreads) (h, rest) = (
    decrypt-reconstruct ⦃rng = s.rng⦄ key s.nonce chunk s.ciphertext s.shards s.found h.0 h.1 h.2
        h.3 h.4,
    AllRestore-AreSpread key chunks spreads rest,
  )

  -- Data are cut into chunks, and each chunk is encrypted under one key, with a nonce of its own, and encoded. From any three or more shards of every chunk, at different indices and in any order, its encrypted text is rebuilt, followed by the zeros that padded it to a multiple of three bytes. Without these zeros, which no function of the program takes off, it decrypts to the chunk, and the chunks assembled are the data.
  pub assemble_chunks-restored :
      (key : DerivedKey) (bytes : Bytes) (spreads : List Spread)
      → AreSpread key (chunk_data bytes) spreads
      → (chunks : List Bytes) × AllRestore key spreads chunks × (assemble_chunks chunks ≡ bytes)
  assemble_chunks-restored key bytes spreads h = (
    chunk_data bytes,
    AllRestore-AreSpread key (chunk_data bytes) spreads h,
    assemble_chunks-chunk_data bytes,
  )
