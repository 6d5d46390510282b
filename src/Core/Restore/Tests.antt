-- ===== src/Core/Restore/Tests.antt =====
-- The theorem on the way of data to the hosts and back at a small input.
use dest.Base.{◌≡◌, refl, List, [], ◌∷◌, arith}
use dest.Core.Extern.{Bytes}
use dest.Core.Encryption.{random_nonce}
use dest.Core.Encryption.Tests.{
  rng, tagger, key, sealed, shards, left, sealed-encrypt, sealed-encode, left-Distinct,
}
use dest.Core.Tests.Codec.{copier}
use dest.Core.Chunking.{chunks_from, chunk_data, assemble_chunks}
use dest.Core.Restore.{Spread, AreSpread, AllRestore, assemble_chunks-restored}

abbrev spreads : List Spread
spreads =
    record { rng = rng; nonce = random_nonce; ciphertext = sealed; shards = shards; found = left }
    ∷ []

one-chunk : chunk_data (5 ∷ 6 ∷ []) ≡ (5 ∷ 6 ∷ []) ∷ []
unfolding chunk_data chunks_from
one-chunk = refl

spreads-AreSpread : AreSpread key ((5 ∷ 6 ∷ []) ∷ []) spreads
spreads-AreSpread =
    ((sealed-encrypt, sealed-encode, (refl, (refl, (refl, tt))), left-Distinct, omega arith), tt)

assemble_chunks-restored_example :
    (chunks : List Bytes) × AllRestore key spreads chunks × (assemble_chunks chunks ≡ 5 ∷ 6 ∷ [])
assemble_chunks-restored_example =
    assemble_chunks-restored key (5 ∷ 6 ∷ []) spreads (rw one-chunk spreads-AreSpread)
