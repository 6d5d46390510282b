-- ===== src/Core/Encryption/Roundtrip.antt =====
-- Encryption, and encryption with erasure coding, give the plaintext back.
use dest.Base.{ℕ, ◌+◌, ◌≤◌, Option, none, some, List, length, All, ◌≡◌, sym, ap, arith}
use mathlib.Core.Option
use dest.Core.Extern.{Bytes}
use dest.Core.Padding.{Rng}
use dest.Core.Types.{tag_len, DerivedKey, Nonce, rs_data_shards}
use dest.Core.Encryption.{Aead, encrypt, decrypt, random_nonce, with_nonce}
use dest.Core.Erasure.{ReedSolomon, encode, reconstruct, padded}
use dest.Core.Erasure.Recovery.{reconstruct-padded}
use dest.Core.Erasure.Slots.{IsShardOf, Distinct}

module _ ⦃aead : Aead⦄ where
  pub with_nonce-inv :
      (n m : Nonce) (o : Option Bytes) (ciphertext : Bytes)
      → with_nonce n o ≡ some (m, ciphertext)
      → (n ≡ m) × (o ≡ some ciphertext)
  with_nonce-inv n m none ciphertext e = cc
  with_nonce-inv n m (some c) ciphertext e =
      let p = Option.some-injective (n, c) (m, ciphertext) e in
      (ap (λ x. x.0) p, ap (λ x. some x.1) p)

  -- What a key encrypts, the same key and the nonce of the result decrypt to the plaintext.
  pub decrypt-encrypt :
      ⦃rng : Rng⦄
      → (key : DerivedKey) (nonce : Nonce) (plaintext ciphertext : Bytes)
      → encrypt key plaintext ≡ some (nonce, ciphertext)
      → decrypt key nonce ciphertext ≡ some plaintext
  unfolding encrypt decrypt
  decrypt-encrypt key nonce plaintext ciphertext e =
      let (c, made) = aead.new_from_slice-ok key.bytes key.length-bytes in
      let (same, done) =
        with_nonce-inv random_nonce nonce (aead.encrypt c random_nonce plaintext) ciphertext
          (rw (made) at e) in
      rw (made, sym same) (aead.decrypt-encrypt c random_nonce plaintext ciphertext done)

  pub length-encrypt :
      ⦃rng : Rng⦄
      → (key : DerivedKey) (nonce : Nonce) (plaintext ciphertext : Bytes)
      → encrypt key plaintext ≡ some (nonce, ciphertext)
      → length ciphertext ≡ length plaintext + tag_len
  unfolding encrypt
  length-encrypt key nonce plaintext ciphertext e =
      let (c, made) = aead.new_from_slice-ok key.bytes key.length-bytes in
      aead.length-encrypt c random_nonce plaintext ciphertext
        (with_nonce-inv random_nonce nonce (aead.encrypt c random_nonce plaintext) ciphertext
          (rw (made) at e)).1

  -- Any three or more shards of an encrypted text, at different indices and in any order, are rebuilt to
  -- that text as it was padded to be encoded, and the text itself decrypts to the plaintext.
  pub decrypt-reconstruct :
      ⦃rng : Rng⦄ ⦃rs : ReedSolomon⦄
      → (key : DerivedKey) (nonce : Nonce) (plaintext ciphertext : Bytes)
      → (shards : List Bytes) (shard_data : List (ℕ × Bytes))
      → encrypt key plaintext ≡ some (nonce, ciphertext)
      → encode ciphertext ≡ some shards
      → All (IsShardOf shards) shard_data
      → Distinct shard_data
      → rs_data_shards ≤ length shard_data
      → (reconstruct shard_data ≡ some (padded ciphertext))
        × (decrypt key nonce ciphertext ≡ some plaintext)
  decrypt-reconstruct key nonce plaintext ciphertext shards shard_data e encoded mem apart enough =
      let filled = length-encrypt key nonce plaintext ciphertext e in
      (
        reconstruct-padded ciphertext shards shard_data (omega (arith, filled)) encoded mem apart
            enough,
        decrypt-encrypt key nonce plaintext ciphertext e,
      )
