-- ===== src/Core/Encryption/Rebuilt.antt =====
-- core/src/erasure.rs and encryption.rs: what `decrypt` gives on the very data that `reconstruct` gives.
mod Tests
use dest.Base.{
  ℕ, suc, ◌+◌, ◌-◌, ◌%◌, ◌≤◌, ◌==◌, true, false, Bool-cases, inl, inr, Option, none, some, List,
  length, replicate, All, ◌++◌, if◌then◌else◌, ◌≡◌, sym, ap, ◌∙◌, arith,
}
use mathlib.Core.List.{append-nil}
use dest.Core.Extern.{Bytes}
use dest.Core.Padding.{Rng}
use dest.Core.Types.{tag_len, DerivedKey, Nonce, rs_data_shards}
use dest.Core.Encryption.{Aead, encrypt, decrypt, random_nonce}
use dest.Core.Encryption.Roundtrip.{decrypt-reconstruct, length-encrypt, with_nonce-inv}
use dest.Core.Erasure.{ReedSolomon, encode, reconstruct, padded, total_len}
use dest.Core.Erasure.Slots.{IsShardOf, Distinct}

-- The cipher authenticates what it decrypts: an encrypted text with zeros after it is refused.
pub record IsStrict (aead : Aead) : Type 0 where
  pub refuses :
      (c : aead.Cipher) (n : Nonce) (plaintext ciphertext : Bytes) (k : ℕ)
      → aead.encrypt c n plaintext ≡ some ciphertext
      → aead.decrypt c n (ciphertext ++ replicate (suc k) 0) ≡ none

-- How many zeros follow n bytes that are encoded.
zeros-suc : (n : ℕ) → n % 3 == 0 ≡ false → total_len n - n ≡ suc (total_len n - n - 1)
zeros-suc n h = ground arith

zeros-none : (n : ℕ) → n % 3 == 0 ≡ true → total_len n - n ≡ 0
zeros-none n h = ground arith

module _ ⦃aead : Aead⦄ where
  -- `decrypt` after `reconstruct`, each with its `?`.
  abbrev pub decrypt_rebuilt : DerivedKey → Nonce → Option Bytes → Option Bytes
  decrypt_rebuilt key nonce none = none
  decrypt_rebuilt key nonce (some rebuilt) = decrypt key nonce rebuilt

  decrypt-zeros :
      ⦃rng : Rng⦄
      → (strict : IsStrict aead) (key : DerivedKey) (nonce : Nonce) (plaintext ciphertext : Bytes)
      → (k : ℕ) → encrypt key plaintext ≡ some (nonce, ciphertext)
      → decrypt key nonce (ciphertext ++ replicate (suc k) 0) ≡ none
  unfolding encrypt decrypt
  decrypt-zeros strict key nonce plaintext ciphertext k e =
      let (c, made) = aead.new_from_slice-ok key.bytes key.length-bytes in
      let (same, done) =
        with_nonce-inv random_nonce nonce (aead.encrypt c random_nonce plaintext) ciphertext
          (rw made at e) in
      rw (made, sym same) (strict.refuses c random_nonce plaintext ciphertext k done)

  decrypt-padded :
      ⦃rng : Rng⦄
      → (strict : IsStrict aead) (key : DerivedKey) (nonce : Nonce) (plaintext ciphertext : Bytes)
      → encrypt key plaintext ≡ some (nonce, ciphertext)
      → decrypt key nonce ciphertext ≡ some plaintext
      → decrypt key nonce (padded ciphertext)
        ≡ (if length ciphertext % 3 == 0 then some plaintext else none)
  decrypt-padded strict key nonce plaintext ciphertext e opens =
      let n = length ciphertext in
      elim (Bool-cases (n % 3 == 0)) [
        | inl whole ↦
            rw (whole, zeros-none n whole) (ap (decrypt key nonce) (append-nil ciphertext) ∙ opens)
        | inr rest ↦
            rw (rest, zeros-suc n rest)
              (decrypt-zeros strict key nonce plaintext ciphertext (total_len n - n - 1) e)
      ]

  -- A chunk is encrypted and encoded, and any three or more of its shards are rebuilt and what that gives is decrypted, as the functions are made to be put together: with a cipher that refuses an encrypted text with zeros after it, the chunk comes back exactly if its length and that of the tag are together a multiple of three, and otherwise there is an error, since the zeros of the encoding stay.
  pub decrypt_rebuilt-encode :
      ⦃rng : Rng⦄ ⦃rs : ReedSolomon⦄
      → (strict : IsStrict aead) (key : DerivedKey) (nonce : Nonce) (plaintext ciphertext : Bytes)
      → (shards : List Bytes) (shard_data : List (ℕ × Bytes))
      → encrypt key plaintext ≡ some (nonce, ciphertext)
      → encode ciphertext ≡ some shards
      → All (IsShardOf shards) shard_data
      → Distinct shard_data
      → rs_data_shards ≤ length shard_data
      → decrypt_rebuilt key nonce (reconstruct shard_data)
        ≡ (if (length plaintext + tag_len) % 3 == 0 then some plaintext else none)
  decrypt_rebuilt-encode strict key nonce plaintext ciphertext shards shard_data e encoded mem apart
        enough =
      let (rebuilt, opens) =
        decrypt-reconstruct key nonce plaintext ciphertext shards shard_data e encoded mem apart
          enough in
      ap (decrypt_rebuilt key nonce) rebuilt
      ∙ (decrypt-padded strict key nonce plaintext ciphertext e opens
          ∙ ap (λ n. if n % 3 == 0 then some plaintext else none)
              (length-encrypt key nonce plaintext ciphertext e))
