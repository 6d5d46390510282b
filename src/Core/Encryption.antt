-- ===== src/Core/Encryption.antt =====
-- core/src/encryption.rs: keys and encryption, over interfaces for the crates chacha20poly1305 and argon2. An
-- error is `none`; the random generator is a parameter.
pub mod Roundtrip
pub mod Rebuilt
pub mod Tests
use dest.Base.{ℕ, ◌+◌, Option, none, some, [], length, ◌≡◌, refl}
use mathlib.Core.Option
use dest.Core.Extern.{Bytes, Text}
use dest.Core.Padding.{Rng}
use dest.Core.Types.{
  key_len, tag_len, nonce_len, salt_len, derived_key_len, MasterKey, DerivedKey, Nonce,
}

-- `XChaCha20Poly1305`: a key of 32 bytes makes a cipher, and what it encrypts under a nonce it decrypts
-- under that nonce. The ciphertext ends with the tag.
pub record Aead : Type 1 where
  pub Cipher : Type 0
  pub new_from_slice : Bytes → Option Cipher
  pub encrypt : Cipher → Nonce → Bytes → Option Bytes
  pub decrypt : Cipher → Nonce → Bytes → Option Bytes
  pub new_from_slice-ok :
      (key : Bytes) → length key ≡ 32 → (c : Cipher) × (new_from_slice key ≡ some c)
  pub decrypt-encrypt :
      (c : Cipher) (n : Nonce) (plaintext ciphertext : Bytes)
      → encrypt c n plaintext ≡ some ciphertext
      → decrypt c n ciphertext ≡ some plaintext
  pub length-encrypt :
      (c : Cipher) (n : Nonce) (plaintext ciphertext : Bytes)
      → encrypt c n plaintext ≡ some ciphertext
      → length ciphertext ≡ length plaintext + tag_len

-- `argon2`: the parameters, which may be refused, and the hash, which fills the output.
pub record Argon2 : Type 1 where
  pub Params : Type 0
  pub new_params : ℕ → ℕ → ℕ → Option ℕ → Option Params
  pub hash_password_into : Params → Text → Bytes → ℕ → Option Bytes
  pub length-hash_password_into :
      (p : Params) (password : Text) (salt : Bytes) (n : ℕ) (out : Bytes)
      → hash_password_into p password salt n ≡ some out
      → length out ≡ n

module _ ⦃rng : Rng⦄ where
  abbrev pub random_nonce : Nonce
  random_nonce = record {
    bytes = rng.fill_bytes nonce_len;
    length-bytes = rng.length-fill_bytes nonce_len;
  }

  abbrev pub generate_salt : Bytes
  generate_salt = rng.fill_bytes salt_len

  abbrev pub generate_master_key : MasterKey
  generate_master_key = record {
    bytes = rng.fill_bytes key_len;
    length-bytes = rng.length-fill_bytes key_len;
  }

module _ ⦃aead : Aead⦄ where
  abbrev pub with_cipher {ℓ} :
      {A : Type ℓ} → Option aead.Cipher → (aead.Cipher → Option A) → Option A
  with_cipher none k = none
  with_cipher (some c) k = k c

  abbrev pub with_nonce : Nonce → Option Bytes → Option (Nonce × Bytes)
  with_nonce n none = none
  with_nonce n (some ciphertext) = some (n, ciphertext)

  pub encrypt : ⦃rng : Rng⦄ → DerivedKey → Bytes → Option (Nonce × Bytes)
  encrypt key plaintext =
      with_cipher (aead.new_from_slice key.bytes)
        (λ cipher. with_nonce random_nonce (aead.encrypt cipher random_nonce plaintext))

  pub decrypt : DerivedKey → Nonce → Bytes → Option Bytes
  decrypt key nonce ciphertext =
      with_cipher (aead.new_from_slice key.bytes) (λ cipher. aead.decrypt cipher nonce ciphertext)

module _ ⦃argon : Argon2⦄ where
  abbrev pub with_params : Option argon.Params → (argon.Params → Option Bytes) → Option Bytes
  with_params none k = none
  with_params (some p) k = k p

  abbrev pub derive_bytes : Text → Bytes → Option Bytes
  derive_bytes password salt =
      with_params (argon.new_params 65_536 3 4 (some derived_key_len))
        (λ p. argon.hash_password_into p password salt derived_key_len)

  with_params-length :
      (o : Option argon.Params) (password : Text) (salt out : Bytes)
      → with_params o (λ p. argon.hash_password_into p password salt derived_key_len) ≡ some out
      → length out ≡ derived_key_len
  with_params-length none password salt out e = cc
  with_params-length (some p) password salt out e =
      argon.length-hash_password_into p password salt derived_key_len out e

  pub length-derive_bytes :
      (password : Text) (salt out : Bytes)
      → derive_bytes password salt ≡ some out
      → length out ≡ derived_key_len
  length-derive_bytes password salt out e =
      with_params-length (argon.new_params 65_536 3 4 (some derived_key_len)) password salt out e

  -- `DerivedKey(key)`
  abbrev pub to_key :
      (o : Option Bytes)
      → ((out : Bytes) → o ≡ some out → length out ≡ derived_key_len)
      → Option DerivedKey
  to_key none h = none
  to_key (some b) h = some (record { bytes = b; length-bytes = h b refl })

  pub derive_key : Text → Bytes → Option DerivedKey
  derive_key password salt = to_key (derive_bytes password salt) (length-derive_bytes password salt)
