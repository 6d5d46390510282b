-- ===== src/Core/Encryption/Rebuilt/Tests.antt =====
-- A cipher at hand whose tag says how long the text is, and the theorem on rebuilt data with it.
use dest.Base.{
  ℕ, ◌+◌, ◌%◌, ◌==◌, Option, none, some, List, [], ◌∷◌, ◌++◌, length, drop, replicate, All,
  if◌then◌else◌, ◌≡◌, refl, arith, length-append, length-replicate, suc,
}
use mathlib.Core.Option
use mathlib.Core.Path.{subst}
use dest.Core.Extern.{Bytes}
use dest.Core.Types.{tag_len}
use dest.Core.Tests.Codec.{copies, encode_copies, copier}
use dest.Core.Erasure.{encode, reconstruct, chunks_exact}
use dest.Core.Erasure.Slots.{IsShardOf, Distinct}
use dest.Core.Encryption.{Aead, encrypt, random_nonce}
use dest.Core.Encryption.Tests.{rng, key}
use dest.Core.Encryption.Rebuilt.{IsStrict, decrypt_rebuilt, decrypt_rebuilt-encode}

abbrev pub seal : Bytes → Bytes
seal p = length p ∷ (replicate 15 9 ++ p)

abbrev pub check : ℕ → Bytes → Option Bytes
check n p = if n == length p then some p else none

abbrev pub open_sealed : Bytes → Option Bytes
open_sealed [] = none
open_sealed (n ∷ c) = check n (drop 15 c)

check-length : (p : Bytes) → check (length p) p ≡ some p
check-length p = ground arith

check-longer : (p : Bytes) (k : ℕ) → check (length p) (p ++ replicate (suc k) 0) ≡ none
check-longer p k =
    ground (arith, length-append p (replicate (suc k) 0), length-replicate {A = ℕ} (suc k) 0)

pub open_sealed-seal : (p c : Bytes) → some (seal p) ≡ some c → open_sealed c ≡ some p
open_sealed-seal p c e =
    subst (λ x. open_sealed x ≡ some p) (Option.some-injective (seal p) c e) (check-length p)

pub length-seal : (p c : Bytes) → some (seal p) ≡ some c → length c ≡ length p + 16
length-seal p c e =
    subst (λ x. length x ≡ length p + 16) (Option.some-injective (seal p) c e) (omega arith)

open_sealed-longer :
    (p c : Bytes) (k : ℕ) → some (seal p) ≡ some c → open_sealed (c ++ replicate (suc k) 0) ≡ none
open_sealed-longer p c k e =
    subst (λ x. open_sealed (x ++ replicate (suc k) 0) ≡ none) (Option.some-injective (seal p) c e)
      (check-longer p k)

instance abbrev counter : Aead
counter = record {
  Cipher = Bytes;
  new_from_slice = λ key. some key;
  encrypt = λ key n p. some (seal p);
  decrypt = λ key n c. open_sealed c;
  new_from_slice-ok = λ key h. (key, refl);
  decrypt-encrypt = λ key n p c e. open_sealed-seal p c e;
  length-encrypt = λ key n p c e. length-seal p c e;
}

counter-IsStrict : IsStrict counter
counter-IsStrict = record { refuses = λ key n p c k e. open_sealed-longer p c k e }

-- One byte, so that a zero is added.
abbrev plaintext : Bytes
plaintext = 5 ∷ []

abbrev sealed : Bytes
sealed = seal plaintext

sealed-encrypt : encrypt key plaintext ≡ some (random_nonce, sealed)
unfolding encrypt
sealed-encrypt = refl

abbrev shards : List Bytes
shards = copies (1 ∷ replicate 5 9) (replicate 6 9) (replicate 4 9 ++ (5 ∷ 0 ∷ []))

sealed-encode : encode sealed ≡ some shards
unfolding encode chunks_exact encode_copies
sealed-encode = refl

abbrev parts : List (ℕ × Bytes)
parts = (0, 1 ∷ replicate 5 9) ∷ (1, replicate 6 9) ∷ (2, replicate 4 9 ++ (5 ∷ 0 ∷ [])) ∷ []

parts-Distinct : Distinct parts
parts-Distinct = ((λ e. ground arith, (λ e. ground arith, tt)), ((λ e. ground arith, tt), (tt, tt)))

parts-shards : All (IsShardOf shards) parts
parts-shards = (refl, (refl, (refl, tt)))

decrypt_rebuilt-encode_example :
    decrypt_rebuilt key random_nonce (reconstruct parts)
    ≡ (if (length plaintext + tag_len) % 3 == 0 then some plaintext else none)
decrypt_rebuilt-encode_example =
    decrypt_rebuilt-encode counter-IsStrict key random_nonce plaintext sealed shards parts
      sealed-encrypt sealed-encode parts-shards parts-Distinct (omega arith)
