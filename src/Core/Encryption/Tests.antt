-- ===== src/Core/Encryption/Tests.antt =====
-- A cipher at hand, which only appends a tag, and a text encrypted with it and split into shards.
use dest.Base.{
  ℕ, ◌+◌, ◌-◌, some, List, [], ◌∷◌, ◌++◌, length, take, replicate, ◌≡◌, refl, arith, length-append,
  length-replicate, take-length-append, ap, ◌∙◌,
}
use mathlib.Core.Option
use dest.Core.Extern.{Bytes}
use dest.Core.Padding.{Rng}
use dest.Core.Types.{tag_len, DerivedKey}
use dest.Core.Tests.Codec.{copies, encode_copies, copier}
use dest.Core.Erasure.{encode, chunks_exact}
use dest.Core.Erasure.Slots.{Distinct}
use dest.Core.Encryption.{Aead, encrypt, random_nonce}

instance abbrev pub rng : Rng
rng = record { fill_bytes = λ n. replicate n 0; length-fill_bytes = λ n. length-replicate n 0 }

abbrev pub tag : Bytes
tag = replicate tag_len 9

abbrev pub open_tag : Bytes → Bytes
open_tag c = take (length c - tag_len) c

open_tag-seal : (p : Bytes) → open_tag (p ++ tag) ≡ p
open_tag-seal p =
    ap (λ n. take n (p ++ tag)) (omega (arith, length-append p tag)) ∙ take-length-append p tag

pub open-seal : (p c : Bytes) → some (p ++ tag) ≡ some c → some (open_tag c) ≡ some p
open-seal p c e = rw (Option.some-injective (p ++ tag) c e) at (ap some (open_tag-seal p))

pub length-seal : (p c : Bytes) → some (p ++ tag) ≡ some c → length c ≡ length p + 16
length-seal p c e = rw (Option.some-injective (p ++ tag) c e) at (length-append p tag)

instance abbrev pub tagger : Aead
tagger = record {
  Cipher = Bytes;
  new_from_slice = λ key. some key;
  encrypt = λ key n p. some (p ++ tag);
  decrypt = λ key n c. some (open_tag c);
  new_from_slice-ok = λ key h. (key, refl);
  decrypt-encrypt = λ key n p c e. open-seal p c e;
  length-encrypt = λ key n p c e. length-seal p c e;
}

abbrev pub key : DerivedKey
key = record { bytes = replicate 32 1; length-bytes = refl }

abbrev pub sealed : Bytes
sealed = 5 ∷ 6 ∷ tag

pub sealed-encrypt : encrypt key (5 ∷ 6 ∷ []) ≡ some (random_nonce, sealed)
unfolding encrypt
sealed-encrypt = refl

abbrev pub shards : List Bytes
shards = copies (5 ∷ 6 ∷ replicate 4 9) (replicate 6 9) (replicate 6 9)

pub sealed-encode : encode sealed ≡ some shards
unfolding encode chunks_exact encode_copies
sealed-encode = refl

-- The first data shard is lost, and the second.
abbrev pub left : List (ℕ × Bytes)
left = (3, 5 ∷ 6 ∷ replicate 16 9) ∷ (2, replicate 6 9) ∷ (4, 5 ∷ 6 ∷ replicate 16 9) ∷ []

pub left-Distinct : Distinct left
left-Distinct = ((λ e. ground arith, (λ e. ground arith, tt)), ((λ e. ground arith, tt), (tt, tt)))
