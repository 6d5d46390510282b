-- ===== src/Core/Padding.antt =====
-- core/src/padding.rs: blocks of one chunk's size, with a header for the length.
pub mod Laws
pub mod Roundtrip
use dest.Base.{
  ℕ, ◌+◌, ◌-◌, ◌*◌, ◌/◌, ◌%◌, ◌^◌, ◌≡◌, Option, none, some, [], ◌∷◌, ◌++◌, length, drop, ltb, leb,
  if◌then◌else◌,
}
use dest.Core.Extern.{Bytes}
use dest.Core.Types.{chunk_size}

-- `u32::to_be_bytes` and `u32::from_be_bytes`
abbrev pub to_be_bytes : ℕ → Bytes
to_be_bytes n = n / 2 ^ 24 % 256 ∷ n / 2 ^ 16 % 256 ∷ n / 2 ^ 8 % 256 ∷ n % 256 ∷ []

abbrev pub from_be_bytes : ℕ → ℕ → ℕ → ℕ → ℕ
from_be_bytes a b c d = a * 2 ^ 24 + b * 2 ^ 16 + c * 2 ^ 8 + d

-- `rng.fill_bytes` on a buffer of so many bytes.
pub record Rng : Type 0 where
  pub fill_bytes : ℕ → Bytes
  pub length-fill_bytes : (n : ℕ) → length (fill_bytes n) ≡ n

module _ ⦃rng : Rng⦄ where
  -- `none` is the failed assertion.
  pub pad_chunk : Bytes → Option Bytes
  pad_chunk bytes =
      if leb (length bytes) chunk_size
      then some (
          if ltb (length bytes) chunk_size
          then bytes ++ rng.fill_bytes (chunk_size - length bytes)
          else bytes)
      else none

  -- `result[0..4].copy_from_slice(…)`; a chunk has more than four bytes.
  pub pad_with_length_header : Bytes → Option Bytes
  pad_with_length_header bytes = elim (pad_chunk bytes) [
    | none ↦ none
    | some padded ↦ some (to_be_bytes (length bytes % 2 ^ 32) ++ drop 4 padded)
  ]

-- `unpad_with_length_header`, on the four bytes of the header and the rest.
abbrev pub unpad_block : ℕ → Bytes → Option Bytes
unpad_block original_len padded =
    if ltb (length padded - 4) original_len
    then none
    else some (drop (length padded - original_len) padded)

pub unpad_with_length_header : Bytes → Option Bytes
unpad_with_length_header (a ∷ b ∷ c ∷ d ∷ rest) =
    unpad_block (from_be_bytes a b c d) (a ∷ b ∷ c ∷ d ∷ rest)
unpad_with_length_header _ = none
