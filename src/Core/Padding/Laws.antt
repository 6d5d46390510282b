-- ===== src/Core/Padding/Laws.antt =====
-- core/src/padding.rs: what unpadding a padded chunk gives.
use dest.Base.{
  ℕ, suc, ◌+◌, ◌-◌, ◌/◌, ◌%◌, ◌^◌, ◌≤◌, ◌<◌, ◌≡◌, true, false, refl, ◌∙◌, ap, none, some, [], ◌∷◌,
  ◌++◌, inl, inr, length, drop, ltb, leb, lt→ltb, le→ltb, lt-cases, arith, length-append,
  drop-append,
}
use mathlib.Core.List.{append-nil}
use dest.Core.Extern.{Bytes}
use dest.Core.Types.{chunk_size}
use dest.Core.Padding.{
  Rng, to_be_bytes, from_be_bytes, pad_chunk, pad_with_length_header, unpad_block,
  unpad_with_length_header,
}

-- A 32-bit number survives its four bytes.
from_be_bytes-to_be_bytes :
    (n : ℕ)
    → n < 2 ^ 32
    → from_be_bytes (n / 2 ^ 24 % 256) (n / 2 ^ 16 % 256) (n / 2 ^ 8 % 256) (n % 256) ≡ n
from_be_bytes-to_be_bytes n h = omega arith

-- A block of four bytes and a body.
unpad_block-body :
    (n a b c d : ℕ) (body : Bytes)
    → n ≤ length body
    → unpad_block n (a ∷ b ∷ c ∷ d ∷ body) ≡ some (drop (length body - n) body)
unpad_block-body n a b c d body fits =
    let len = length body in
    let room : ltb (suc (suc (suc (suc len))) - 4) n ≡ false = le→ltb _ n (omega arith) in
    let start : suc (suc (suc (suc len))) - n ≡ suc (suc (suc (suc (len - n)))) = omega arith in
    rw (room, start)

unpad_block_long :
    (n a b c d : ℕ) (body : Bytes) → length body < n → unpad_block n (a ∷ b ∷ c ∷ d ∷ body) ≡ none
unpad_block_long n a b c d body long =
    let full : ltb (suc (suc (suc (suc (length body)))) - 4) n ≡ true = lt→ltb _ n (omega arith) in
    rw full

-- Behind a header for `n` bytes, unpadding takes the last `n` bytes of the block.
pub unpad-header :
    (n : ℕ) (body : Bytes)
    → n < 2 ^ 32
    → n ≤ length body
    → unpad_with_length_header (to_be_bytes n ++ body) ≡ some (drop (length body - n) body)
unfolding unpad_with_length_header
unpad-header n body small fits =
    rw (from_be_bytes-to_be_bytes n small) (unpad_block-body n _ _ _ _ body fits)

pub unpad-header_long :
    (n : ℕ) (body : Bytes)
    → n < 2 ^ 32
    → length body < n
    → unpad_with_length_header (to_be_bytes n ++ body) ≡ none
unfolding unpad_with_length_header
unpad-header_long n body small long =
    rw (from_be_bytes-to_be_bytes n small) (unpad_block_long n _ _ _ _ body long)

-- Unpadding reads the layout that the comment describes: a header, padding, and the data at the end.
unpad-layout :
    (bytes padding : Bytes)
    → length bytes < 2 ^ 32
    → unpad_with_length_header (to_be_bytes (length bytes) ++ (padding ++ bytes)) ≡ some bytes
unpad-layout bytes padding small =
    let len = length-append padding bytes in
    let start : length (padding ++ bytes) - length bytes ≡ length padding + 0 =
      omega (arith, len) in
    unpad-header (length bytes) (padding ++ bytes) small (omega (arith, len))
    ∙ (rw start (ap some (drop-append padding bytes 0)))

nil_of_length : (xs : Bytes) → length xs ≡ 0 → xs ≡ []
nil_of_length [] e = refl
nil_of_length (x ∷ xs) e = absurd (omega arith)

module _ ⦃rng : Rng⦄ where
  -- What `pad_chunk` returns.
  abbrev pub padded : Bytes → Bytes
  padded bytes = bytes ++ rng.fill_bytes (chunk_size - length bytes)

  pub length-padded :
      (bytes : Bytes) → length bytes ≤ chunk_size → length (padded bytes) ≡ chunk_size
  length-padded bytes h =
      let n = chunk_size - length bytes in
      omega (arith, length-append bytes (rng.fill_bytes n), rng.length-fill_bytes n)

  pad_chunk-padded :
      (bytes : Bytes) → length bytes ≤ chunk_size → pad_chunk bytes ≡ some (padded bytes)
  unfolding pad_chunk
  pad_chunk-padded bytes h = elim (lt-cases (length bytes) chunk_size) [
    | inl short ↦
        let fits : leb (length bytes) chunk_size ≡ true = ground arith in
        rw (fits, lt→ltb (length bytes) chunk_size short)
    | inr full ↦
        let fits : leb (length bytes) chunk_size ≡ true = ground arith in
        let none_left : chunk_size - length bytes ≡ 0 = omega arith in
        let nothing = nil_of_length (rng.fill_bytes 0) (rng.length-fill_bytes 0) in
        rw (fits, le→ltb (length bytes) chunk_size full, none_left, nothing, append-nil)
  ]

  pub pad_with_length_header-padded :
      (bytes : Bytes)
      → length bytes ≤ chunk_size
      → pad_with_length_header bytes ≡ some (to_be_bytes (length bytes) ++ drop 4 (padded bytes))
  unfolding pad_with_length_header
  pad_with_length_header-padded bytes h =
      let small : length bytes % 2 ^ 32 ≡ length bytes = omega arith in
      rw (pad_chunk-padded bytes h, small, pad_with_length_header)
