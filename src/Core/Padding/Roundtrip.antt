-- ===== src/Core/Padding/Roundtrip.antt =====
-- core/src/padding.rs: what comes back when a padded chunk is unpadded. `pad_with_length_header` writes
-- its header over the data, which stands at the front of the block; `unpad_with_length_header` reads
-- from its end.
use dest.Base.{
  ℕ, ◌+◌, ◌-◌, ◌*◌, ◌≤◌, ◌<◌, ◌≡◌, ◌∙◌, ap, none, some, ◌++◌, length, drop, arith, length-drop,
  drop-drop, drop-append,
}
use dest.Core.Extern.{Bytes}
use dest.Core.Types.{chunk_size}
use dest.Core.Padding.{Rng, to_be_bytes, pad_with_length_header, unpad_with_length_header}
use dest.Core.Padding.Laws.{
  unpad-header, unpad-header_long, padded, length-padded, pad_with_length_header-padded,
}

module _ ⦃rng : Rng⦄ where
  length-body :
      (bytes : Bytes) → length bytes ≤ chunk_size → length (drop 4 (padded bytes)) ≡ chunk_size - 4
  length-body bytes h = omega (arith, length-drop 4 (padded bytes), length-padded bytes h)

  -- Data that fits beside the header is padded to one chunk, and unpadding returns the last bytes of
  -- that chunk, as many as the data had.
  unpad-pad :
      (bytes : Bytes)
      → length bytes ≤ chunk_size - 4
      → (block : Bytes) × (pad_with_length_header bytes ≡ some block)
        × (length block ≡ chunk_size)
        × (unpad_with_length_header block ≡ some (drop (chunk_size - length bytes) (padded bytes)))
  unpad-pad bytes h =
      let body = drop 4 (padded bytes) in
      let len = length-body bytes (omega arith) in
      let start : 4 + (length body - length bytes) ≡ chunk_size - length bytes =
        omega (arith, len) in
      (
        to_be_bytes (length bytes) ++ body,
        pad_with_length_header-padded bytes (omega arith),
        omega (arith, len),
        unpad-header (length bytes) body (omega arith) (omega (arith, len))
            ∙ ap some (drop-drop 4 (length body - length bytes) (padded bytes) ∙ (rw start)),
      )

  -- Data of at most half a chunk comes back as random bytes only: unpadding returns the end of the
  -- padding that the generator filled in, and no byte of the data.
  pub unpad-pad_random :
      (bytes : Bytes)
      → 2 * length bytes ≤ chunk_size
      → (block : Bytes) × (pad_with_length_header bytes ≡ some block)
        × (unpad_with_length_header block
            ≡ some
                (drop (chunk_size - 2 * length bytes) (rng.fill_bytes (chunk_size - length bytes))))
  unpad-pad_random bytes h =
      let (block, made, _, back) = unpad-pad bytes (omega arith) in
      let n = chunk_size - 2 * length bytes in
      let start : chunk_size - length bytes ≡ length bytes + n = omega arith in
      (
        block,
        made,
        back
            ∙ ap some (
                ap (λ (k : ℕ). drop k (padded bytes)) start
                ∙ drop-append bytes (rng.fill_bytes (chunk_size - length bytes)) n),
      )

  -- Data that leaves no room for the header is padded, and cannot be unpadded.
  pub unpad-pad_full :
      (bytes : Bytes)
      → chunk_size - 4 < length bytes
      → length bytes ≤ chunk_size
      → (block : Bytes) × (pad_with_length_header bytes ≡ some block)
        × (unpad_with_length_header block ≡ none)
  unpad-pad_full bytes long h = (
    to_be_bytes (length bytes) ++ drop 4 (padded bytes),
    pad_with_length_header-padded bytes h,
    unpad-header_long (length bytes) (drop 4 (padded bytes)) (omega arith)
        (omega (arith, length-body bytes h)),
  )
