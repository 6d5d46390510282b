-- ===== src/Core/Chunking/Laws.antt =====
-- core/src/chunking.rs: chunking loses nothing, and its chunks have the promised sizes and number.
use dest.Base.{
  ℕ, zero, suc, ◌+◌, ◌-◌, ◌/◌, ◌^◌, ◌≤◌, ◌<◌, ◌≡◌, refl, sym, ◌∙◌, ap, List, [], ◌∷◌, ◌++◌, inl,
  inr, length, take, drop, min, lt→ltb, le→ltb, lt-cases, concat, arith, length-drop, length-take,
  drop-drop, drop-length, take-append-drop,
}
use mathlib.Core.List.{append_assoc, append-nil}
use dest.Core.Extern.{Bytes}
use dest.Core.Types.{chunk_size}
use dest.Core.Chunking.{slice, chunks_from, chunk_data, assemble_from, assemble_chunks, chunk_count}

take-min-length : (n : ℕ) (xs : Bytes) → take (min n (length xs)) xs ≡ take n xs
take-min-length zero [] = ground arith
take-min-length (suc n) [] = ground arith
take-min-length zero (x ∷ xs) = ground arith
take-min-length (suc n) (x ∷ xs) =
    let e : min (suc n) (suc (length xs)) ≡ suc (min n (length xs)) = omega arith in
    rw e (ap (λ l. x ∷ l) (take-min-length n xs))

-- A round cuts `size` bytes off what is left.
slice-drop :
    (bytes : Bytes) (i size : ℕ)
    → i < length bytes
    → slice bytes i (min (i + size) (length bytes)) ≡ take size (drop i bytes)
slice-drop bytes i size h =
    let e : min (i + size) (length bytes) - i ≡ min size (length (drop i bytes)) =
      omega (arith, length-drop i bytes) in
    rw e (take-min-length size (drop i bytes))

chunks_from_more :
    (fuel size i : ℕ) (bytes : Bytes)
    → i < length bytes
    → chunks_from (suc fuel) size i bytes
      ≡ take size (drop i bytes) ∷ chunks_from fuel size (i + size) bytes
unfolding chunks_from
chunks_from_more fuel size i bytes h =
    rw (lt→ltb i (length bytes) h, chunks_from)
      (ap (λ c. c ∷ chunks_from fuel size (i + size) bytes) (slice-drop bytes i size h))

chunks_from_done :
    (fuel size i : ℕ) (bytes : Bytes) → length bytes ≤ i → chunks_from fuel size i bytes ≡ []
unfolding chunks_from
chunks_from_done zero size i bytes h = refl
chunks_from_done (suc fuel) size i bytes h = rw (le→ltb i (length bytes) h, chunks_from)

chunks_from-concat :
    (fuel size i : ℕ) (bytes : Bytes)
    → 0 < size
    → length bytes ≤ fuel + i
    → concat (chunks_from fuel size i bytes) ≡ drop i bytes
chunks_from-concat zero size i bytes p h =
    rw (chunks_from_done zero size i bytes (omega arith)) (sym (drop-length bytes i (omega arith)))
chunks_from-concat (suc fuel) size i bytes p h = elim (lt-cases i (length bytes)) [
  | inl more ↦
      rw
        (
          chunks_from_more fuel size i bytes more,
          chunks_from-concat fuel size (i + size) bytes p (omega arith),
          ← drop-drop i size bytes,
        )
        (take-append-drop size (drop i bytes))
  | inr done ↦ rw (chunks_from_done (suc fuel) size i bytes done) (sym (drop-length bytes i done))
]

-- One round takes `size` off `n`.
rounds-suc :
    (n size : ℕ) → 0 < size → 0 < n → (n + size - 1) / size ≡ suc ((n - size + size - 1) / size)
rounds-suc n size p q = grind arith

-- How many rounds are left.
length-chunks_from :
    (fuel size i : ℕ) (bytes : Bytes)
    → 0 < size
    → length bytes ≤ fuel + i
    → length (chunks_from fuel size i bytes) ≡ (length bytes - i + size - 1) / size
length-chunks_from zero size i bytes p h =
    rw (chunks_from_done zero size i bytes (omega arith)) (grind arith)
length-chunks_from (suc fuel) size i bytes p h = elim (lt-cases i (length bytes)) [
  | inl more ↦
      let e : length bytes - (i + size) ≡ length bytes - i - size = omega arith in
      rw (chunks_from_more fuel size i bytes more) (
        ap suc (length-chunks_from fuel size (i + size) bytes p (omega arith))
        ∙ (rw e (sym (rounds-suc (length bytes - i) size p (omega arith)))))
  | inr done ↦ rw (chunks_from_done (suc fuel) size i bytes done) (grind arith)
]

assemble_from-concat :
    (chunks : List Bytes) (bytes : Bytes) → assemble_from bytes chunks ≡ bytes ++ concat chunks
unfolding assemble_from
assemble_from-concat [] bytes = sym (append-nil bytes)
assemble_from-concat (c ∷ cs) bytes =
    assemble_from-concat cs (bytes ++ c) ∙ append_assoc bytes c (concat cs)

-- Reassembling the chunks gives the data back.
pub assemble_chunks-chunk_data : (bytes : Bytes) → assemble_chunks (chunk_data bytes) ≡ bytes
unfolding assemble_chunks chunk_data
assemble_chunks-chunk_data [] = assemble_from-concat [] []
assemble_chunks-chunk_data (b ∷ bytes) =
    assemble_from-concat (chunks_from (length (b ∷ bytes)) chunk_size 0 (b ∷ bytes)) []
    ∙ chunks_from-concat (length (b ∷ bytes)) chunk_size 0 (b ∷ bytes) (omega arith) (omega arith)

-- `chunk_count` is the number of chunks, for data of less than 2^63 bytes.
pub length-chunk_data :
    (bytes : Bytes) → length bytes < 2 ^ 63 → length (chunk_data bytes) ≡ chunk_count (length bytes)
unfolding chunk_count chunk_data
length-chunk_data [] h = refl
length-chunk_data (b ∷ bytes) h =
    length-chunks_from (length (b ∷ bytes)) chunk_size 0 (b ∷ bytes) (omega arith) (omega arith)
    ∙ ground arith

-- Every chunk but the last has `size` bytes, and the last has at least one and at most `size`.
abbrev pub IsChunked : ℕ → List Bytes → Type 0
IsChunked size [] = Unit
IsChunked size (c ∷ []) = (0 < length c) × (length c ≤ size)
IsChunked size (c ∷ d ∷ r) = (length c ≡ size) × IsChunked size (d ∷ r)

IsChunked-cons :
    (size : ℕ) (c : Bytes) (r : List Bytes)
    → 0 < size
    → length c ≡ size
    → IsChunked size r
    → IsChunked size (c ∷ r)
IsChunked-cons size c [] p e h = (omega arith, omega arith)
IsChunked-cons size c (d ∷ r) p e h = (e, h)

length-round :
    (size i : ℕ) (bytes : Bytes) → length (take size (drop i bytes)) ≡ min size (length bytes - i)
length-round size i bytes = rw (length-take size (drop i bytes), length-drop i bytes)

chunks_from-IsChunked :
    (fuel size i : ℕ) (bytes : Bytes)
    → 0 < size
    → length bytes ≤ fuel + i
    → IsChunked size (chunks_from fuel size i bytes)
chunks_from-IsChunked zero size i bytes p h =
    rw (chunks_from_done zero size i bytes (omega arith)) tt
chunks_from-IsChunked (suc fuel) size i bytes p h = elim (lt-cases i (length bytes)) [
  | inl more ↦
      rw (chunks_from_more fuel size i bytes more) (elim (lt-cases (i + size) (length bytes)) [
        | inl again ↦
            IsChunked-cons size (take size (drop i bytes)) (chunks_from fuel size (i + size) bytes)
              p (omega (arith, length-round size i bytes))
              (chunks_from-IsChunked fuel size (i + size) bytes p (omega arith))
        | inr last ↦
            rw (chunks_from_done fuel size (i + size) bytes last)
              (omega (arith, length-round size i bytes))
      ])
  | inr done ↦ rw (chunks_from_done (suc fuel) size i bytes done) tt
]

-- The chunks of `chunk_data` are full but for the last, which is not empty.
pub chunk_data-IsChunked : (bytes : Bytes) → IsChunked chunk_size (chunk_data bytes)
unfolding chunk_data
chunk_data-IsChunked [] = tt
chunk_data-IsChunked (b ∷ bytes) =
    chunks_from-IsChunked (length (b ∷ bytes)) chunk_size 0 (b ∷ bytes) (omega arith) (omega arith)
