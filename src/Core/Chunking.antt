-- ===== src/Core/Chunking.antt =====
-- core/src/chunking.rs: data is cut into chunks and put together again.
pub mod Laws
use dest.Base.{
  ℕ, zero, suc, ◌+◌, ◌-◌, ◌/◌, ◌%◌, ◌^◌, true, false, List, [], ◌∷◌, ◌++◌, map, length, take, drop,
  min, ltb, ◌==◌, if◌then◌else◌,
}
use dest.Core.Extern.{Bytes, Blake3}
use dest.Core.Types.{ChunkId, chunk_size, new}

-- `data[start..end]`
abbrev pub slice : Bytes → ℕ → ℕ → Bytes
slice bytes start end = take (end - start) (drop start bytes)

-- The loop `for i in (0..data.len()).step_by(size)`, from `i` on.
unfoldable pub chunks_from : ℕ → ℕ → ℕ → Bytes → List Bytes
chunks_from zero size i bytes = []
chunks_from (suc fuel) size i bytes = elim (ltb i (length bytes)) [
  | true ↦ slice bytes i (min (i + size) (length bytes)) ∷ chunks_from fuel size (i + size) bytes
  | false ↦ []
]

-- Each round moves `i` on by at least one, so the length is fuel enough.
unfoldable pub chunk_data : Bytes → List Bytes
chunk_data [] = []
chunk_data (b ∷ bytes) = chunks_from (length (b ∷ bytes)) chunk_size 0 (b ∷ bytes)

-- `data.extend_from_slice(chunk)` for each chunk
pub assemble_from : Bytes → List Bytes → Bytes
assemble_from bytes [] = bytes
assemble_from bytes (chunk ∷ chunks) = assemble_from (bytes ++ chunk) chunks

pub assemble_chunks : List Bytes → Bytes
assemble_chunks chunks = assemble_from [] chunks

-- In 64-bit arithmetic.
pub chunk_count : ℕ → ℕ
chunk_count data_len =
    if data_len == 0
    then 0
    else ((data_len + chunk_size) % 2 ^ 64 + 2 ^ 64 - 1) % 2 ^ 64 / chunk_size

unfoldable pub generate_chunk_ids : ⦃b3 : Blake3⦄ → List Bytes → List ChunkId
generate_chunk_ids chunks = map (λ c. new c) chunks
