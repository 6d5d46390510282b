-- ===== src/Core/Erasure.antt =====
-- core/src/erasure.rs: data is spread over five shards, any three of which give it back. An error is
-- `none`.
pub mod Shards
pub mod Slots
pub mod Recovery
use dest.Base.{
  ℕ, zero, suc, ◌+◌, ◌-◌, ◌*◌, ◌/◌, ◌≤◌, ◌<◌, ◌≡◌, ◌⊎◌, true, false, Option, none, some, List, [],
  ◌∷◌, ◌++◌, length, take, drop, set, replicate, map, ltb, leb, if◌then◌else◌, All,
}
use dest.Core.Extern.{Bytes}
use dest.Core.Types.{rs_data_shards, rs_parity_shards, rs_total_shards}

abbrev pub present : List (Option Bytes) → ℕ
present [] = 0
present (none ∷ slots) = present slots
present (some s ∷ slots) = suc (present slots)

-- The slots hold some of the shards, each in its place.
abbrev pub IsPart : List Bytes → List (Option Bytes) → Type 0
IsPart [] [] = Unit
IsPart (s ∷ shards) (o ∷ slots) = ((o ≡ none) ⊎ (o ≡ some s)) × IsPart shards slots
IsPart _ _ = ⊥

abbrev pub IsSized : ℕ → Bytes → Type 0
IsSized n s = length s ≡ n

-- The crate `reed-solomon-erasure`, with what it promises of the codec for three data and two parity
-- shards: `encode` leaves the data shards as they are and fills in the parity shards, and
-- `reconstruct` fills in the missing ones where at least as many are there as there were data shards.
pub record ReedSolomon : Type 1 where
  pub Codec : Type 0
  pub new : ℕ → ℕ → Option Codec
  pub encode : Codec → List Bytes → Option (List Bytes)
  pub reconstruct : Codec → List (Option Bytes) → Option (List (Option Bytes))
  pub new-some : (c : Codec) × (new rs_data_shards rs_parity_shards ≡ some c)
  pub encode-some :
      (c : Codec) (n : ℕ) (shards blanks : List Bytes)
      → new rs_data_shards rs_parity_shards ≡ some c
      → 0 < n
      → length shards ≡ rs_data_shards
      → length blanks ≡ rs_parity_shards
      → All (IsSized n) (shards ++ blanks)
      → (parity : List Bytes) × (encode c (shards ++ blanks) ≡ some (shards ++ parity))
        × (length parity ≡ rs_parity_shards)
  pub reconstruct-some :
      (c : Codec) (n : ℕ) (blank shards : List Bytes) (slots : List (Option Bytes))
      → new rs_data_shards rs_parity_shards ≡ some c
      → 0 < n
      → All (IsSized n) blank
      → length blank ≡ rs_total_shards
      → encode c blank ≡ some shards
      → IsPart shards slots
      → rs_data_shards ≤ present slots
      → reconstruct c slots ≡ some (map some shards)

-- `chunks_exact(size)`; a last piece that is too short is left out.
unfoldable pub chunks_exact : ℕ → ℕ → Bytes → List Bytes
chunks_exact zero size bytes = []
chunks_exact (suc fuel) size bytes = elim (ltb (length bytes) size) [
  | true ↦ []
  | false ↦ take size bytes ∷ chunks_exact fuel size (drop size bytes)
]

abbrev pub total_len : ℕ → ℕ
total_len n = (n + rs_data_shards - 1) / rs_data_shards * rs_data_shards

abbrev pub padded : Bytes → Bytes
padded bytes = bytes ++ replicate (total_len (length bytes) - length bytes) 0

abbrev pub shard_size : Bytes → ℕ
shard_size bytes = total_len (length bytes) / rs_data_shards

abbrev pub data_shards : Bytes → List Bytes
data_shards bytes = chunks_exact (length (padded bytes)) (shard_size bytes) (padded bytes)

module _ ⦃rs : ReedSolomon⦄ where
  -- `encode`, with the codec that is made first.
  abbrev pub encode_with : Option rs.Codec → Bytes → Option (List Bytes)
  encode_with none bytes = none
  encode_with (some c) [] = some (replicate rs_total_shards [])
  encode_with (some c) (b ∷ bytes) =
      rs.encode c (
        data_shards (b ∷ bytes)
        ++ replicate rs_parity_shards (replicate (shard_size (b ∷ bytes)) 0))

  unfoldable pub encode : Bytes → Option (List Bytes)
  encode bytes = encode_with (rs.new rs_data_shards rs_parity_shards) bytes

  -- The loop that puts the shards into their places; `none` is an index out of range.
  pub place : List (ℕ × Bytes) → List (Option Bytes) → Option (List (Option Bytes))
  place [] slots = some slots
  place ((idx, shard) ∷ shard_data) slots =
      let rest = place shard_data (set slots idx (some shard)) in
      if leb rs_total_shards idx then none else rest

  -- The loop over the data shards.
  abbrev pub extend : List (Option Bytes) → Bytes
  extend [] = []
  extend (none ∷ slots) = extend slots
  extend (some s ∷ slots) = s ++ extend slots

  abbrev pub finish : Option (List (Option Bytes)) → Option Bytes
  finish none = none
  finish (some slots) = some (extend (take rs_data_shards slots))

  abbrev pub reconstruct_with : Option rs.Codec → Option (List (Option Bytes)) → Option Bytes
  reconstruct_with _ none = none
  reconstruct_with none (some slots) = none
  reconstruct_with (some c) (some slots) = finish (rs.reconstruct c slots)

  -- The test for no shards at all comes after that for too few, and is never reached.
  pub reconstruct : List (ℕ × Bytes) → Option Bytes
  reconstruct shard_data =
      if ltb (length shard_data) rs_data_shards
      then none
      else reconstruct_with (rs.new rs_data_shards rs_parity_shards)
          (place shard_data (replicate rs_total_shards none))
