-- ===== src/Core/Erasure/Shards.antt =====
-- core/src/erasure.rs: how `encode` cuts the padded data into shards.
use dest.Base.{
  ℕ, zero, suc, ◌-◌, ◌*◌, ◌/◌, ◌≤◌, ◌<◌, ◌≡◌, refl, sym, ap, ◌∙◌, List, [], ◌∷◌, ◌++◌, length, take,
  drop, replicate, concat, lt→ltb, le→ltb, All, arith, length-append, length-replicate, length-take,
  length-drop, drop-length, take-append-drop,
}
use mathlib.Core.Path.{subst}
use dest.Core.Extern.{Bytes}
use dest.Core.Erasure.{IsSized, chunks_exact, total_len, padded, shard_size, data_shards}

chunks_exact-suc :
    (fuel size : ℕ) (bytes : Bytes)
    → size ≤ length bytes
    → chunks_exact (suc fuel) size bytes
      ≡ take size bytes ∷ chunks_exact fuel size (drop size bytes)
unfolding chunks_exact
chunks_exact-suc fuel size bytes h = rw (le→ltb (length bytes) size h, chunks_exact) refl

chunks_exact-short :
    (fuel size : ℕ) (bytes : Bytes) → length bytes < size → chunks_exact fuel size bytes ≡ []
unfolding chunks_exact
chunks_exact-short zero size bytes h = refl
chunks_exact-short (suc fuel) size bytes h = rw (lt→ltb (length bytes) size h, chunks_exact) refl

-- Shards of one size that join to the data.
pub record IsSplit (size : ℕ) (bytes : Bytes) (shards : List Bytes) : Type 0 where
  pub count : length shards ≡ 3
  pub sized : All (IsSized size) shards
  pub joined : concat shards ≡ bytes

take-IsSized : (size : ℕ) (bytes : Bytes) → size ≤ length bytes → IsSized size (take size bytes)
take-IsSized size bytes h = omega (arith, length-take size bytes)

three-IsSplit :
    (fuel size : ℕ) (bytes : Bytes)
    → 0 < size
    → length bytes ≡ 3 * size
    → IsSplit size bytes (chunks_exact (suc (suc (suc fuel))) size bytes)
three-IsSplit fuel size bytes some_size h =
    let b = drop size bytes in
    let c = drop size b in
    let len_b = length-drop size bytes in
    let len_c = length-drop size b in
    let len_d = length-drop size c in
    let e1 = chunks_exact-suc (suc (suc fuel)) size bytes (omega arith) in
    let e2 = chunks_exact-suc (suc fuel) size b (omega (arith, len_b)) in
    let e3 = chunks_exact-suc fuel size c (omega (arith, len_b, len_c)) in
    let e4 = chunks_exact-short fuel size (drop size c) (omega (arith, len_b, len_c, len_d)) in
    let all : chunks_exact (suc (suc (suc fuel))) size bytes
        ≡ take size bytes ∷ take size b ∷ take size c ∷ [] =
      e1
      ∙ ap (λ r. take size bytes ∷ r)
          (e2 ∙ ap (λ r. take size b ∷ r) (e3 ∙ ap (λ r. take size c ∷ r) e4)) in
    let end = drop-length c size (omega (arith, len_b, len_c)) in
    let j3 : take size c ++ [] ≡ c =
      ap (λ r. take size c ++ r) (sym end) ∙ take-append-drop size c in
    let j2 : take size b ++ (take size c ++ []) ≡ b =
      ap (λ r. take size b ++ r) j3 ∙ take-append-drop size b in
    let j1 : take size bytes ++ (take size b ++ (take size c ++ [])) ≡ bytes =
      ap (λ r. take size bytes ++ r) j2 ∙ take-append-drop size bytes in
    rw all (record {
      count = refl;
      sized = (
        take-IsSized size bytes (omega arith),
        (
          take-IsSized size b (omega (arith, len_b)),
          (take-IsSized size c (omega (arith, len_b, len_c)), tt),
        ),
      );
      joined = j1;
    })

-- With the fuel of the data's length.
chunks_exact-IsSplit :
    (size : ℕ) (bytes : Bytes)
    → 0 < size
    → length bytes ≡ 3 * size
    → IsSplit size bytes (chunks_exact (length bytes) size bytes)
chunks_exact-IsSplit size bytes some_size h =
    let e : length bytes ≡ suc (suc (suc (length bytes - 3))) = omega arith in
    subst (λ fuel. IsSplit size bytes (chunks_exact fuel size bytes)) (sym e)
      (three-IsSplit (length bytes - 3) size bytes some_size h)

total_len-bounds :
    (n : ℕ)
    → 0 < n
    → (n ≤ total_len n) × (total_len n / 3 * 3 ≡ total_len n) × (0 < total_len n / 3)
total_len-bounds n h = grind arith

pub total_len-rest : (n : ℕ) → total_len n - n ≤ 2
total_len-rest n = grind arith

length-padded : (bytes : Bytes) → 0 < length bytes → length (padded bytes) ≡ 3 * shard_size bytes
length-padded bytes h =
    let n = length bytes in
    let (fits, whole, _) = total_len-bounds n h in
    omega (
      arith,
      fits,
      whole,
      length-append bytes (replicate (total_len n - n) 0),
      length-replicate {A = ℕ} (total_len n - n) 0,
    )

-- The data shards of non-empty data.
pub data_shards-IsSplit :
    (bytes : Bytes)
    → 0 < length bytes
    → IsSplit (shard_size bytes) (padded bytes) (data_shards bytes)
data_shards-IsSplit bytes h =
    chunks_exact-IsSplit (shard_size bytes) (padded bytes) (total_len-bounds (length bytes) h).2
      (length-padded bytes h)

pub shard_size-pos : (bytes : Bytes) → 0 < length bytes → 0 < shard_size bytes
shard_size-pos bytes h = (total_len-bounds (length bytes) h).2

pub replicate-IsSized : (k n : ℕ) → All (IsSized n) (replicate k (replicate n 0))
replicate-IsSized zero n = tt
replicate-IsSized (suc k) n = (length-replicate n 0, replicate-IsSized k n)
