-- ===== src/P2p/Challenge.antt =====
-- p2p/src/challenge.rs: `ChallengeGenerator`.
use dest.Base.{
  ℕ, min, ◌<◌, ◌≡◌, ◌↔◌, Bool, true, false, List, [], ◌∷◌, length, ◌==◌, not, if◌then◌else◌, arith,
}
use dest.Core.Challenge.{
  Sampler, member, is_distinct, generate_challenge, generate_challenge-indices,
}
use dest.Core.Padding.{Rng}
use dest.Core.Types.{ChunkId, StorageChallenge, StorageProof, bytes_eq, bytes_eq_iff}

-- `ChallengeGenerator::generate`, at the Unix time `now`.
abbrev pub generate : ⦃s : Sampler⦄ ⦃rng : Rng⦄ → ℕ → ChunkId → ℕ → ℕ → StorageChallenge
generate now chunk_id num_blocks challenge_count =
    generate_challenge now chunk_id num_blocks challenge_count

-- The loop over the indices; the lists have one length.
pub same_indices : List ℕ → List ℕ → Bool
same_indices [] _ = true
same_indices (p ∷ ps) [] = false
same_indices (p ∷ ps) (c ∷ cs) = if p == c then same_indices ps cs else false

unfoldable pub verify_proof : StorageChallenge → StorageProof → Bool
verify_proof challenge p =
    if not (bytes_eq p.chunk_id challenge.chunk_id)
    then false
    else if not (length p.leaf_indices == length challenge.leaf_indices)
    then false
    else same_indices p.leaf_indices challenge.leaf_indices

same_indices_iff :
    (ps cs : List ℕ) → length ps ≡ length cs → (same_indices ps cs ≡ true) ↔ (ps ≡ cs)
unfolding same_indices
same_indices_iff [] [] h = ground arith
same_indices_iff [] (c ∷ cs) h = ground arith
same_indices_iff (p ∷ ps) [] h = ground arith
same_indices_iff (p ∷ ps) (c ∷ cs) h = ground (arith, same_indices_iff ps cs)

-- A response is accepted exactly if it names the chunk and the leaf indices of the challenge: its
-- leaves, its Merkle paths and its root are not looked at.
verify_proof_iff :
    (challenge : StorageChallenge) (p : StorageProof)
    → (verify_proof challenge p ≡ true)
      ↔ ((p.chunk_id ≡ challenge.chunk_id) × (p.leaf_indices ≡ challenge.leaf_indices))
unfolding verify_proof
verify_proof_iff challenge p = ground (
  arith,
  bytes_eq_iff p.chunk_id challenge.chunk_id,
  same_indices_iff p.leaf_indices challenge.leaf_indices,
)

-- A challenge for one or more leaves asks for as many as were wanted, or for every leaf where there are fewer, each of them a leaf and none twice; and a response is accepted exactly if it names the chunk and these very indices, whatever its leaves, its Merkle paths and its root are.
pub verify_proof-generate :
    ⦃s : Sampler⦄ ⦃rng : Rng⦄
    → (now : ℕ) (chunk_id : ChunkId) (num_blocks challenge_count : ℕ) (p : StorageProof)
    → 0 < num_blocks
    → let challenge = generate now chunk_id num_blocks challenge_count in
      (length challenge.leaf_indices ≡ min challenge_count num_blocks)
      × ((i : ℕ) → member i challenge.leaf_indices ≡ true → i < num_blocks)
      × (is_distinct challenge.leaf_indices ≡ true)
      × ((verify_proof challenge p ≡ true)
          ↔ ((p.chunk_id ≡ chunk_id) × (p.leaf_indices ≡ challenge.leaf_indices)))
unfolding generate_challenge
verify_proof-generate now chunk_id num_blocks challenge_count p h =
    let (count, known, once) =
      generate_challenge-indices now chunk_id num_blocks challenge_count h in
    (count, known, once, verify_proof_iff (generate now chunk_id num_blocks challenge_count) p)
