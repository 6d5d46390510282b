-- ===== src/Core/Tests.antt =====
-- The theorems on core/src at small inputs, and the interfaces of its crates at concrete functions.
pub mod Codec
use dest.Base.{
  ℕ, ◌≤◌, All, zero, suc, ◌+◌, ◌-◌, ◌*◌, ◌%◌, ◌≡◌, refl, true, some, List, [], ◌∷◌, ◌++◌, map,
  length, drop, replicate, arith,
}
use dest.Core.Extern.{Bytes, Blake3, Hex}
use dest.Core.Types.{chunk_size, bytes_eq, decode32}
use dest.Core.Merkle.{
  MerkleTree, MerkleProof, MerkleProofNode, from_hashes, from_chunks, proof, climb_all,
  verify_proof,
}
use dest.Core.Merkle.Build.{IsTree, from_hashes-IsTree}
use dest.Core.Merkle.Proof.{root_node}
use dest.Core.Merkle.Accept.{verify_proof-path, verify_proof-proof}
use dest.Core.Merkle.Binding.{Collides, verify_proof-Collides}
use dest.Core.Erasure.{encode, chunks_exact, reconstruct}
use dest.Core.Erasure.Slots.{IsShardOf, Distinct}
use dest.Core.Erasure.Recovery.{reconstruct-encode}
use dest.Core.Tests.Codec.{copies, encode_copies, copier}
use dest.Core.Padding.{Rng, pad_with_length_header, unpad_with_length_header}
use dest.Core.Padding.Roundtrip.{unpad-pad_random}

-- A checksum of the bytes, filled up to 32 of them.
sum_bytes : Bytes → ℕ
sum_bytes [] = 7
sum_bytes (b ∷ bs) = (b + 3 * sum_bytes bs) % 251

instance abbrev blake3 : Blake3
blake3 = record { hash = λ b. sum_bytes b ∷ replicate 31 0; length-hash = λ b. refl }

instance abbrev hex : Hex
hex = record { encode = λ b. b; decode = λ t. some t; decode-encode = λ b. refl }

zeros : ℕ → Bytes
zeros zero = []
zeros (suc n) = 0 ∷ zeros n

length-zeros : (n : ℕ) → length (zeros n) ≡ n
unfolding zeros
length-zeros zero = refl
length-zeros (suc n) = omega (arith, length-zeros n)

instance abbrev rng : Rng
rng = record { fill_bytes = zeros; length-fill_bytes = length-zeros }

abbrev three : List Bytes
three = (1 ∷ []) ∷ (2 ∷ 3 ∷ []) ∷ [] ∷ []

from_hashes-IsTree_example :
    (t : MerkleTree) × (from_hashes (map blake3.hash three) ≡ some t)
    × IsTree (map blake3.hash three) t
from_hashes-IsTree_example =
    from_hashes-IsTree (blake3.hash (1 ∷ [])) (map blake3.hash ((2 ∷ 3 ∷ []) ∷ [] ∷ []))

verify_proof-path_example :
    (t : MerkleTree) × (p : MerkleProof) × (path : List MerkleProofNode) × (from_chunks three
      ≡ some t)
    × (proof t 2 ≡ some (some p))
    × (p.siblings ≡ path ++ root_node t.root ∷ [])
    × (verify_proof (record p { siblings = path }) ≡ true)
verify_proof-path_example = verify_proof-path three 2 refl

verify_proof-proof_example :
    (t : MerkleTree) × (p : MerkleProof) × (from_chunks three ≡ some t)
    × (proof t 1 ≡ some (some p))
    × (verify_proof p ≡ bytes_eq (blake3.hash (t.root ++ t.root)) t.root)
verify_proof-proof_example = verify_proof-proof three 1 refl

-- Two leaves that differ, and one checksum for each with the sibling.
abbrev left_leaf : Bytes
left_leaf = 3 ∷ replicate 31 0

abbrev right_leaf : Bytes
right_leaf = 0 ∷ 1 ∷ replicate 30 0

abbrev one_sibling : MerkleProofNode
one_sibling = record { hash = replicate 32 5; is_right = true }

abbrev proof_of : Bytes → MerkleProof
proof_of leaf = record {
  leaf_index = 0;
  leaf_hash = leaf;
  siblings = one_sibling ∷ [];
  root = 105 ∷ replicate 31 0;
}

verify_proof-left : verify_proof (proof_of left_leaf) ≡ true
unfolding verify_proof climb_all decode32 bytes_eq sum_bytes
verify_proof-left = refl

verify_proof-right : verify_proof (proof_of right_leaf) ≡ true
unfolding verify_proof climb_all decode32 bytes_eq sum_bytes
verify_proof-right = refl

decode32-left : decode32 left_leaf ≡ some left_leaf
unfolding decode32
decode32-left = refl

decode32-right : decode32 right_leaf ≡ some right_leaf
unfolding decode32
decode32-right = refl

verify_proof-Collides_example : Collides (one_sibling ∷ []) left_leaf right_leaf
verify_proof-Collides_example =
    verify_proof-Collides (proof_of left_leaf) (proof_of right_leaf) refl refl decode32-left
      decode32-right (ground arith) verify_proof-left verify_proof-right

unpad-pad_random_example :
    (block : Bytes) × (pad_with_length_header (4 ∷ 5 ∷ []) ≡ some block)
    × (unpad_with_length_header block ≡ some (drop (chunk_size - 4) (zeros (chunk_size - 2))))
unpad-pad_random_example = unpad-pad_random (4 ∷ 5 ∷ []) (omega arith)

abbrev word : Bytes
word = 1 ∷ 2 ∷ 3 ∷ 4 ∷ []

abbrev word_shards : List Bytes
word_shards = copies (1 ∷ 2 ∷ []) (3 ∷ 4 ∷ []) (0 ∷ 0 ∷ [])

word-encode : encode word ≡ some word_shards
unfolding encode chunks_exact encode_copies
word-encode = refl

-- A parity shard and two of the data shards, out of order.
abbrev some_shards : List (ℕ × Bytes)
some_shards = (4, 1 ∷ 2 ∷ 3 ∷ 4 ∷ 0 ∷ 0 ∷ []) ∷ (1, 3 ∷ 4 ∷ []) ∷ (0, 1 ∷ 2 ∷ []) ∷ []

some_shards-mem : All (IsShardOf word_shards) some_shards
some_shards-mem = (refl, (refl, (refl, tt)))

some_shards-Distinct : Distinct some_shards
some_shards-Distinct =
    ((λ e. ground arith, (λ e. ground arith, tt)), ((λ e. ground arith, tt), (tt, tt)))

reconstruct-encode_example :
    (zeros : ℕ) × (zeros ≤ 2) × (reconstruct some_shards ≡ some (word ++ replicate zeros 0))
reconstruct-encode_example =
    reconstruct-encode word word_shards some_shards (omega arith) word-encode some_shards-mem
      some_shards-Distinct (omega arith)
