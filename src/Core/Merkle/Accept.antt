-- ===== src/Core/Merkle/Accept.antt =====
-- core/src/merkle.rs: what `verify_proof` says of the proofs that `proof` makes.
use dest.Base.{ℕ, zero, suc, ◌≡◌, true, some, List, [], ◌∷◌, ◌++◌, map, get_elem?}
use dest.Core.Extern.{Bytes, Blake3, Hex}
use dest.Core.Types.{bytes_eq}
use dest.Core.Merkle.{MerkleTree, MerkleProof, MerkleProofNode, from_chunks, proof, verify_proof}
use dest.Core.Merkle.Build.{from_hashes-IsTree}
use dest.Core.Merkle.Siblings.{IsSized}
use dest.Core.Merkle.Proof.{root_node, IsProofOf, proof-tree}

module _ ⦃b3 : Blake3⦄ where
  hashes-IsSized : (chunks : List Bytes) → IsSized (map b3.hash chunks)
  hashes-IsSized [] = tt
  hashes-IsSized (c ∷ cs) = (b3.length-hash c, hashes-IsSized cs)

  get_elem?-hashes :
      (chunks : List Bytes) (i : ℕ) {chunk : Bytes}
      → get_elem? chunks i ≡ some chunk
      → get_elem? (map b3.hash chunks) i ≡ some (b3.hash chunk)
  get_elem?-hashes [] i e = cc
  get_elem?-hashes (c ∷ cs) zero e = cc
  get_elem?-hashes (c ∷ cs) (suc i) e = get_elem?-hashes cs i e

module _ ⦃b3 : Blake3⦄ ⦃hx : Hex⦄ where
  proof-chunks :
      (chunks : List Bytes) (i : ℕ) {chunk : Bytes}
      → get_elem? chunks i ≡ some chunk
      → (t : MerkleTree) × (p : MerkleProof) × (from_chunks chunks ≡ some t)
        × (proof t i ≡ some (some p))
        × IsProofOf t.root i (b3.hash chunk) p
  unfolding from_chunks
  proof-chunks [] i e = cc
  proof-chunks (c ∷ cs) i {chunk} e =
      let leaves = map b3.hash (c ∷ cs) in
      let (t, built, tree) = from_hashes-IsTree (b3.hash c) (map b3.hash cs) in
      let (p, made, is_proof) =
        proof-tree leaves t i (b3.hash chunk) tree (hashes-IsSized (c ∷ cs))
          (get_elem?-hashes (c ∷ cs) i e) in
      (t, p, built, made, is_proof)

  -- For every chunk the tree is built and its proof is made without a panic, and the siblings of the
  -- proof are a path and then the root's own hash. With that last node taken off, `verify_proof`
  -- accepts the proof.
  pub verify_proof-path :
      (chunks : List Bytes) (i : ℕ) {chunk : Bytes}
      → get_elem? chunks i ≡ some chunk
      → (t : MerkleTree) × (p : MerkleProof) × (path : List MerkleProofNode) × (from_chunks chunks
          ≡ some t)
        × (proof t i ≡ some (some p))
        × (p.siblings ≡ path ++ root_node t.root ∷ [])
        × (verify_proof (record p { siblings = path }) ≡ true)
  verify_proof-path chunks i {chunk} e =
      let (t, p, built, made, is_proof) = proof-chunks chunks i e in
      (t, p, is_proof.path, built, made, rw is_proof.made, rw is_proof.made is_proof.path_verifies)

  -- For every chunk the proof that `proof` makes is accepted by `verify_proof` exactly when the hash
  -- of the root, twice, is the root again.
  pub verify_proof-proof :
      (chunks : List Bytes) (i : ℕ) {chunk : Bytes}
      → get_elem? chunks i ≡ some chunk
      → (t : MerkleTree) × (p : MerkleProof) × (from_chunks chunks ≡ some t)
        × (proof t i ≡ some (some p))
        × (verify_proof p ≡ bytes_eq (b3.hash (t.root ++ t.root)) t.root)
  verify_proof-proof chunks i {chunk} e =
      let (t, p, built, made, is_proof) = proof-chunks chunks i e in
      (t, p, built, made, is_proof.verifies)
