-- ===== src/Core/Merkle/Proof.antt =====
-- core/src/merkle.rs, `proof` and `verify_proof`: the path of a leaf leads to the root, and `proof`
-- adds one sibling more.
use dest.Base.{
  ℕ, zero, suc, ◌/◌, ◌%◌, ◌≡◌, refl, sym, ◌∙◌, Bool, true, false, Option, none, some, List, [], ◌∷◌,
  ◌++◌, length, get_elem?, All-get_elem?, ◌==◌, arith, leb,
}
use mathlib.Core.Path.{subst}
use dest.Core.Extern.{Blake3, Hex}
use dest.Core.Types.{bytes_eq, bytes_eq_refl, decode32, decode32-encode}
use dest.Core.Merkle.{
  Hash, MerkleTree, MerkleProof, MerkleProofNode, siblings_from, proof, climb, climb_all, same_root,
  verify_proof,
}
use dest.Core.Merkle.Build.{IsTower, IsTree}
use dest.Core.Merkle.Siblings.{
  IsSized, parent, sibling-IsSized, next_level-IsSized, get_elem?-next_level,
}

-- The node that `proof` pushes for the top layer.
abbrev pub root_node : ⦃hx : Hex⦄ → Hash → MerkleProofNode
root_node ⦃hx⦄ root = record { hash = hx.encode root; is_right = true }

leb_of_get_elem? {ℓ} :
    {A : Type ℓ} (xs : List A) (i : ℕ) {x : A} → get_elem? xs i ≡ some x → leb (length xs) i ≡ false
leb_of_get_elem? [] i e = cc
leb_of_get_elem? (y ∷ ys) zero e = ground arith
leb_of_get_elem? (y ∷ ys) (suc i) e = ground (arith, leb_of_get_elem? ys i e)

module _ ⦃b3 : Blake3⦄ ⦃hx : Hex⦄ where
  -- The siblings of `x` are a path that climbs from it to the root, and then the root itself.
  abbrev pub Climbs : Hash → List (List Hash) → ℕ → Hash → Type 0
  Climbs root layers i x =
      (path : List MerkleProofNode) × (siblings_from layers i ≡ some (path ++ root_node root ∷ []))
      × (climb_all (some x) path ≡ some root)
      × (length root ≡ 32)

  top-Climbs :
      (root : Hash) (i : ℕ) (x : Hash)
      → length root ≡ 32
      → get_elem? (root ∷ []) i ≡ some x
      → Climbs root ((root ∷ []) ∷ []) i x
  unfolding siblings_from climb_all
  top-Climbs root zero x len e = ([], ground arith, sym e, len)
  top-Climbs root (suc i) x len e = cc

  climb_all-cons :
      (x s : Hash) (right : Bool) (path : List MerkleProofNode)
      → length s ≡ 32
      → climb_all (some x) (record { hash = hx.encode s; is_right = right } ∷ path)
        ≡ climb_all (climb x right (some s)) path
  unfolding climb_all
  climb_all-cons x s right path len = rw (decode32-encode s len, climb_all)

  pub tower-Climbs :
      (root : Hash) (layer : List Hash) (above : List (List Hash)) (i : ℕ) (x : Hash)
      → IsTower root layer above
      → IsSized layer
      → get_elem? layer i ≡ some x
      → Climbs root (layer ∷ above) i x
  unfolding siblings_from climb_all
  tower-Climbs root layer [] i x t sized e =
      subst (λ l. Climbs root (l ∷ []) i x) (sym t)
        (top-Climbs root i x (subst IsSized t sized).0 (rw t at e))
  tower-Climbs root layer (next ∷ above) i x t sized e =
      let (s, found, up) = get_elem?-next_level layer i e in
      let len = sibling-IsSized layer i s sized found in
      let (path, siblings, climbed, len_root) =
        tower-Climbs root next above (i / 2) (parent i x s) t.2
          (subst IsSized (sym t.1) (next_level-IsSized layer))
          (subst (λ l. get_elem? l (i / 2) ≡ some (parent i x s)) (sym t.1) up) in
      (
        record { hash = hx.encode s; is_right = i % 2 == 0 } ∷ path,
        rw (found, siblings),
        climb_all-cons x s (i % 2 == 0) path len ∙ climbed,
        len_root,
      )

  climb_all-append :
      (p q : List MerkleProofNode) (c : Option Hash)
      → climb_all c (p ++ q) ≡ climb_all (climb_all c p) q
  unfolding climb_all
  climb_all-append [] q none = refl
  climb_all-append (s ∷ p) [] none = refl
  climb_all-append (s ∷ p) (r ∷ q) none = refl
  climb_all-append [] q (some h) = refl
  climb_all-append (s ∷ p) q (some h) = climb_all-append p q (climb h s.is_right (decode32 s.hash))

  -- A proof with the siblings `path` for the leaf `x`, against the root.
  abbrev proof_along : ℕ → Hash → Hash → List MerkleProofNode → MerkleProof
  proof_along i x root path = record {
    leaf_index = i;
    leaf_hash = hx.encode x;
    siblings = path;
    root = hx.encode root;
  }

  verify_proof-along :
      (i : ℕ) (x root : Hash) (path : List MerkleProofNode)
      → length x ≡ 32
      → length root ≡ 32
      → verify_proof (proof_along i x root path) ≡ same_root (climb_all (some x) path) (some root)
  unfolding verify_proof
  verify_proof-along i x root path lx lr = rw (decode32-encode x lx, decode32-encode root lr)

  -- What `proof` returns for the leaf `x`: a path that verifies by itself, with the root's node at its end.
  pub record IsProofOf (root : Hash) (i : ℕ) (x : Hash) (p : MerkleProof) : Type 0 where
    pub path : List MerkleProofNode
    pub made : p ≡ proof_along i x root (path ++ root_node root ∷ [])
    pub path_verifies : verify_proof (proof_along i x root path) ≡ true
    pub verifies : verify_proof p ≡ bytes_eq (b3.hash (root ++ root)) root

  top_verifies :
      (root : Hash)
      → length root ≡ 32
      → same_root (climb_all (some root) (root_node root ∷ [])) (some root)
        ≡ bytes_eq (b3.hash (root ++ root)) root
  unfolding climb_all
  top_verifies root lr = rw (decode32-encode root lr, climb_all)

  Climbs-IsProofOf :
      (root : Hash) (layers : List (List Hash)) (i : ℕ) (x : Hash)
      → length x ≡ 32
      → (c : Climbs root layers i x)
      → IsProofOf root i x (proof_along i x root (c.0 ++ root_node root ∷ []))
  Climbs-IsProofOf root layers i x lx (path, found, climbed, lr) = record {
    path = path;
    made = refl;
    path_verifies = verify_proof-along i x root path lx lr ∙ (rw climbed (bytes_eq_refl root));
    verifies =
        verify_proof-along i x root (path ++ root_node root ∷ []) lx lr
        ∙ (rw (climb_all-append path (root_node root ∷ []) (some x), climbed)
            (top_verifies root lr));
  }

  -- `proof` does not panic on a tree that `from_hashes` built.
  pub proof-tree :
      (leaves : List Hash) (t : MerkleTree) (i : ℕ) (x : Hash)
      → IsTree leaves t
      → IsSized leaves
      → get_elem? leaves i ≡ some x
      → (p : MerkleProof) × (proof t i ≡ some (some p)) × IsProofOf t.root i x p
  unfolding proof
  proof-tree leaves t i x tree sized e =
      let c = tower-Climbs t.root leaves tree.above i x tree.tower sized e in
      (
        proof_along i x t.root (c.0 ++ root_node t.root ∷ []),
        rw (tree.leaves_eq, tree.layers_eq, leb_of_get_elem? leaves i e, e, c.1),
        Climbs-IsProofOf t.root (leaves ∷ tree.above) i x
            (All-get_elem? (λ (h : Hash). length h ≡ 32) leaves i x sized e) c,
      )
