-- ===== src/Core/Merkle/Build.antt =====
-- core/src/merkle.rs, `from_hashes`: the loop ends, and its layers form a tower.
use dest.Base.{
  ℕ, zero, suc, ◌+◌, ◌/◌, ◌≤◌, ◌<◌, ◌≡◌, refl, ◌∙◌, some, List, [], ◌∷◌, ◌++◌, length, lt→ltb,
  arith,
}
use mathlib.Core.List.{append_assoc, append-nil}
use dest.Core.Extern.{Blake3}
use dest.Core.Merkle.{Hash, MerkleTree, next_level, build, from_hashes}

module _ ⦃b3 : Blake3⦄ where
  -- The layers above `current`: each is the level over the one below, and the last is the root alone.
  abbrev pub IsTower : Hash → List Hash → List (List Hash) → Type 0
  IsTower root current [] = current ≡ root ∷ []
  IsTower root current (next ∷ above) =
      (1 < length current) × (next ≡ next_level current) × IsTower root next above

  pub length-next_level : (xs : List Hash) → length (next_level xs) ≡ (length xs + 1) / 2
  unfolding next_level
  length-next_level [] = omega arith
  length-next_level (x ∷ []) = omega arith
  length-next_level (x ∷ y ∷ r) = omega (arith, length-next_level r)

  -- A round, on a level of two hashes or more.
  build-suc :
      (fuel : ℕ) (layers : List (List Hash)) (current : List Hash)
      → 1 < length current
      → build (suc fuel) layers current
        ≡ build fuel (layers ++ next_level current ∷ []) (next_level current)
  unfolding build
  build-suc fuel layers current h = rw (lt→ltb 1 _ h, build)

  -- With fuel for every leaf the loop ends by its test, and has pushed a tower.
  build-IsTower :
      (fuel : ℕ) (layers : List (List Hash)) (current : List Hash)
      → 0 < length current
      → length current ≤ fuel
      → (root : Hash) × (above : List (List Hash)) × (build fuel layers current
          ≡ (layers ++ above, root ∷ []))
        × IsTower root current above
  unfolding build
  build-IsTower zero layers current p h = absurd (omega arith)
  build-IsTower (suc fuel) layers [] p h = absurd (omega arith)
  build-IsTower (suc fuel) layers (x ∷ []) p h = (x, [], rw append-nil, refl)
  build-IsTower (suc fuel) layers (x ∷ y ∷ r) p h =
      let next = next_level (x ∷ y ∷ r) in
      let (root, above, e, t) =
        build-IsTower fuel (layers ++ next ∷ []) next (omega (arith, length-next_level (x ∷ y ∷ r)))
          (omega (arith, length-next_level (x ∷ y ∷ r))) in
      (
        root,
        next ∷ above,
        build-suc fuel layers (x ∷ y ∷ r) (omega arith) ∙ (rw append_assoc at e),
        (omega arith, refl, t),
      )

  -- The layers of a tree over at least one leaf: the leaves, and a tower above them to the root.
  pub record IsTree (leaves : List Hash) (t : MerkleTree) : Type 0 where
    pub above : List (List Hash)
    pub leaves_eq : t.leaves ≡ leaves
    pub layers_eq : t.layers ≡ leaves ∷ above
    pub tower : IsTower t.root leaves above

  -- Over at least one leaf `from_hashes` does not panic: its loop ends, and the layers are the leaves
  -- and, each the level over the one below, those above them up to the root alone.
  pub from_hashes-IsTree :
      (l : Hash) (ls : List Hash)
      → (t : MerkleTree) × (from_hashes (l ∷ ls) ≡ some t) × IsTree (l ∷ ls) t
  unfolding from_hashes
  from_hashes-IsTree l ls =
      let (root, above, e, t) =
        build-IsTower (length (l ∷ ls)) ((l ∷ ls) ∷ []) (l ∷ ls) (omega arith) (omega arith) in
      (
        record { leaves = l ∷ ls; layers = (l ∷ ls) ∷ above; root = root },
        rw e,
        record { above = above; leaves_eq = refl; layers_eq = refl; tower = t },
      )
