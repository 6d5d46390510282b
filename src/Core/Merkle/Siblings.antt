-- ===== src/Core/Merkle/Siblings.antt =====
-- core/src/merkle.rs, `proof`: the sibling of a hash, and the parent of the pair in the next level.
use dest.Base.{
  ℕ, zero, suc, ◌/◌, ◌%◌, ◌≡◌, refl, ◌∙◌, some, List, [], ◌∷◌, ◌++◌, length, get_elem?, All,
  All-get_elem?, if◌then◌else◌, ◌==◌, arith,
}
use dest.Core.Extern.{Blake3}
use dest.Core.Merkle.{Hash, next_level, sibling, sibling_index}

-- Hashes have 32 bytes.
abbrev pub IsSized : List Hash → Type 0
IsSized hs = All (λ (h : Hash). length h ≡ 32) hs

sibling_index-add_two : (i : ℕ) → sibling_index (suc (suc i)) ≡ suc (suc (sibling_index i))
sibling_index-add_two i = ground arith

sibling-add_two :
    (x y : Hash) (r : List Hash) (i : ℕ) → sibling (x ∷ y ∷ r) (suc (suc i)) ≡ sibling r i
sibling-add_two x y r i = rw sibling_index-add_two (ground arith)

-- A sibling is one of the layer's hashes.
pub sibling-IsSized :
    (layer : List Hash) (i : ℕ) (s : Hash)
    → IsSized layer
    → sibling layer i ≡ some s
    → length s ≡ 32
sibling-IsSized layer i s sized e = ground (
  arith,
  All-get_elem? (λ (h : Hash). length h ≡ 32) layer (sibling_index i) s sized,
  All-get_elem? (λ (h : Hash). length h ≡ 32) layer i s sized,
)

module _ ⦃b3 : Blake3⦄ where
  pub next_level-IsSized : (layer : List Hash) → IsSized (next_level layer)
  unfolding next_level
  next_level-IsSized [] = tt
  next_level-IsSized (x ∷ []) = (b3.length-hash _, tt)
  next_level-IsSized (x ∷ y ∷ r) = (b3.length-hash _, next_level-IsSized r)

  -- The parent of a hash and its sibling.
  abbrev pub parent : ℕ → Hash → Hash → Hash
  parent i x s = if i % 2 == 0 then b3.hash (x ++ s) else b3.hash (s ++ x)

  -- In the next level stands, at half the index, the hash of the pair.
  pub get_elem?-next_level :
      (layer : List Hash) (i : ℕ) {x : Hash}
      → get_elem? layer i ≡ some x
      → (s : Hash) × (sibling layer i ≡ some s)
        × (get_elem? (next_level layer) (i / 2) ≡ some (parent i x s))
  unfolding next_level
  get_elem?-next_level [] i e = cc
  get_elem?-next_level (x ∷ []) zero e = (x, refl, ground arith)
  get_elem?-next_level (x ∷ []) (suc i) e = cc
  get_elem?-next_level (x ∷ y ∷ r) zero e = (y, ground arith, ground arith)
  get_elem?-next_level (x ∷ y ∷ r) (suc zero) e = (x, ground arith, ground arith)
  get_elem?-next_level (x ∷ y ∷ r) (suc (suc i)) e =
      let (s, found, up) = get_elem?-next_level r i e in
      let half : suc (suc i) / 2 ≡ suc (i / 2) = omega arith in
      let parity : suc (suc i) % 2 ≡ i % 2 = omega arith in
      (s, sibling-add_two x y r i ∙ found, rw (half, parity) up)
