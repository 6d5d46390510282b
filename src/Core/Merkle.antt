-- ===== src/Core/Merkle.antt =====
-- core/src/merkle.rs: `MerkleTree`, its proofs and their verification.
use dest.Base.{
  ℕ, zero, suc, ◌+◌, ◌-◌, ◌/◌, ◌%◌, Bool, true, false, Option, none, some, List, [], ◌∷◌, ◌++◌, map,
  length, get_elem?, if◌then◌else◌, ◌==◌, ltb, leb,
}
pub mod Build
pub mod Siblings
pub mod Proof
pub mod Accept
pub mod Binding
use dest.Core.Extern.{Bytes, Text, Blake3, Hex}
use dest.Core.Types.{decode32, bytes_eq}

abbrev pub Hash : Type 0
Hash = Bytes

pub record MerkleTree : Type 0 where
  pub leaves : List Hash
  pub layers : List (List Hash)
  pub root : Hash

pub record MerkleProofNode : Type 0 where
  pub hash : Text
  pub is_right : Bool

pub record MerkleProof : Type 0 where
  pub leaf_index : ℕ
  pub leaf_hash : Text
  pub siblings : List MerkleProofNode
  pub root : Text

module _ ⦃b3 : Blake3⦄ where
  -- The `for` loop of `from_hashes`: pairs are hashed together, an odd last hash with itself.
  unfoldable pub next_level : List Hash → List Hash
  next_level [] = []
  next_level (x ∷ []) = b3.hash (x ++ x) ∷ []
  next_level (x ∷ y ∷ r) = b3.hash (x ++ y) ∷ next_level r

  -- The `while` loop of `from_hashes`, on the layers so far and the current one.
  unfoldable pub build : ℕ → List (List Hash) → List Hash → List (List Hash) × List Hash
  build zero layers current = (layers, current)
  build (suc fuel) layers current = elim (ltb 1 (length current)) [
    | true ↦ build fuel (layers ++ next_level current ∷ []) (next_level current)
    | false ↦ (layers, current)
  ]

  -- `current[0]`; `none` is the panic.
  abbrev pub finish : List Hash → List (List Hash) × List Hash → Option MerkleTree
  finish leaves (layers, []) = none
  finish leaves (layers, r ∷ _) = some (record { leaves = leaves; layers = layers; root = r })

  -- `MerkleTree::from_hashes`; each round shortens the level, so the number of leaves is fuel enough.
  unfoldable pub from_hashes : List Hash → Option MerkleTree
  from_hashes [] = some (record { leaves = []; layers = []; root = b3.hash [] })
  from_hashes (l ∷ ls) = finish (l ∷ ls) (build (length (l ∷ ls)) ((l ∷ ls) ∷ []) (l ∷ ls))

  -- `MerkleTree::from_chunks`
  pub from_chunks : List Bytes → Option MerkleTree
  from_chunks chunks = from_hashes (map b3.hash chunks)

-- `sibling_idx`
abbrev pub sibling_index : ℕ → ℕ
sibling_index idx = if idx % 2 == 0 then idx + 1 else idx - 1

-- `layer[sibling_idx]`, or `layer[idx]` where there is no sibling; `none` is an index panic.
abbrev pub sibling : List Hash → ℕ → Option Hash
sibling layer idx =
    if ltb (sibling_index idx) (length layer)
    then get_elem? layer (sibling_index idx)
    else get_elem? layer idx

module _ ⦃hx : Hex⦄ where
  -- `MerkleTree::root_hex`
  unfoldable pub root_hex : MerkleTree → Text
  root_hex t = hx.encode t.root

  -- The node that `proof` pushes for one layer.
  abbrev pub push_sibling :
      ℕ → Option Hash → Option (List MerkleProofNode) → Option (List MerkleProofNode)
  push_sibling idx none rest = none
  push_sibling idx (some h) none = none
  push_sibling idx (some h) (some rest) =
      some (record { hash = hx.encode h; is_right = idx % 2 == 0 } ∷ rest)

  -- The `for` loop of `proof`, over every layer.
  pub siblings_from : List (List Hash) → ℕ → Option (List MerkleProofNode)
  siblings_from [] idx = some []
  siblings_from (layer ∷ layers) idx =
      push_sibling idx (sibling layer idx) (siblings_from layers (idx / 2))

  abbrev pub make_proof :
      MerkleTree → ℕ → Option Hash → Option (List MerkleProofNode) → Option MerkleProof
  make_proof t index (some leaf) (some s) = some (record {
    leaf_index = index;
    leaf_hash = hx.encode leaf;
    siblings = s;
    root = hx.encode t.root;
  })
  make_proof t index _ _ = none

  -- `MerkleTree::proof`. The outer `none` is a panic, the inner one the `None` that is returned.
  pub proof : MerkleTree → ℕ → Option (Option MerkleProof)
  proof t index =
      if leb (length t.leaves) index
      then some none
      else elim (make_proof t index (get_elem? t.leaves index) (siblings_from t.layers index)) [
        | none ↦ none
        | some p ↦ some (some p)
      ]

module _ ⦃b3 : Blake3⦄ ⦃hx : Hex⦄ where
  -- One round of the loop of `verify_proof`; `none` is its `return false`.
  abbrev pub climb : Bytes → Bool → Option Bytes → Option Bytes
  climb current is_right none = none
  climb current is_right (some s) =
      some (if is_right then b3.hash (current ++ s) else b3.hash (s ++ current))

  -- The loop of `verify_proof`.
  unfoldable pub climb_all : Option Bytes → List MerkleProofNode → Option Bytes
  climb_all none siblings = none
  climb_all (some current) [] = some current
  climb_all (some current) (s ∷ siblings) =
      climb_all (climb current s.is_right (decode32 s.hash)) siblings

  abbrev pub same_root : Option Bytes → Option Bytes → Bool
  same_root (some current) (some root) = bytes_eq current root
  same_root _ _ = false

  -- `MerkleTree::verify_proof`
  unfoldable pub verify_proof : MerkleProof → Bool
  verify_proof p = same_root (climb_all (decode32 p.leaf_hash) p.siblings) (decode32 p.root)
