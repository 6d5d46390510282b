-- ===== src/Ledger/Store/Root.antt =====
-- ledger/src/store.rs: `compute_merkle_root` is the root of core's tree over the entries.
use mathlib.Core.Option.{some-injective, none-ne-some}
use dest.Base.{
  ℕ, zero, suc, ◌≡◌, refl, sym, ap, ◌∙◌, Bool-cases, inl, inr, some, List, [], ◌∷◌, ◌++◌, length,
  map, ltb,
}
use dest.Base.Int.{pos}
use dest.Core.Extern.{Blake3, Hex}
use dest.Core.Merkle.{MerkleTree, next_level, build, finish, from_hashes, root_hex}
use dest.Core.Merkle.Build.{from_hashes-IsTree}
use dest.Ledger.Json.{Json}
use dest.Ledger.Store.{
  Hash, Row, Database, RowJson, get_entries_from, next_hashes, reduce, first, leaves, hex_of,
  compute_merkle_root,
}

module _ ⦃b3 : Blake3⦄ where
  next_hashes-next_level : (l : List Hash) → next_hashes l ≡ next_level l
  unfolding next_hashes next_level
  next_hashes-next_level [] = refl
  next_hashes-next_level (x ∷ []) = refl
  next_hashes-next_level (x ∷ y ∷ r) = ap (λ s. b3.hash (x ++ y) ∷ s) (next_hashes-next_level r)

  -- The loop of core, which keeps its layers, ends with the same level.
  build-reduce :
      (fuel : ℕ) (layers : List (List Hash)) (l : List Hash)
      → (build fuel layers l).1 ≡ reduce fuel l
  unfolding build reduce
  build-reduce zero layers l = refl
  build-reduce (suc fuel) layers l = elim (Bool-cases (ltb 1 (length l))) [
    | inl more ↦
        rw (more, build, reduce)
          (build-reduce fuel (layers ++ next_level l ∷ []) (next_level l)
            ∙ ap (reduce fuel) (sym (next_hashes-next_level l)))
    | inr done ↦ rw (done, build, reduce) refl
  ]

  first-finish :
      (l : List Hash) (p : List (List Hash) × List Hash) {t : MerkleTree}
      → finish l p ≡ some t
      → first p.1 ≡ some t.root
  first-finish l (layers, []) e = absurd (none-ne-some _ e)
  first-finish l (layers, r ∷ rest) e = ap (λ t. some (t.root)) (some-injective _ _ e)

  first-reduce :
      (x : Hash) (xs : List Hash) {t : MerkleTree}
      → from_hashes (x ∷ xs) ≡ some t
      → first (reduce (length (x ∷ xs)) (x ∷ xs)) ≡ some t.root
  unfolding from_hashes
  first-reduce x xs e =
      ap first (sym (build-reduce (length (x ∷ xs)) ((x ∷ xs) ∷ []) (x ∷ xs)))
      ∙ first-finish (x ∷ xs) _ e

module _ ⦃b3 : Blake3⦄ ⦃hx : Hex⦄ ⦃js : Json⦄ ⦃rj : RowJson⦄ where
  -- Where there are entries, the root that the store computes from those it reads, the first 100,000,
  -- is that of the tree that core builds over the hashes of the same entries.
  pub compute_merkle_root-from_hashes :
      (db : Database) {r : Row} {rows : List Row}
      → get_entries_from (pos 0) 100_000 db ≡ r ∷ rows
      → (t : MerkleTree) × (from_hashes (leaves (r ∷ rows)) ≡ some t)
        × (compute_merkle_root db ≡ some (root_hex t))
  unfolding compute_merkle_root root_hex
  compute_merkle_root-from_hashes db {r} {rows} read =
      let hash : Row → Hash = λ q. b3.hash (js.to_string (rj.json q)) in
      let (t, built, _) = from_hashes-IsTree (hash r) (map hash rows) in
      (t, built, rw read (ap hex_of (first-reduce (hash r) (map hash rows) built)))
