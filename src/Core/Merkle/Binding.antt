-- ===== src/Core/Merkle/Binding.antt =====
-- core/src/merkle.rs, `verify_proof`: two leaves that both verify show a collision of the hash.
use mathlib.Core.Option.{none-ne-some, some-injective}
use dest.Base.{
  ◌+◌, if◌then◌else◌, Option-cases, ◌≡◌, ◌≢◌, refl, sym, ◌∙◌, Bool, true, false, Option, none, some,
  List, [], ◌∷◌, ◌++◌, length, take, drop, ap, inl, inr, ◌⊎◌, Bool-cases, drop-append,
}
use dest.Core.Extern.{Bytes, Blake3, Hex}
use dest.Core.Types.{bytes_eq, eq_of_bytes_eq, bytes_eq_refl, decode32, length-decode32}
use dest.Core.Merkle.{MerkleProof, MerkleProofNode, climb_all, same_root, verify_proof}

take-append : (xs ys : Bytes) → take (length xs) (xs ++ ys) ≡ xs
take-append [] ys = refl
take-append (x ∷ xs) ys = ap (λ l. x ∷ l) (take-append xs ys)

append_cancel_right : (a b s : Bytes) → length a ≡ length b → a ++ s ≡ b ++ s → a ≡ b
append_cancel_right a b s len e =
    sym (take-append a s) ∙ ap (take (length a)) e ∙ (rw len (take-append b s))

append_cancel_left : (a b s : Bytes) → s ++ a ≡ s ++ b → a ≡ b
append_cancel_left a b s e =
    sym (drop-append s a 0) ∙ ap (drop (length s + 0)) e ∙ drop-append s b 0

ne_of_bytes_eq : (a b : Bytes) → bytes_eq a b ≡ false → a ≢ b
ne_of_bytes_eq a b differ same =
    let equal : bytes_eq a b ≡ true = rw same (bytes_eq_refl b) in cc (differ, equal)

module _ ⦃b3 : Blake3⦄ where
  -- What a round of `verify_proof` hashes, and the hash that it goes on with.
  abbrev pub joined : Bool → Bytes → Bytes → Bytes
  joined right a h = if right then a ++ h else h ++ a

  abbrev climbed : Bool → Bytes → Bytes → Bytes
  climbed right a h = if right then b3.hash (a ++ h) else b3.hash (h ++ a)

  hash-joined : (right : Bool) (a h : Bytes) → climbed right a h ≡ b3.hash (joined right a h)
  hash-joined true a h = refl
  hash-joined false a h = refl

  joined_ne :
      (right : Bool) (a b h : Bytes)
      → length a ≡ length b
      → a ≢ b
      → joined right a h ≢ joined right b h
  joined_ne true a b h len ne same = ne (append_cancel_right a b h len same)
  joined_ne false a b h len ne same = ne (append_cancel_left a b h same)

module _ ⦃b3 : Blake3⦄ ⦃hx : Hex⦄ where
  -- On the way up from `a` and `b` along the siblings, a round hashes two different inputs to one hash.
  abbrev pub Collides : List MerkleProofNode → Bytes → Bytes → Type 0
  Collides [] a b = ⊥
  Collides (s ∷ path) a b =
      (h : Bytes) × (decode32 s.hash ≡ some h)
      × ((joined s.is_right a h ≢ joined s.is_right b h)
            × (b3.hash (joined s.is_right a h) ≡ b3.hash (joined s.is_right b h))
          ⊎ Collides path (b3.hash (joined s.is_right a h)) (b3.hash (joined s.is_right b h)))

  climb_all-none : (path : List MerkleProofNode) → climb_all none path ≡ none
  unfolding climb_all
  climb_all-none [] = refl
  climb_all-none (s ∷ path) = refl

  climb_all_bad :
      (s : MerkleProofNode) (path : List MerkleProofNode) (a : Bytes)
      → decode32 s.hash ≡ none
      → climb_all (some a) (s ∷ path) ≡ none
  unfolding climb_all
  climb_all_bad s path a e = rw (e, climb_all) (climb_all-none path)

  climb_all_good :
      (s : MerkleProofNode) (path : List MerkleProofNode) (a : Bytes) {h : Bytes}
      → decode32 s.hash ≡ some h
      → climb_all (some a) (s ∷ path) ≡ climb_all (some (b3.hash (joined s.is_right a h))) path
  unfolding climb_all
  climb_all_good s path a {h} e =
      rw (e, climb_all) (ap (λ c. climb_all (some c) path) (hash-joined s.is_right a h))

  climb_all-Collides :
      (path : List MerkleProofNode) (a b root : Bytes)
      → length a ≡ 32
      → length b ≡ 32
      → a ≢ b
      → climb_all (some a) path ≡ some root
      → climb_all (some b) path ≡ some root
      → Collides path a b
  unfolding climb_all
  climb_all-Collides [] a b root la lb ne ea eb = absurd (ne (some-injective a b (ea ∙ sym eb)))
  climb_all-Collides (s ∷ path) a b root la lb ne ea eb = elim (Option-cases (decode32 s.hash)) [
    | inl bad ↦ absurd (none-ne-some root (sym (climb_all_bad s path a bad) ∙ ea))
    | inr (h, good) ↦
        let x = b3.hash (joined s.is_right a h) in
        let y = b3.hash (joined s.is_right b h) in
        elim (Bool-cases (bytes_eq x y)) [
          | inl same ↦
              (h, good, inl (joined_ne s.is_right a b h (la ∙ sym lb) ne, eq_of_bytes_eq x y same))
          | inr differ ↦ (
            h,
            good,
            inr (
                climb_all-Collides path x y root (b3.length-hash _) (b3.length-hash _)
                  (ne_of_bytes_eq x y differ) (sym (climb_all_good s path a good) ∙ ea)
                  (sym (climb_all_good s path b good) ∙ eb)),
          )
        ]
  ]

  same_root-parts :
      (c r : Option Bytes)
      → same_root c r ≡ true
      → (root : Bytes) × (c ≡ some root) × (r ≡ some root)
  same_root-parts none r ok = cc
  same_root-parts (some c) none ok = cc
  same_root-parts (some c) (some r) ok = (r, ap some (eq_of_bytes_eq c r ok), refl)

  -- An accepted proof climbs from its leaf to its root.
  verify_proof-climbs :
      (p : MerkleProof) {a : Bytes}
      → decode32 p.leaf_hash ≡ some a
      → verify_proof p ≡ true
      → (root : Bytes) × (climb_all (some a) p.siblings ≡ some root) × (decode32 p.root ≡ some root)
  unfolding verify_proof
  verify_proof-climbs p da ok =
      let (root, climbs, top) = same_root-parts _ _ ok in (root, rw da at climbs, top)

  -- Two proofs with the same siblings and the same root, for leaves that decode to different hashes,
  -- are both accepted only if some round on the way up hashes two different inputs to one hash.
  pub verify_proof-Collides :
      (p q : MerkleProof) {a b : Bytes}
      → p.siblings ≡ q.siblings
      → p.root ≡ q.root
      → decode32 p.leaf_hash ≡ some a
      → decode32 q.leaf_hash ≡ some b
      → a ≢ b
      → verify_proof p ≡ true
      → verify_proof q ≡ true
      → Collides p.siblings a b
  verify_proof-Collides p q {a} {b} same_path same_top da db ne okp okq =
      let (r, climbs_p, top_p) = verify_proof-climbs p da okp in
      let (r', climbs_q, top_q) = verify_proof-climbs q db okq in
      let same : r' ≡ r = some-injective r' r (sym top_q ∙ (rw same_top at top_p)) in
      climb_all-Collides p.siblings a b r (length-decode32 p.leaf_hash da)
        (length-decode32 q.leaf_hash db) ne climbs_p (rw same_path (climbs_q ∙ ap some same))
