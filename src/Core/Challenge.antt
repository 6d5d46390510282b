-- ===== src/Core/Challenge.antt =====
-- core/src/merkle.rs: `generate_challenge`. The clock is an argument, `choose_multiple` of the crate rand a
-- parameter.
pub mod Tests
use dest.Base.{
  ℕ, zero, suc, ◌+◌, ◌<◌, min, Bool, true, false, not, ◌&&◌, ◌||◌, List, [], ◌∷◌, ◌++◌, length,
  ◌==◌, ◌≡◌, refl, ap, ◌∙◌, arith, length-append,
}
use dest.Core.Padding.{Rng}
use dest.Core.Types.{ChunkId, StorageChallenge, nonce_len}

pub member : ℕ → List ℕ → Bool
member x [] = false
member x (y ∷ ys) = x == y || member x ys

pub is_distinct : List ℕ → Bool
is_distinct [] = true
is_distinct (x ∷ xs) = not (member x xs) && is_distinct xs

-- `choose_multiple`: that many elements, or all where there are fewer, none of them twice.
pub record Sampler : Type 0 where
  pub choose_multiple : List ℕ → ℕ → List ℕ
  pub length-choose_multiple :
      (xs : List ℕ) (n : ℕ) → length (choose_multiple xs n) ≡ min n (length xs)
  pub member-choose_multiple :
      (xs : List ℕ) (n x : ℕ) → member x (choose_multiple xs n) ≡ true → member x xs ≡ true
  pub is_distinct-choose_multiple :
      (xs : List ℕ) (n : ℕ) → is_distinct xs ≡ true → is_distinct (choose_multiple xs n) ≡ true

-- `(0..n).collect()`
abbrev pub range : ℕ → List ℕ
range zero = []
range (suc n) = range n ++ (n ∷ [])

module _ ⦃s : Sampler⦄ where
  abbrev pub leaf_indices : ℕ → ℕ → List ℕ
  leaf_indices zero num_challenges = 0 ∷ []
  leaf_indices (suc n) num_challenges = s.choose_multiple (range (suc n)) num_challenges

  unfoldable pub generate_challenge : ⦃rng : Rng⦄ → ℕ → ChunkId → ℕ → ℕ → StorageChallenge
  generate_challenge ⦃rng⦄ now chunk_id num_leaves num_challenges = record {
    chunk_id = chunk_id;
    leaf_indices = leaf_indices num_leaves num_challenges;
    nonce = rng.fill_bytes nonce_len;
    timestamp = now;
  }

member-append : (x : ℕ) (xs ys : List ℕ) → member x (xs ++ ys) ≡ member x xs || member x ys
unfolding member
member-append x [] ys = refl
member-append x (y ∷ xs) ys = ground (arith, member-append x xs ys)

length-range : (n : ℕ) → length (range n) ≡ n
length-range zero = refl
length-range (suc n) = omega (arith, length-append (range n) (n ∷ []), length-range n)

member-range : (x n : ℕ) → member x (range n) ≡ true → x < n
unfolding member
member-range x zero h = cc
member-range x (suc n) h = ground (arith, member-append x (range n) (n ∷ []), member-range x n, h)

is_distinct-snoc :
    (xs : List ℕ) (n : ℕ)
    → is_distinct xs ≡ true
    → member n xs ≡ false
    → is_distinct (xs ++ (n ∷ [])) ≡ true
unfolding is_distinct member
is_distinct-snoc [] n h e = refl
is_distinct-snoc (x ∷ xs) n h e =
    ground (arith, member-append x xs (n ∷ []), is_distinct-snoc xs n, h, e)

is_distinct-range : (n : ℕ) → is_distinct (range n) ≡ true
unfolding is_distinct
is_distinct-range zero = refl
is_distinct-range (suc n) =
    is_distinct-snoc (range n) n (is_distinct-range n) (ground (arith, member-range n n))

-- A challenge for one or more leaves asks for as many as were wanted, or for every leaf where there are
-- fewer; each index is that of a leaf, and none comes twice.
pub generate_challenge-indices :
    ⦃s : Sampler⦄ ⦃rng : Rng⦄
    → (now : ℕ) (chunk_id : ChunkId) (num_leaves num_challenges : ℕ) → 0 < num_leaves
    → let indices = (generate_challenge now chunk_id num_leaves num_challenges).leaf_indices in
      (length indices ≡ min num_challenges num_leaves)
      × ((i : ℕ) → member i indices ≡ true → i < num_leaves)
      × (is_distinct indices ≡ true)
unfolding generate_challenge
generate_challenge-indices now chunk_id zero k h = absurd (omega (arith, h))
generate_challenge-indices ⦃s⦄ now chunk_id (suc n) k h = (
  s.length-choose_multiple (range (suc n)) k ∙ ap (min k) (length-range (suc n)),
  λ i e. member-range i (suc n) (s.member-choose_multiple (range (suc n)) k i e),
  s.is_distinct-choose_multiple (range (suc n)) k (is_distinct-range (suc n)),
)
