-- ===== src/Core/Challenge/Tests.antt =====
-- A generator of zeros, and a sampler that takes the first leaves.
use dest.Base.{
  ℕ, zero, suc, true, List, [], ◌∷◌, take, length-take, replicate, length-replicate, ◌≡◌, refl,
  arith,
}
use dest.Core.Padding.{Rng}
use dest.Core.Challenge.{Sampler, member, is_distinct}

instance abbrev pub rng : Rng
rng = record { fill_bytes = λ n. replicate n 0; length-fill_bytes = λ n. length-replicate n 0 }

pub member-take : (xs : List ℕ) (n x : ℕ) → member x (take n xs) ≡ true → member x xs ≡ true
unfolding member
member-take [] zero x h = h
member-take [] (suc n) x h = h
member-take (y ∷ ys) zero x h = cc
member-take (y ∷ ys) (suc n) x h = ground (arith, member-take ys n x, h)

pub is_distinct-take :
    (xs : List ℕ) (n : ℕ) → is_distinct xs ≡ true → is_distinct (take n xs) ≡ true
unfolding is_distinct
is_distinct-take [] zero h = refl
is_distinct-take [] (suc n) h = refl
is_distinct-take (y ∷ ys) zero h = refl
is_distinct-take (y ∷ ys) (suc n) h = ground (arith, member-take ys n y, is_distinct-take ys n, h)

instance abbrev pub first : Sampler
first = record {
  choose_multiple = λ xs n. take n xs;
  length-choose_multiple = λ xs n. length-take n xs;
  member-choose_multiple = member-take;
  is_distinct-choose_multiple = is_distinct-take;
}
