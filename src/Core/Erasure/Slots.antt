-- ===== src/Core/Erasure/Slots.antt =====
-- core/src/erasure.rs: what the loop of `reconstruct` puts into the slots.
use dest.Base.{
  ℕ, zero, suc, ◌+◌, ◌<◌, ◌≡◌, ◌≢◌, refl, sym, ap, ◌∙◌, inr, false, Option, none, some, List, [],
  ◌∷◌, length, get_elem?, set, leb, All, arith,
}
use dest.Core.Extern.{Bytes}
use dest.Core.Types.{rs_total_shards}
use dest.Core.Erasure.{present, IsPart, ReedSolomon, place}

abbrev pub IsShardOf : List Bytes → ℕ × Bytes → Type 0
IsShardOf shards (i, s) = get_elem? shards i ≡ some s

-- No index stands twice.
abbrev pub Distinct : List (ℕ × Bytes) → Type 0
Distinct [] = Unit
Distinct ((i, s) ∷ rest) = All (λ (q : ℕ × Bytes). q.0 ≢ i) rest × Distinct rest

IsPart-set :
    (shards : List Bytes) (slots : List (Option Bytes)) (i : ℕ) (s : Bytes)
    → IsPart shards slots
    → get_elem? shards i ≡ some s
    → IsPart shards (set slots i (some s))
IsPart-set [] [] i s p e = tt
IsPart-set [] (o ∷ slots) i s p e = absurd p
IsPart-set (t ∷ shards) [] i s p e = absurd p
IsPart-set (t ∷ shards) (o ∷ slots) zero s p e = (inr (sym e), p.1)
IsPart-set (t ∷ shards) (o ∷ slots) (suc i) s p e = (p.0, IsPart-set shards slots i s p.1 e)

present-set :
    (slots : List (Option Bytes)) (i : ℕ) (s : Bytes)
    → get_elem? slots i ≡ some none
    → present (set slots i (some s)) ≡ suc (present slots)
present-set [] i s e = cc
present-set (none ∷ slots) zero s e = refl
present-set (some t ∷ slots) zero s e = ground arith
present-set (none ∷ slots) (suc i) s e = present-set slots i s e
present-set (some t ∷ slots) (suc i) s e = ap suc (present-set slots i s e)

get_elem?-set :
    (slots : List (Option Bytes)) (i j : ℕ) (s : Bytes)
    → j ≢ i
    → get_elem? (set slots i (some s)) j ≡ get_elem? slots j
get_elem?-set [] i j s ne = refl
get_elem?-set (o ∷ slots) zero zero s ne = absurd (ne refl)
get_elem?-set (o ∷ slots) zero (suc j) s ne = refl
get_elem?-set (o ∷ slots) (suc i) zero s ne = refl
get_elem?-set (o ∷ slots) (suc i) (suc j) s ne = get_elem?-set slots i j s (λ e. ne (ap suc e))

-- The slots of these shards are still free.
abbrev pub AreFree : List (Option Bytes) → List (ℕ × Bytes) → Type 0
AreFree slots [] = Unit
AreFree slots ((i, s) ∷ rest) = (get_elem? slots i ≡ some none) × AreFree slots rest

AreFree-set :
    (slots : List (Option Bytes)) (i : ℕ) (s : Bytes) (rest : List (ℕ × Bytes))
    → All (λ (q : ℕ × Bytes). q.0 ≢ i) rest
    → AreFree slots rest
    → AreFree (set slots i (some s)) rest
AreFree-set slots i s [] ne free = tt
AreFree-set slots i s ((j, t) ∷ rest) ne free =
    (get_elem?-set slots i j s ne.0 ∙ free.0, AreFree-set slots i s rest ne.1 free.1)

pub get_elem?-lt {ℓ} :
    {A : Type ℓ} (xs : List A) (i : ℕ) {a : A} → get_elem? xs i ≡ some a → i < length xs
get_elem?-lt [] i e = cc
get_elem?-lt (x ∷ xs) zero e = omega arith
get_elem?-lt (x ∷ xs) (suc i) e = omega (arith, get_elem?-lt xs i e)

module _ ⦃rs : ReedSolomon⦄ where
  pub place-IsPart :
      (shards : List Bytes) (shard_data : List (ℕ × Bytes)) (slots : List (Option Bytes))
      → length shards ≡ rs_total_shards
      → All (IsShardOf shards) shard_data
      → Distinct shard_data
      → AreFree slots shard_data
      → IsPart shards slots
      → (placed : List (Option Bytes)) × (place shard_data slots ≡ some placed)
        × IsPart shards placed
        × (present placed ≡ present slots + length shard_data)
  unfolding place
  place-IsPart shards [] slots len mem apart free part = (slots, refl, part, omega arith)
  place-IsPart shards ((i, s) ∷ rest) slots len mem apart free part =
      let in_range : i < 5 = omega (arith, get_elem?-lt shards i mem.0, len) in
      let ok : leb 5 i ≡ false = ground arith in
      let (placed, done, part', n) =
        place-IsPart shards rest (set slots i (some s)) len mem.1 apart.1
          (AreFree-set slots i s rest apart.0 free.1) (IsPart-set shards slots i s part mem.0) in
      (placed, rw ok done, part', omega (arith, n, present-set slots i s free.0))
