-- ===== src/Core/Tests/Codec.antt =====
-- A codec for core/src/erasure.rs at hand: each parity shard is a copy of all the data.
use mathlib.Core.Path.{subst}
use mathlib.Core.Option.{some-injective, none-ne-some}
use dest.Base.{
  ℕ, ◌/◌, ◌≤◌, ◌≡◌, refl, sym, ap, ◌∙◌, ◌⊎◌, inl, inr, Option, none, some, List, [], ◌∷◌, ◌++◌,
  length, take, drop, map, All, arith, length-append, take-length-append, drop-length-append,
}
use dest.Core.Extern.{Bytes}
use dest.Core.Erasure.{ReedSolomon, IsPart, IsSized, present}

abbrev pub copies : Bytes → Bytes → Bytes → List Bytes
copies a b c = a ∷ b ∷ c ∷ (a ++ (b ++ c)) ∷ (a ++ (b ++ c)) ∷ []

unfoldable pub encode_copies : List Bytes → Option (List Bytes)
encode_copies (a ∷ b ∷ c ∷ _ ∷ _ ∷ []) = some (copies a b c)
encode_copies _ = none

-- The shards, from a copy of the data.
abbrev pub cut : ℕ → Bytes → List (Option Bytes)
cut n p = map some (copies (take n p) (take n (drop n p)) (drop n (drop n p)))

pub fill : List (Option Bytes) → Option (List (Option Bytes))
fill (_ ∷ _ ∷ _ ∷ some p ∷ _ ∷ []) = some (cut (length p / 3) p)
fill (_ ∷ _ ∷ _ ∷ none ∷ some p ∷ []) = some (cut (length p / 3) p)
fill (some a ∷ some b ∷ some c ∷ none ∷ none ∷ []) = some (map some (copies a b c))
fill _ = none

cut-copies :
    (n : ℕ) (a b c : Bytes)
    → IsSized n a
    → IsSized n b
    → IsSized n c
    → cut (length (a ++ (b ++ c)) / 3) (a ++ (b ++ c)) ≡ map some (copies a b c)
cut-copies n a b c sa sb sc =
    let size : length (a ++ (b ++ c)) / 3 ≡ length a =
      grind (arith, length-append a (b ++ c), length-append b c) in
    let same : length b ≡ length a = sb ∙ sym sa in
    let rest = drop-length-append a (b ++ c) in
    let mid : take (length a) (b ++ c) ≡ b = rw same at (take-length-append b c) in
    let end : drop (length a) (b ++ c) ≡ c = rw same at (drop-length-append b c) in
    rw (size, take-length-append a (b ++ c), rest, mid, end) refl

pub encode_copies-parity :
    (n : ℕ) (shards blanks : List Bytes)
    → length shards ≡ 3
    → length blanks ≡ 2
    → (parity : List Bytes) × (encode_copies (shards ++ blanks) ≡ some (shards ++ parity))
      × (length parity ≡ 2)
unfolding encode_copies
encode_copies-parity n (a ∷ b ∷ c ∷ []) (d ∷ e ∷ []) s t =
    ((a ++ (b ++ c)) ∷ (a ++ (b ++ c)) ∷ [], refl, refl)
encode_copies-parity n _ _ s t = absurd (omega (arith, s, t))

found : {p s : Bytes} → ((Option.some p ≡ none) ⊎ (Option.some p ≡ some s)) → p ≡ s
found (inl e) = absurd (none-ne-some _ (sym e))
found (inr e) = some-injective _ _ e

fill-copies :
    (n : ℕ) (a b c : Bytes) (slots : List (Option Bytes))
    → IsSized n a
    → IsSized n b
    → IsSized n c
    → IsPart (copies a b c) slots
    → 3 ≤ present slots
    → fill slots ≡ some (map some (copies a b c))
unfolding fill
fill-copies n a b c (o ∷ q ∷ r ∷ some p ∷ t ∷ []) sa sb sc part h =
    let same = found part.1.1.1.0 in rw same (ap some (cut-copies n a b c sa sb sc))
fill-copies n a b c (o ∷ q ∷ r ∷ none ∷ some p ∷ []) sa sb sc part h =
    let same = found part.1.1.1.1.0 in rw same (ap some (cut-copies n a b c sa sb sc))
fill-copies n a b c (some x ∷ some y ∷ some z ∷ none ∷ none ∷ []) sa sb sc part h =
    rw (found part.0, found part.1.0, found part.1.1.0) refl
fill-copies n a b c (none ∷ q ∷ r ∷ none ∷ none ∷ []) sa sb sc part h = absurd (ground arith)
fill-copies n a b c (some x ∷ none ∷ r ∷ none ∷ none ∷ []) sa sb sc part h = absurd (ground arith)
fill-copies n a b c (some x ∷ some y ∷ none ∷ none ∷ none ∷ []) sa sb sc part h =
    absurd (ground arith)
fill-copies n a b c [] sa sb sc part h = absurd part
fill-copies n a b c (o ∷ []) sa sb sc part h = absurd part.1
fill-copies n a b c (o ∷ q ∷ []) sa sb sc part h = absurd part.1.1
fill-copies n a b c (o ∷ q ∷ r ∷ []) sa sb sc part h = absurd part.1.1.1
fill-copies n a b c (o ∷ q ∷ r ∷ s ∷ []) sa sb sc part h = absurd part.1.1.1.1
fill-copies n a b c (o ∷ q ∷ r ∷ s ∷ t ∷ u ∷ slots) sa sb sc part h = absurd part.1.1.1.1.1

pub fill-encode_copies :
    (n : ℕ) (blank shards : List Bytes) (slots : List (Option Bytes))
    → All (IsSized n) blank
    → length blank ≡ 5
    → encode_copies blank ≡ some shards
    → IsPart shards slots
    → 3 ≤ present slots
    → fill slots ≡ some (map some shards)
unfolding encode_copies
fill-encode_copies n (a ∷ b ∷ c ∷ d ∷ e ∷ []) shards slots sized len made part many =
    let same : copies a b c ≡ shards = some-injective _ _ made in
    subst (λ l. fill slots ≡ some (map some l)) same
      (fill-copies n a b c slots sized.0 sized.1.0 sized.1.1.0
        (subst (λ l. IsPart l slots) (sym same) part) many)
fill-encode_copies n _ shards slots sized len made part many = absurd (omega (arith, len))

instance abbrev pub copier : ReedSolomon
copier = record {
  Codec = Unit;
  new = λ d p. some tt;
  encode = λ c l. encode_copies l;
  reconstruct = λ c l. fill l;
  new-some = (tt, refl);
  encode-some = λ c n shards blanks made pos len_s len_b sized.
      encode_copies-parity n shards blanks len_s len_b;
  reconstruct-some = λ c n blank shards slots made pos sized len encoded part many.
      fill-encode_copies n blank shards slots sized len encoded part many;
}
