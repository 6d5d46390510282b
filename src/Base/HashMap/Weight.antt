-- ===== src/Base/HashMap/Weight.antt =====
-- The weight of the values of a map, when keys come and go.
use dest.Base.Tests.{Bool-cases}
use dest.Base.Text.{Text, bytes_eq, bytes_eq_iff}
use dest.Base.HashMap.{HashMap, get, insert, remove, HasUniqueKeys}
use mathlib.Core.Path.{◌≡◌, refl, ap}
use mathlib.Core.Logic.{inl, inr}
use mathlib.Core.Option.{Option, none, some}
use mathlib.Core.List.{[], ◌∷◌}
use native.Mathlib.Omega.{arith}
use Prim.Native.Nat.{ℕ, ◌+◌}

module _ {ℓ} {V : Type ℓ} where
  remove-absent : (k : Text) (m : HashMap V) → get k m ≡ none → remove k m ≡ m
  unfolding get remove
  remove-absent k [] h = refl
  remove-absent k ((j, v) ∷ m) h = elim (Bool-cases (bytes_eq k j)) [
    | inl same ↦ let bad : some v ≡ none = rw same at h in cc
    | inr other ↦ rw other (ap (λ r. (j, v) ∷ r) (remove-absent k m (rw other at h)))
  ]

module _ {ℓ} {V : Type ℓ} (w : V → ℕ) where
  -- The weight of all values.
  abbrev pub weigh : HashMap V → ℕ
  weigh [] = 0
  weigh ((k, v) ∷ m) = w v + weigh m

  abbrev pub weigh_option : Option V → ℕ
  weigh_option none = 0
  weigh_option (some v) = w v

  pub weigh-insert :
      (k : Text) (v : V) (m : HashMap V)
      → weigh (insert k v m) + weigh_option (get k m) ≡ weigh m + w v
  unfolding get insert
  weigh-insert k v [] = omega arith
  weigh-insert k v ((j, x) ∷ m) = elim (Bool-cases (bytes_eq k j)) [
    | inl same ↦ rw same (omega arith)
    | inr other ↦ rw other (omega (arith, weigh-insert k v m))
  ]

  pub weigh-remove :
      (k : Text) (m : HashMap V)
      → HasUniqueKeys m
      → weigh (remove k m) + weigh_option (get k m) ≡ weigh m
  unfolding get remove
  weigh-remove k [] h = refl
  weigh-remove k ((j, x) ∷ m) h = elim (Bool-cases (bytes_eq k j)) [
    | inl same ↦
        let e : k ≡ j = (bytes_eq_iff k j).0 same in
        let gone : remove k m ≡ m = remove-absent k m (rw e h.0) in rw (same, gone) (omega arith)
    | inr other ↦ rw other (omega (arith, weigh-remove k m h.1))
  ]
