-- ===== src/Base/HashMap.antt =====
-- `HashMap` with text keys: its entries, in the order in which an iteration meets them.
pub mod Weight
use dest.Base.Tests.{if◌then◌else◌, Bool-cases}
use dest.Base.Text.{Text, bytes_eq, bytes_eq_refl, bytes_eq_iff}
use mathlib.Core.Path.{◌≡◌, refl, subst, ◌∙◌}
use mathlib.Core.Logic.{inl, inr}
use mathlib.Core.Bool.{Bool, true, false}
use mathlib.Core.Option
use mathlib.Core.Option.{Option, none, some}
use mathlib.Core.List.{List, [], ◌∷◌}
use native.Mathlib.Omega.{arith}

abbrev pub HashMap {ℓ} : Type ℓ → Type ℓ
HashMap V = List (Text × V)

module _ {ℓ} {V : Type ℓ} where
  unfoldable pub get : Text → HashMap V → Option V
  get k [] = none
  get k ((j, v) ∷ m) = if bytes_eq k j then some v else get k m

  unfoldable pub insert : Text → V → HashMap V → HashMap V
  insert k v [] = (k, v) ∷ []
  insert k v ((j, w) ∷ m) = if bytes_eq k j then (j, v) ∷ m else (j, w) ∷ insert k v m

  -- Keys are unique, so that at most one entry goes.
  unfoldable pub remove : Text → HashMap V → HashMap V
  remove k [] = []
  remove k ((j, w) ∷ m) = let rest = remove k m in if bytes_eq k j then rest else (j, w) ∷ rest

  -- `values()`
  unfoldable pub values : HashMap V → List V
  values [] = []
  values ((k, v) ∷ m) = v ∷ values m

  -- `keys()`
  abbrev pub keys : HashMap V → List Text
  keys [] = []
  keys ((k, v) ∷ m) = k ∷ keys m

  pub get-insert :
      (j k : Text) (v : V) (m : HashMap V)
      → get j (insert k v m) ≡ (if bytes_eq j k then some v else get j m)
  unfolding get insert
  get-insert j k v [] = refl
  get-insert j k v ((i, w) ∷ m) =
      ground (arith, bytes_eq_iff j k, bytes_eq_iff k i, bytes_eq_iff j i, get-insert j k v m)

  pub get-insert_same : (k : Text) (v : V) (m : HashMap V) → get k (insert k v m) ≡ some v
  get-insert_same k v m = get-insert k k v m ∙ rw (bytes_eq_refl k) refl

  pub get-remove :
      (j k : Text) (m : HashMap V) → get j (remove k m) ≡ (if bytes_eq j k then none else get j m)
  unfolding get remove
  get-remove j k [] = ground arith
  get-remove j k ((i, w) ∷ m) =
      ground (arith, bytes_eq_iff j k, bytes_eq_iff k i, bytes_eq_iff j i, get-remove j k m)

  -- Every value of the map.
  abbrev pub AllValues {κ} : (V → Type κ) → HashMap V → Type κ
  AllValues P [] = Unit
  AllValues P ((k, v) ∷ m) = P v × AllValues P m

module _ {ℓ κ} {V : Type ℓ} (P : V → Type κ) where
  pub AllValues-insert :
      (k : Text) (v : V) (m : HashMap V) → P v → AllValues P m → AllValues P (insert k v m)
  unfolding insert
  AllValues-insert k v [] p h = (p, tt)
  AllValues-insert k v ((j, w) ∷ m) p h = ground (arith, AllValues-insert k v m p h.1)

  pub AllValues-get : (k : Text) (v : V) (m : HashMap V) → AllValues P m → get k m ≡ some v → P v
  unfolding get
  AllValues-get k v [] h e = cc
  AllValues-get k v ((j, w) ∷ m) h e = elim (Bool-cases (bytes_eq k j)) [
    | inl same ↦ subst P (Option.some-injective w v (rw (same, get) at e)) h.0
    | inr other ↦ AllValues-get k v m h.1 (rw (other, get) at e)
  ]

  pub AllValues-remove : (k : Text) (m : HashMap V) → AllValues P m → AllValues P (remove k m)
  unfolding remove
  AllValues-remove k [] h = tt
  AllValues-remove k ((j, w) ∷ m) h = ground (arith, AllValues-remove k m h.1)

module _ {ℓ} {V : Type ℓ} where
  -- No key stands twice, as a hash map promises.
  abbrev pub HasUniqueKeys : HashMap V → Type ℓ
  HasUniqueKeys [] = Unit
  HasUniqueKeys ((k, v) ∷ m) = (get k m ≡ none) × HasUniqueKeys m

  pub insert-HasUniqueKeys :
      (k : Text) (v : V) (m : HashMap V) → HasUniqueKeys m → HasUniqueKeys (insert k v m)
  unfolding insert get
  insert-HasUniqueKeys k v [] h = (refl, tt)
  insert-HasUniqueKeys k v ((j, w) ∷ m) h = ground (
    arith,
    bytes_eq_iff k j,
    bytes_eq_iff j k,
    get-insert j k v m,
    insert-HasUniqueKeys k v m h.1,
  )

  pub remove-HasUniqueKeys :
      (k : Text) (m : HashMap V) → HasUniqueKeys m → HasUniqueKeys (remove k m)
  unfolding remove
  remove-HasUniqueKeys k [] h = tt
  remove-HasUniqueKeys k ((j, w) ∷ m) h =
      ground (arith, get-remove j k m, remove-HasUniqueKeys k m h.1)

-- Whether a text stands in a list.
unfoldable pub text_member : Text → List Text → Bool
text_member k [] = false
text_member k (j ∷ js) = if bytes_eq k j then true else text_member k js
