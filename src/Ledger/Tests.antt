-- ===== src/Ledger/Tests.antt =====
-- The theorems on ledger/src at small inputs, with entries of three fields as the values.
use mathlib.Core.List.{Memᴰ}
use dest.Base.{ℕ, ◌≡◌, ◌≢◌, ◌↔◌, ◌⊎◌, Option, none, some, [], ◌∷◌, if◌then◌else◌, arith}
use dest.Base.Int.{ℤ, pos}
use dest.Base.Text.{Text, bytes_eq}
use dest.Ledger.Json.{Json}
use dest.Ledger.Conflict.{
  seq_key, timestamp_key, id_key, id_of, timestamp_of, new_conflict, detect_conflicts, resolve,
}
use dest.Ledger.Conflict as Conflict
use dest.Ledger.Conflict.Detection.{counterpart, detect_conflicts_iff}
use dest.Ledger.Conflict.Resolution.{winner, winner_agrees_iff}

data Value : Type 0 where
  null : Value
  number : ℤ → Value
  string : Text → Value
  entry : ℤ → Text → Text → Value

field : Value → Text → Value
field (Value.entry seq id timestamp) key =
    if bytes_eq key seq_key
    then Value.number seq
    else if bytes_eq key id_key
    then Value.string id
    else if bytes_eq key timestamp_key
    then Value.string timestamp
    else Value.null
field _ key = Value.null

number_in : Value → Option ℤ
number_in (Value.number n) = some n
number_in _ = none

string_in : Value → Option Text
string_in (Value.string t) = some t
string_in _ = none

print : Value → Text
print (Value.string t) = t
print (Value.entry seq id timestamp) = timestamp
print _ = []

instance abbrev json : Json
json = record {
  Value = Value;
  index = field;
  as_i64 = number_in;
  as_str = string_in;
  to_string = print;
}

abbrev mine : Value
mine = Value.entry (pos 1) (b'x' ∷ []) (b'1' ∷ [])

abbrev theirs : Value
theirs = Value.entry (pos 2) (b'x' ∷ []) (b'2' ∷ [])

number_of : Value → Option ℤ
number_of (Value.entry seq id timestamp) = some seq
number_of _ = none

mine-ne-theirs : mine ≢ theirs
unfolding number_of
mine-ne-theirs e = ground arith

abbrev two : ℕ
two = 2

winner_agrees_iff_example :
    (winner (resolve (new_conflict mine theirs) two 1 Conflict.new).1
      ≡ winner (resolve (new_conflict theirs mine) 1 two Conflict.new).1)
    ↔ ((two ≢ 1) ⊎ (timestamp_of mine ≢ timestamp_of theirs))
winner_agrees_iff_example =
    winner_agrees_iff mine theirs two 1 Conflict.new Conflict.new mine-ne-theirs

detect_conflicts_iff_example :
    Memᴰ (new_conflict mine theirs) (detect_conflicts (mine ∷ []) (theirs ∷ [])) ↔ (
      (r : Value) × Memᴰ r (theirs ∷ [])
      × (l : Value) × (counterpart (id_of r) (mine ∷ []) ≡ some l)
      × (print l ≢ print r)
      × (new_conflict mine theirs ≡ new_conflict l r))
detect_conflicts_iff_example =
    detect_conflicts_iff (mine ∷ []) (theirs ∷ []) (new_conflict mine theirs)
