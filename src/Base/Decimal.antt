-- ===== src/Base/Decimal.antt =====
-- Numbers in decimal digits, as `{}` prints them.
use dest.Base.Tests.{ltb, le→ltb, lt→ltb, lt-cases, if◌then◌else◌}
use dest.Base.Text.{Text}
use Prim.Native.Nat.{ℕ, zero, suc, ◌+◌, ◌-◌, ◌*◌, ◌/◌, ◌%◌, ◌≤◌, ◌<◌}
use mathlib.Core.Path.{◌≡◌, refl, ap, ◌∙◌, subst}
use mathlib.Core.Logic.{inl, inr}
use mathlib.Core.Bool.{true, false}
use mathlib.Core.List.{[], ◌∷◌, ◌++◌, append_assoc}
use native.Mathlib.Omega.{arith}

-- Decimal digits, the last one last. A number is fuel enough for its own digits.
abbrev pub print : ℕ → ℕ → Text
print zero n = (b'0' + n % 10) ∷ []
print (suc fuel) n = elim (ltb n 10) [
  | true ↦ (b'0' + n % 10) ∷ []
  | false ↦ print fuel (n / 10) ++ ((b'0' + n % 10) ∷ [])
]

abbrev pub to_decimal : ℕ → Text
to_decimal n = print n n

-- Digits read from the left, and what follows them.
unfoldable pub scan : ℕ → Text → ℕ × Text
scan n [] = (n, [])
scan n (c ∷ cs) = if ltb c b'0' then (n, c ∷ cs) else scan (n * 10 + (c - b'0')) cs

scan-digit : (n : ℕ) (cs : Text) → scan (n / 10) ((b'0' + n % 10) ∷ cs) ≡ scan n cs
unfolding scan
scan-digit n cs = rw (le→ltb (b'0' + n % 10) b'0' (omega arith)) (ap (λ m. scan m cs) (omega arith))

scan-one : (n : ℕ) (cs : Text) → n < 10 → scan 0 ((b'0' + n % 10) ∷ cs) ≡ scan n cs
scan-one n cs h =
    subst (λ z. scan z ((b'0' + n % 10) ∷ cs) ≡ scan n cs) (omega arith) (scan-digit n cs)

print-small : (fuel n : ℕ) → n < 10 → print (suc fuel) n ≡ (b'0' + n % 10) ∷ []
print-small fuel n h = rw (lt→ltb n 10 h, print) refl

print-large :
    (fuel n : ℕ) → 10 ≤ n → print (suc fuel) n ≡ print fuel (n / 10) ++ ((b'0' + n % 10) ∷ [])
print-large fuel n h = rw (le→ltb n 10 h, print) refl

scan-print : (fuel n : ℕ) (cs : Text) → n ≤ fuel → scan 0 (print fuel n ++ cs) ≡ scan n cs
scan-print zero n cs h = scan-one n cs (omega arith)
scan-print (suc fuel) n cs h = elim (lt-cases n 10) [
  | inl small ↦ rw (print-small fuel n small) (scan-one n cs small)
  | inr large ↦
      rw (print-large fuel n large, append_assoc (print fuel (n / 10)) ((b'0' + n % 10) ∷ []) cs)
        (scan-print fuel (n / 10) ((b'0' + n % 10) ∷ cs) (omega arith) ∙ scan-digit n cs)
]

-- A number that was printed reads back, up to a character before the digits.
pub scan-to_decimal :
    (n c : ℕ) (cs : Text) → c < b'0' → scan 0 (to_decimal n ++ (c ∷ cs)) ≡ (n, c ∷ cs)
unfolding scan
scan-to_decimal n c cs h = scan-print n n (c ∷ cs) (omega arith) ∙ rw (lt→ltb c b'0' h) refl
