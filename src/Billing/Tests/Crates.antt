-- ===== src/Billing/Tests/Crates.antt =====
-- The crates of billing/src at concrete functions: times in seconds, and amounts in whole roubles.
use dest.Base.{
  ℕ, ◌+◌, ◌/◌, ◌^◌, ◌≡◌, Bool, true, false, Option, none, some, ◌==◌, if◌then◌else◌, arith,
}
use dest.Base.Int.{
  ℤ, pos, negsuc, pos_part, neg_part, sub_ℕ, ◌+ℤ◌, ◌-ℤ◌, ◌*ℤ◌, ◌≤ℤ◌, leb_ℤ, int_laws, *ℤ_add,
}
use dest.Billing.Extern.{Chrono, Decimal, IsExact, IsExactProduct}

-- Times and spans in seconds.
pub past : (t u : ℤ) → leb_ℤ t u ≡ true → t -ℤ u ≤ℤ pos 0
unfolding ◌-ℤ◌
past t u h = ground arith

pub days_in : ℤ → ℤ
days_in z = sub_ℕ (pos_part z / 86400) (neg_part z / 86400)

pub later : (t u : ℤ) (n : ℕ) → leb_ℤ t u ≡ true → days_in (t +ℤ (pos n *ℤ pos 86400) -ℤ u) ≤ℤ pos n
unfolding ◌-ℤ◌ ◌+ℤ◌ ◌*ℤ◌ days_in
later t u n h = ground arith

instance abbrev pub chrono : Chrono
chrono = record {
  Time = ℤ;
  Span = ℤ;
  hours = λ h. h *ℤ pos 3600;
  days = λ n. n *ℤ pos 86400;
  plus = λ t s. t +ℤ s;
  leb = leb_ℤ;
  num_seconds = λ t u. t -ℤ u;
  num_seconds_past = past;
  num_days = λ t u. days_in (t -ℤ u);
  num_days_later = later;
}

unfoldable pub eq_ℤ : ℤ → ℤ → Bool
eq_ℤ (pos m) (pos n) = m == n
eq_ℤ (negsuc m) (negsuc n) = m == n
eq_ℤ _ _ = false

unfoldable pub div_ℤ : ℤ → ℤ → Option ℤ
div_ℤ a b =
    if eq_ℤ b (pos 0)
    then none
    else some
        (sub_ℕ (pos_part a / (pos_part b + neg_part b)) (neg_part a / (pos_part b + neg_part b)))

-- Whole roubles, to which literals are rounded.
instance abbrev pub decimal : Decimal
decimal = record {
  Amount = ℤ;
  dec = λ m e. pos ((m + 10 ^ e / 2) / 10 ^ e);
  add = λ a b. a +ℤ b;
  sub = λ a b. a -ℤ b;
  mul = λ a b. a *ℤ b;
  div = div_ℤ;
  from = λ n. pos n;
  max = pos (2 ^ 96);
  leb = leb_ℤ;
  eq = eq_ℤ;
}

pub exact : IsExact decimal
unfolding ◌+ℤ◌ ◌-ℤ◌
exact = record {
  leb_trans = λ a b c h k. ground arith;
  leb_total = λ a b h. ground arith;
  add_nonneg = λ a b h k. ground arith;
  sub_self = λ a. ground arith;
  sub_nonneg = λ a b h. ground arith;
}

eq_ℤ-refl : (a : ℤ) → eq_ℤ a a ≡ true
unfolding eq_ℤ
eq_ℤ-refl (pos m) = ground arith
eq_ℤ-refl (negsuc m) = ground arith

mul-one : (a : ℤ) → a *ℤ pos 1 ≡ a
unfolding ◌*ℤ◌
mul-one a = ground arith

pub exact_product : IsExactProduct decimal
exact_product = record {
  eq_refl = eq_ℤ-refl;
  mul_add = *ℤ_add;
  shares = λ a. (unfold ◌+ℤ◌ in mul-one a);
  add_sub = λ a b. omega int_laws;
}
