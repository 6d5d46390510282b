-- ===== src/Billing/Extern.antt =====
-- The crates that billing/src calls, as interfaces: `chrono` and `rust_decimal`.
use dest.Base.{ℕ, ◌≡◌, Bool, true, false, Option, not, inl, inr, Bool-cases}
use dest.Base.Int.{ℤ, ◌≤ℤ◌, pos}

-- `DateTime<Utc>` and `Duration`: `plus t d` is t + d, `leb` is <=, and `num_seconds t u` is
-- (t - u).num_seconds(), as `num_days t u` is (t - u).num_days().
pub record Chrono : Type 1 where
  pub Time : Type 0
  pub Span : Type 0
  pub hours : ℤ → Span
  pub days : ℤ → Span
  pub plus : Time → Span → Time
  pub leb : Time → Time → Bool
  pub num_seconds : Time → Time → ℤ
  pub num_days : Time → Time → ℤ
  -- A difference to a later time is not positive.
  pub num_seconds_past : (t u : Time) → leb t u ≡ true → num_seconds t u ≤ℤ pos 0
  -- A time n days after t is at most n days after every later time.
  pub num_days_later :
      (t u : Time) (n : ℕ) → leb t u ≡ true → num_days (plus t (days (pos n))) u ≤ℤ pos n

-- `Decimal`: `dec m e` is the literal m / 10^e, `leb` is <= and `eq` is ==.
pub record Decimal : Type 1 where
  pub Amount : Type 0
  pub dec : ℕ → ℕ → Amount
  pub add : Amount → Amount → Amount
  pub sub : Amount → Amount → Amount
  pub mul : Amount → Amount → Amount
  -- `none` is the panic of a division by zero.
  pub div : Amount → Amount → Option Amount
  pub from : ℕ → Amount
  pub max : Amount
  pub leb : Amount → Amount → Bool
  pub eq : Amount → Amount → Bool

-- `Decimal::ZERO`
abbrev pub zero_amount : ⦃d : Decimal⦄ → d.Amount
zero_amount ⦃d⦄ = d.dec 0 0

-- `a > b`
abbrev pub gtb : ⦃d : Decimal⦄ → d.Amount → d.Amount → Bool
gtb ⦃d⦄ a b = not (d.leb a b)

-- `a < b`
abbrev pub ltb_amount : ⦃d : Decimal⦄ → d.Amount → d.Amount → Bool
ltb_amount ⦃d⦄ a b = not (d.leb b a)

-- Products distribute over sums, and == is reflexive.
pub record IsExactProduct (d : Decimal) : Type 0 where
  pub eq_refl : (a : d.Amount) → d.eq a a ≡ true
  pub mul_add : (a b c : d.Amount) → d.mul a (d.add b c) ≡ d.add (d.mul a b) (d.mul a c)
  pub shares : (a : d.Amount) → d.mul a (d.add (d.dec 10 2) (d.dec 90 2)) ≡ a
  pub add_sub : (a b : d.Amount) → d.add a (d.sub b a) ≡ b

-- Amounts are ordered, and sums and differences are exact.
pub record IsExact (d : Decimal) : Type 0 where
  pub leb_trans : (a b c : d.Amount) → d.leb a b ≡ true → d.leb b c ≡ true → d.leb a c ≡ true
  pub leb_total : (a b : d.Amount) → d.leb a b ≡ false → d.leb b a ≡ true
  pub add_nonneg :
      (a b : d.Amount)
      → d.leb (d.dec 0 0) a ≡ true
      → d.leb (d.dec 0 0) b ≡ true
      → d.leb (d.dec 0 0) (d.add a b) ≡ true
  pub sub_self : (a : d.Amount) → d.sub a a ≡ d.dec 0 0
  pub sub_nonneg : (a b : d.Amount) → d.leb b a ≡ true → d.leb (d.dec 0 0) (d.sub a b) ≡ true

module _ {d : Decimal} (exact : IsExact d) where
  pub leb_refl : (a : d.Amount) → d.leb a a ≡ true
  leb_refl a = elim (Bool-cases (d.leb a a)) [ inl le ↦ le | inr gt ↦ exact.leb_total a a gt ]
