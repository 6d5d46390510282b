-- ===== src/Billing/Calculator.antt =====
-- billing/src/calculator.rs: `BillingCalculator`.
use dest.Base.{ℕ, ◌≡◌, true, Bool, Option, none, some, if◌then◌else◌, arith}
use dest.Billing.Extern.{Chrono, Decimal, IsExactProduct, zero_amount, gtb}
use dest.Billing.Rates.{
  DiskType, as_u32, platform_share, host_share, hours_per_day, calculate_hourly_rate,
}
use dest.Base.Text.{Text}
use dest.Billing.Types.{AccountId, BillingEntry, new_entry, entry_verify_split}

module _ ⦃c : Chrono⦄ ⦃d : Decimal⦄ where
  -- `none` is the panic of the division.
  unfoldable pub calculate_hourly :
      Text → c.Time → AccountId → ℕ → DiskType → ℕ → Bool → Option BillingEntry
  calculate_hourly uuid now account_id data_volume_bytes disk_type replication cushion_enabled =
      elim (d.div (d.from data_volume_bytes) (d.dec 1_099_511_627_776 0)) [
        | none ↦ none
        | some data_volume_tb ↦ some (
            new_entry uuid account_id now 1 data_volume_tb
              (calculate_hourly_rate disk_type replication cushion_enabled) (as_u32 disk_type)
              replication cushion_enabled)
      ]

module _ ⦃d : Decimal⦄ where
  pub split_revenue : d.Amount → d.Amount × d.Amount
  split_revenue total =
      let platform = d.mul total platform_share in (platform, d.sub total platform)

  pub verify_split : d.Amount → d.Amount → d.Amount → Bool
  verify_split total platform host = d.eq total (d.add platform host)

  abbrev pub daily_cost : d.Amount → d.Amount → d.Amount
  daily_cost hourly_rate data_volume_tb = d.mul (d.mul hourly_rate data_volume_tb) hours_per_day

  abbrev pub monthly_cost : d.Amount → d.Amount
  monthly_cost daily = d.mul daily (d.dec 30 0)

  abbrev pub is_balance_sufficient : d.Amount → Bool
  is_balance_sufficient balance = gtb balance zero_amount

  -- `none` is the panic of the division.
  abbrev pub remaining_hours : d.Amount → d.Amount → d.Amount → Option d.Amount
  remaining_hours balance hourly_rate data_volume_tb =
      let hourly_cost = d.mul hourly_rate data_volume_tb in
      if d.eq hourly_cost zero_amount then some d.max else d.div balance hourly_cost

  -- The host's share taken as the rest always makes the split exact.
  verify_split-split_revenue :
      (exact : IsExactProduct d) (total : d.Amount)
      → let (platform, host) = split_revenue total in verify_split total platform host ≡ true
  unfolding split_revenue verify_split
  verify_split-split_revenue exact total =
      rw (exact.add_sub (d.mul total platform_share) total, verify_split) (exact.eq_refl total)

module _ ⦃c : Chrono⦄ ⦃d : Decimal⦄ where
  -- Where products are exact, every entry that the calculator makes splits into ten and ninety
  -- percent with nothing lost.
  pub entry_verify_split-calculate_hourly :
      (exact : IsExactProduct d) (uuid : Text) (now : c.Time) (account_id : AccountId) (bytes : ℕ)
      (disk : DiskType) (replication : ℕ) (cushion : Bool) {e : BillingEntry}
      → calculate_hourly uuid now account_id bytes disk replication cushion ≡ some e
      → entry_verify_split e ≡ true
  unfolding calculate_hourly entry_verify_split new_entry
  entry_verify_split-calculate_hourly exact uuid now account_id bytes disk replication cushion {e}
        h =
      ground (
        arith,
        exact.shares e.total_cost,
        exact.mul_add e.total_cost platform_share host_share,
        exact.eq_refl e.total_cost,
      )
