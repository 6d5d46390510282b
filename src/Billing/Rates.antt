-- ===== src/Billing/Rates.antt =====
-- billing/src/rates.rs: the tariff.
use dest.Base.{ℕ, Bool, if◌then◌else◌, ◌==◌}
use dest.Billing.Extern.{Decimal}

module _ ⦃d : Decimal⦄ where
  abbrev pub base_rate_per_tb_hour : d.Amount
  base_rate_per_tb_hour = d.dec 30 2

  abbrev pub platform_share : d.Amount
  platform_share = d.dec 10 2

  abbrev pub host_share : d.Amount
  host_share = d.dec 90 2

  abbrev pub cushion_multiplier : d.Amount
  cushion_multiplier = d.dec 125 2

  abbrev pub hours_per_day : d.Amount
  hours_per_day = d.dec 24 0

  -- `rates::MIN_WITHDRAWAL`
  abbrev pub min_withdrawal : d.Amount
  min_withdrawal = d.dec 10000 2

pub data DiskType : Type 0 where
  hdd ssd nvme : DiskType

-- `disk_type as u32`
abbrev pub as_u32 : DiskType → ℕ
as_u32 DiskType.hdd = 1
as_u32 DiskType.ssd = 2
as_u32 DiskType.nvme = 3

abbrev pub from_u32 : ℕ → DiskType
from_u32 v =
    if v == 1
    then DiskType.hdd
    else if v == 2
    then DiskType.ssd
    else if v == 3
    then DiskType.nvme
    else DiskType.hdd

module _ ⦃d : Decimal⦄ where
  abbrev pub disk_multiplier : DiskType → d.Amount
  disk_multiplier DiskType.hdd = d.dec 10 1
  disk_multiplier DiskType.ssd = d.dec 15 1
  disk_multiplier DiskType.nvme = d.dec 20 1

  -- `ReplicationFactor::multiplier`
  abbrev pub replication_multiplier : ℕ → d.Amount
  replication_multiplier replicas = d.from replicas

  abbrev pub calculate_hourly_rate : DiskType → ℕ → Bool → d.Amount
  calculate_hourly_rate disk_type replication cushion_enabled =
      let rate =
        d.mul (d.mul base_rate_per_tb_hour (replication_multiplier replication))
          (disk_multiplier disk_type) in
      if cushion_enabled then d.mul rate cushion_multiplier else rate
