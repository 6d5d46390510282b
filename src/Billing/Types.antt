-- ===== src/Billing/Types.antt =====
-- billing/src/types.rs: identifiers, billing entries and transactions.
use dest.Base.{ℕ, Bool}
use dest.Base.Text.{Text}
use dest.Billing.Extern.{Chrono, Decimal}
use dest.Billing.Rates.{platform_share, host_share}

-- `pub struct AccountId(pub String)`
abbrev pub AccountId : Type 0
AccountId = Text

pub data TransactionType : Type 0 where
  deposit withdrawal billing_charge refund platform_fee host_payout : TransactionType

module _ ⦃c : Chrono⦄ ⦃d : Decimal⦄ where
  pub record Transaction : Type 0 where
    pub id : Text
    pub account_id : AccountId
    pub tx_type : TransactionType
    pub amount : d.Amount
    pub balance_after : d.Amount
    pub timestamp : c.Time
    pub description : Text

  -- One hour of usage, or several.
  pub record BillingEntry : Type 0 where
    pub id : Text
    pub account_id : AccountId
    pub timestamp : c.Time
    pub hours : ℕ
    pub data_volume_tb : d.Amount
    pub hourly_rate : d.Amount
    pub total_cost : d.Amount
    pub platform_fee : d.Amount
    pub host_fee : d.Amount
    pub disk_type : ℕ
    pub replication_factor : ℕ
    pub cushion_enabled : Bool

  -- `BillingEntry::new`; `uuid` is the fresh identifier.
  unfoldable pub new_entry :
      Text → AccountId → c.Time → ℕ → d.Amount → d.Amount → ℕ → ℕ → Bool → BillingEntry
  new_entry uuid account_id timestamp hours data_volume_tb hourly_rate disk_type replication
        cushion =
      let total_cost = d.mul (d.mul hourly_rate data_volume_tb) (d.from hours) in
      record {
        id = uuid;
        account_id = account_id;
        timestamp = timestamp;
        hours = hours;
        data_volume_tb = data_volume_tb;
        hourly_rate = hourly_rate;
        total_cost = total_cost;
        platform_fee = d.mul total_cost platform_share;
        host_fee = d.mul total_cost host_share;
        disk_type = disk_type;
        replication_factor = replication;
        cushion_enabled = cushion;
      }

  -- `BillingEntry::verify_split`
  unfoldable pub entry_verify_split : BillingEntry → Bool
  entry_verify_split e = d.eq (d.add e.platform_fee e.host_fee) e.total_cost
