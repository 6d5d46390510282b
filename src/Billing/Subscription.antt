-- ===== src/Billing/Subscription.antt =====
-- billing/src/subscription.rs: the tiers and `SubscriptionManager`. `Utc::now()` is an argument.
pub mod Laws
use dest.Base.{ℕ, ◌%◌, ◌^◌, Bool, true, false, Option, none, some, [], ◌∷◌, ltb, not, if◌then◌else◌}
use dest.Base.Int.{ℤ, pos, pos_part, max_zero}
use dest.Base.Text.{Text, bytes_eq}
use dest.Billing.Extern.{Chrono, Decimal}

pub data SubscriptionTier : Type 0 where
  archive standard premium : SubscriptionTier

-- `==` on tiers.
abbrev pub same_tier : SubscriptionTier → SubscriptionTier → Bool
same_tier SubscriptionTier.archive SubscriptionTier.archive = true
same_tier SubscriptionTier.standard SubscriptionTier.standard = true
same_tier SubscriptionTier.premium SubscriptionTier.premium = true
same_tier _ _ = false

abbrev pub archive_name : Text
archive_name = b'a' ∷ b'r' ∷ b'c' ∷ b'h' ∷ b'i' ∷ b'v' ∷ b'e' ∷ []

abbrev pub standard_name : Text
standard_name = b's' ∷ b't' ∷ b'a' ∷ b'n' ∷ b'd' ∷ b'a' ∷ b'r' ∷ b'd' ∷ []

abbrev pub premium_name : Text
premium_name = b'p' ∷ b'r' ∷ b'e' ∷ b'm' ∷ b'i' ∷ b'u' ∷ b'm' ∷ []

abbrev pub name : SubscriptionTier → Text
name SubscriptionTier.archive = archive_name
name SubscriptionTier.standard = standard_name
name SubscriptionTier.premium = premium_name

abbrev pub weight : SubscriptionTier → ℕ
weight SubscriptionTier.archive = 1
weight SubscriptionTier.standard = 2
weight SubscriptionTier.premium = 3

-- Zero is no limit.
abbrev pub upload_rate_limit : SubscriptionTier → ℕ
upload_rate_limit SubscriptionTier.archive = 10
upload_rate_limit SubscriptionTier.standard = 50
upload_rate_limit SubscriptionTier.premium = 0

abbrev pub download_rate_limit : SubscriptionTier → ℕ
download_rate_limit SubscriptionTier.archive = 20
download_rate_limit SubscriptionTier.standard = 100
download_rate_limit SubscriptionTier.premium = 0

abbrev pub max_replication_threads : SubscriptionTier → ℕ
max_replication_threads SubscriptionTier.archive = 1
max_replication_threads SubscriptionTier.standard = 3
max_replication_threads SubscriptionTier.premium = 8

pub from_name : Text → SubscriptionTier
from_name s =
    if bytes_eq s standard_name
    then SubscriptionTier.standard
    else if bytes_eq s premium_name
    then SubscriptionTier.premium
    else SubscriptionTier.archive

module _ ⦃d : Decimal⦄ where
  abbrev pub price_monthly : SubscriptionTier → d.Amount
  price_monthly SubscriptionTier.archive = d.dec 0 2
  price_monthly SubscriptionTier.standard = d.dec 19900 2
  price_monthly SubscriptionTier.premium = d.dec 49900 2

  abbrev pub sla_uptime : SubscriptionTier → d.Amount
  sla_uptime SubscriptionTier.archive = d.dec 990 1
  sla_uptime SubscriptionTier.standard = d.dec 999 1
  sla_uptime SubscriptionTier.premium = d.dec 9999 2

module _ ⦃c : Chrono⦄ where
  pub record SubscriptionState : Type 0 where
    pub tier : SubscriptionTier
    pub started_at : c.Time
    pub paid_until : c.Time
    pub auto_renew : Bool

  -- `SubscriptionState::is_active`, and the manager's, which is that of its state.
  abbrev pub is_active : c.Time → SubscriptionState → Bool
  is_active now s = not (c.leb s.paid_until now)

  pub days_remaining : c.Time → SubscriptionState → ℤ
  days_remaining now s = max_zero (c.num_days s.paid_until now)

  pub record SubscriptionManager : Type 0 where
    pub current : SubscriptionState

  -- `SubscriptionManager::new`
  unfoldable pub new : c.Time → SubscriptionManager
  new now = record {
    current = record {
      tier = SubscriptionTier.archive;
      started_at = now;
      paid_until = now;
      auto_renew = false;
    };
  }

  -- `subscribe`, which always returns Ok.
  pub subscribe : c.Time → SubscriptionTier → SubscriptionManager → SubscriptionManager
  subscribe now tier m = record {
    current = record {
      tier = tier;
      started_at = now;
      paid_until = c.plus now (c.days (pos 30));
      auto_renew = true;
    };
  }

  -- `days_remaining() as u32`
  abbrev pub remaining : c.Time → SubscriptionManager → ℕ
  remaining now m = pos_part (days_remaining now m.current) % 2 ^ 32

module _ ⦃d : Decimal⦄ where
  -- `same` is the error; `panicked` is a failed division, or an overflow of `30 - remaining_days`
  -- where overflow is checked.
  pub data Changed : Type 0 where
    same panicked : Changed
    net_amount : d.Amount → Changed

  -- The price of so many days.
  abbrev pub daily : ℕ → Option d.Amount → Option d.Amount
  daily remaining_days none = none
  daily remaining_days (some a) = some (d.mul a (d.from remaining_days))

  abbrev pub pro_rata : SubscriptionTier → ℕ → Option d.Amount
  pro_rata tier remaining_days = daily remaining_days (d.div (price_monthly tier) (d.dec 30 0))

  -- `charge - refund`
  abbrev pub net : Option d.Amount → Option d.Amount → Option d.Amount
  net (some charge) (some refund) = some (d.sub charge refund)
  net _ _ = none

module _ ⦃c : Chrono⦄ ⦃d : Decimal⦄ where
  abbrev pub settle :
      c.Time
      → SubscriptionTier
      → ℕ
      → Option d.Amount
      → SubscriptionManager
      → SubscriptionManager × Changed
  settle now new_tier remaining_days none m = (m, panicked)
  settle now new_tier remaining_days (some amount) m = (
    record {
      current = record {
        tier = new_tier;
        started_at = m.current.started_at;
        paid_until = c.plus now (c.days (pos remaining_days));
        auto_renew = true;
      };
    },
    net_amount amount,
  )

  pub change_tier : c.Time → SubscriptionTier → SubscriptionManager → SubscriptionManager × Changed
  change_tier now new_tier m =
      if same_tier m.current.tier new_tier
      then (m, same)
      else if ltb 30 (remaining now m)
      then (m, panicked)
      else settle now new_tier (remaining now m)
          (net (pro_rata new_tier (remaining now m)) (pro_rata m.current.tier (remaining now m))) m
