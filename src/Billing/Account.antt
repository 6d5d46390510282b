-- ===== src/Billing/Account.antt =====
-- billing/src/account.rs: `BillingAccount`. What a call reads from
-- outside, the time and a fresh identifier, is an argument of the method.
pub mod Log
pub mod Freezing
pub mod Lifecycle
pub mod Emptied
use dest.Base.{Bool, List, [], ◌∷◌, ◌++◌, ◌&&◌, ◌||◌, not, if◌then◌else◌}
use dest.Billing.Extern.{Chrono, Decimal, zero_amount, gtb, ltb_amount}
use dest.Billing.Freeze.{FreezeState, FreezeManager, state_eq, trigger_freeze}
use dest.Billing.Freeze
use dest.Billing.Rates.{min_withdrawal}
use dest.Base.Text.{Text}
use dest.Billing.Types.{AccountId, TransactionType, Transaction}

-- The texts of `anyhow::bail!`.
pub data Error : Type 0 where
  not_positive deleted below_minimum insufficient not_active : Error

pub data Outcome : Type 0 where
  ok : Outcome
  err : Error → Outcome

module _ ⦃c : Chrono⦄ ⦃d : Decimal⦄ where
  -- `transactions` is a deque, its front first.
  pub record BillingAccount : Type 0 where
    pub id : AccountId
    pub balance : d.Amount
    pub transactions : List Transaction
    pub freeze_manager : FreezeManager

  -- `Utc::now()` and `Uuid::new_v4()` at a call.
  pub record Outside : Type 0 where
    pub now : c.Time
    pub uuid : Text

  unfoldable pub record_transaction :
      Outside → TransactionType → d.Amount → Text → BillingAccount → BillingAccount
  record_transaction out kind amount text a = record a {
    transactions =
        a.transactions
        ++ record {
          id = out.uuid;
          account_id = a.id;
          tx_type = kind;
          amount = amount;
          balance_after = a.balance;
          timestamp = out.now;
          description = text;
        }
          ∷ [];
  }

  unfoldable pub deposit : Outside → d.Amount → Text → BillingAccount → BillingAccount × Outcome
  deposit out amount text a =
      if d.leb amount zero_amount
      then (a, err not_positive)
      else if state_eq a.freeze_manager.state FreezeState.hard_deleted
      then (a, err deleted)
      else (
        record_transaction out TransactionType.deposit amount text
            (record a { balance = d.add a.balance amount }),
        ok,
      )

  -- The freeze test at the end of `charge`.
  unfoldable pub freeze_if_empty : Outside → BillingAccount → BillingAccount
  freeze_if_empty out a =
      if d.leb a.balance zero_amount
      then record a { freeze_manager = trigger_freeze out.now a.freeze_manager }
      else a

  unfoldable pub charge : Outside → d.Amount → Text → BillingAccount → BillingAccount × Outcome
  charge out amount text a = if d.leb amount zero_amount then (a, err not_positive) else (
    freeze_if_empty out (
        record_transaction out TransactionType.billing_charge amount text
          (record a { balance = d.sub a.balance amount })),
    ok,
  )

  unfoldable pub request_withdrawal :
      Outside → d.Amount → Text → BillingAccount → BillingAccount × Outcome
  request_withdrawal out amount text a =
      if ltb_amount amount min_withdrawal
      then (a, err below_minimum)
      else if gtb amount a.balance
      then (a, err insufficient)
      else if not (state_eq a.freeze_manager.state FreezeState.active)
      then (a, err not_active)
      else (
        record_transaction out TransactionType.withdrawal amount text
            (record a { balance = d.sub a.balance amount }),
        ok,
      )

  -- `BillingAccount::new`. The `unwrap` of the first deposit cannot fail: its two guards pass.
  unfoldable pub new : Outside → AccountId → Text → d.Amount → BillingAccount
  new out id text initial_deposit =
      let a : BillingAccount = record {
        id = id;
        balance = zero_amount;
        transactions = [];
        freeze_manager = Freeze.new;
      } in
      if gtb initial_deposit zero_amount then (deposit out initial_deposit text a).0 else a

  abbrev pub freeze_state : BillingAccount → FreezeState
  freeze_state a = a.freeze_manager.state

  pub can_store : BillingAccount → Bool
  can_store a = state_eq a.freeze_manager.state FreezeState.active && gtb a.balance zero_amount

  abbrev pub can_download : BillingAccount → Bool
  can_download a =
      state_eq a.freeze_manager.state FreezeState.active
      || state_eq a.freeze_manager.state FreezeState.frozen_export
