-- ===== src/Billing/Tests.antt =====
-- The theorems on billing/src at small inputs, and the interfaces of its crates at concrete functions.
pub mod Crates
use dest.Base.{
  ◌≤◌, ◌+◌, ◌≡◌, ◌≢◌, ◌↔◌, refl, true, false, none, some, List, [], ◌∷◌, not, if◌then◌else◌, arith,
  ◌&&◌,
}
use dest.Base.Int.{ℤ, pos, ◌+ℤ◌, ◌-ℤ◌, leb_ℤ}
use dest.Billing.Extern.{zero_amount, gtb}
use dest.Billing.Subscription.{
  SubscriptionTier, Changed, price_monthly, pro_rata, remaining, subscribe, change_tier,
}
use dest.Billing.Subscription as Subscription
use dest.Billing.Subscription.Laws.{change_tier-subscribe}
use dest.Billing.Freeze.{FreezeState, FreezeManager, state_eq}
use dest.Billing.Freeze
use dest.Billing.Freeze.Laws as Life
use dest.Billing.Rates.{min_withdrawal}
use dest.Billing.Account.{
  BillingAccount, Outside, ok, deposit, charge, freeze_if_empty, record_transaction,
  request_withdrawal, new, can_store, can_download,
}
use dest.Billing.Account.Log.{Call, step, run, IsBooked, run-IsBooked}
use dest.Billing.Account.Freezing.{run_solvent}
use dest.Billing.Account.Emptied.{emptied, after_all-new}
use dest.Billing.Account.Lifecycle.{Event, after_all, checked_from, after_all-charge}
use dest.Billing.Tests.Crates.{chrono, decimal, eq_ℤ, div_ℤ, exact}

abbrev frozen_at_ten : FreezeManager
frozen_at_ten = record {
  state = FreezeState.frozen_export;
  frozen_at = some (pos 10);
  export_duration = pos 100;
}

abbrev outside : Outside
outside = record { now = pos 10; uuid = 1 ∷ [] }

abbrev account : ℤ → FreezeManager → BillingAccount
account balance manager = record {
  id = 7 ∷ [];
  balance = balance;
  transactions = [];
  freeze_manager = manager;
}

abbrev active_manager : FreezeManager
active_manager = record frozen_at_ten { state = FreezeState.active; frozen_at = none }

abbrev some_calls : List Call
some_calls =
    Call.charge_call outside (pos 30) []
    ∷ Call.withdraw_call outside (pos 500) []
    ∷ Call.withdraw_call outside (pos 150) []
    ∷ Call.charge_call outside (pos 40) []
    ∷ Call.deposit_call outside (pos 40) []
    ∷ []

run-IsBooked_example :
    let a = run some_calls (new outside (7 ∷ []) [] (pos 200)) in
    IsBooked zero_amount a.transactions a.balance
run-IsBooked_example = run-IsBooked outside (7 ∷ []) [] (pos 200) some_calls

-- The withdrawals of this account are refused or leave it active.
abbrev few_calls : List Call
few_calls =
    Call.charge_call outside (pos 30) []
    ∷ Call.withdraw_call outside (pos 150) []
    ∷ Call.deposit_call outside (pos 40) []
    ∷ []

few_calls-active :
    (run few_calls (new outside (7 ∷ []) [] (pos 200))).freeze_manager.state ≡ FreezeState.active
unfolding run step new deposit charge request_withdrawal freeze_if_empty record_transaction ◌-ℤ◌
    Freeze.new ◌+ℤ◌
few_calls-active = refl

run_solvent_example :
    leb_ℤ zero_amount (run few_calls (new outside (7 ∷ []) [] (pos 200))).balance ≡ true
run_solvent_example = run_solvent exact outside (7 ∷ []) [] (pos 200) few_calls few_calls-active

-- A deposit comes too late, and the second check deletes the account.
abbrev events : List Event
events =
    Event.call (Call.deposit_call outside (pos 500) [])
    ∷ Event.check (pos 50)
    ∷ Event.check (pos 120)
    ∷ []

charge-emptied :
    ((charge outside (pos 40) [] (account (pos 30) active_manager)).1 ≡ ok)
    × (leb_ℤ (pos 30 -ℤ pos 40) zero_amount ≡ true)
unfolding charge ◌-ℤ◌
charge-emptied = (refl, refl)

after_all-charge_example :
    let b = after_all events (charge outside (pos 40) [] (account (pos 30) active_manager)).0 in
    let over = checked_from (pos 10 +ℤ pos 100) events in
    (b.freeze_manager.state
      ≡ (if over then FreezeState.hard_deleted else FreezeState.frozen_export))
    × (can_store b ≡ false)
    × (can_download b ≡ not over)
after_all-charge_example =
    after_all-charge outside (pos 40) [] (account (pos 30) active_manager) events charge-emptied.0
      refl charge-emptied.1

-- A check comes before the account is emptied, and a deposit after it.
abbrev many_events : List Event
many_events =
    Event.call (Call.charge_call outside (pos 30) [])
    ∷ Event.check (pos 500)
    ∷ Event.call (Call.withdraw_call outside (pos 150) [])
    ∷ Event.call (Call.charge_call outside (pos 20) [])
    ∷ Event.call (Call.deposit_call outside (pos 300) [])
    ∷ []

after_all-new_example :
    let a = after_all many_events (new outside (7 ∷ []) [] (pos 200)) in
    (state_eq a.freeze_manager.state FreezeState.active ≡ not (emptied a.transactions))
    × (can_store a ≡ (not (emptied a.transactions) && gtb a.balance zero_amount))
    × (((request_withdrawal outside (pos 150) [] a).1 ≡ ok) ↔ (
        (leb_ℤ min_withdrawal (pos 150) ≡ true)
        × (leb_ℤ (pos 150) a.balance ≡ true)
        × (emptied a.transactions ≡ false)))
after_all-new_example = after_all-new outside outside (7 ∷ []) [] [] (pos 200) (pos 150) many_events

prices_div : (k : SubscriptionTier) → div_ℤ (price_monthly k) (pos 30) ≢ none
unfolding div_ℤ eq_ℤ
prices_div SubscriptionTier.archive = ground arith
prices_div SubscriptionTier.standard = ground arith
prices_div SubscriptionTier.premium = ground arith

-- Ten days into a month.
change_tier-subscribe_example :
    let m = subscribe (pos 0) SubscriptionTier.standard (Subscription.new (pos 0)) in
    let (m', r) = change_tier (pos 864000) SubscriptionTier.premium m in
    let days = remaining (pos 864000) m in
    (days ≤ 30)
    × (m'.current.tier ≡ SubscriptionTier.premium)
    × ((charge refund : ℤ) × (pro_rata SubscriptionTier.premium days ≡ some charge)
        × (pro_rata SubscriptionTier.standard days ≡ some refund)
        × (r ≡ Changed.net_amount (charge -ℤ refund)))
change_tier-subscribe_example =
    change_tier-subscribe (pos 0) (pos 864000) SubscriptionTier.standard SubscriptionTier.premium
      (Subscription.new (pos 0)) prices_div refl refl
