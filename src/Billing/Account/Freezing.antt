-- ===== src/Billing/Account/Freezing.antt =====
-- billing/src/account.rs: when an account is frozen, and what its balance is while it is active.
use dest.Base.{◌≡◌, ◌≢◌, ◌↔◌, false, true, refl, List, [], ◌∷◌, ◌∙◌, sym, ap, arith}
use dest.Billing.Extern.{Chrono, Decimal, IsExact, leb_refl, zero_amount}
use dest.Billing.Freeze.{FreezeState, trigger_freeze}
use dest.Billing.Freeze
use dest.Billing.Rates.{min_withdrawal}
use dest.Base.Text.{Text}
use dest.Billing.Types.{AccountId}
use dest.Billing.Account.{
  BillingAccount, ok, Outside, record_transaction, deposit, freeze_if_empty, charge,
  request_withdrawal, new, can_store,
}
use dest.Billing.Account.Log.{Call, step, run}

module _ ⦃c : Chrono⦄ ⦃d : Decimal⦄ where
  -- A successful charge of an active account lowers its balance by the amount, and freezes it exactly
  -- if the balance is then zero or less.
  pub charge-freezes :
      (out : Outside) (amount : d.Amount) (text : Text) (a : BillingAccount)
      → (charge out amount text a).1 ≡ ok
      → a.freeze_manager.state ≡ FreezeState.active
      → let b = (charge out amount text a).0 in
        (b.balance ≡ d.sub a.balance amount)
        × ((b.freeze_manager.state ≡ FreezeState.frozen_export)
            ↔ (d.leb (d.sub a.balance amount) zero_amount ≡ true))
  unfolding charge freeze_if_empty record_transaction trigger_freeze
  charge-freezes out amount text a done active = ground arith

  -- A withdrawal succeeds exactly if it is asked of an active account, for at least the minimum of 100
  -- and at most the balance.
  request_withdrawal-ok_iff :
      (out : Outside) (amount : d.Amount) (text : Text) (a : BillingAccount)
      → ((request_withdrawal out amount text a).1 ≡ ok) ↔ (
          (d.leb min_withdrawal amount ≡ true)
          × (d.leb amount a.balance ≡ true)
          × (a.freeze_manager.state ≡ FreezeState.active))
  unfolding request_withdrawal
  request_withdrawal-ok_iff out amount text a = ground arith

  -- A deposit, charge or withdrawal that returns an error leaves the account as it was.
  pub step-err : (k : Call) (a : BillingAccount) → (step k a).1 ≢ ok → (step k a).0 ≡ a
  unfolding step deposit charge request_withdrawal
  step-err (Call.deposit_call out amount text) a h = ground arith
  step-err (Call.charge_call out amount text) a h = ground arith
  step-err (Call.withdraw_call out amount text) a h = ground arith

  pub step_not_active :
      (k : Call) (a : BillingAccount)
      → a.freeze_manager.state ≢ FreezeState.active
      → (step k a).0.freeze_manager ≡ a.freeze_manager
  unfolding step deposit charge freeze_if_empty request_withdrawal record_transaction trigger_freeze
  step_not_active (Call.deposit_call out amount text) a h = ground arith
  step_not_active (Call.charge_call out amount text) a h = ground arith
  step_not_active (Call.withdraw_call out amount text) a h = ground arith

  -- No sequence of deposits, charges and withdrawals changes the freeze state of an account that is not
  -- active: a deposit does not unfreeze it.
  pub run_not_active :
      (ks : List Call) (a : BillingAccount)
      → a.freeze_manager.state ≢ FreezeState.active
      → (run ks a).freeze_manager ≡ a.freeze_manager
  unfolding run
  run_not_active [] a h = refl
  run_not_active (k ∷ ks) a h =
      let same = step_not_active k a h in
      run_not_active ks (step k a).0 (λ e. h (ap (λ m. m.state) (sym same) ∙ e)) ∙ same

module _ ⦃c : Chrono⦄ ⦃d : Decimal⦄ (exact : IsExact d) where
  -- An active account is not overdrawn.
  abbrev IsSolvent : BillingAccount → Type 0
  IsSolvent a = a.freeze_manager.state ≡ FreezeState.active → d.leb zero_amount a.balance ≡ true

  deposit-IsSolvent :
      (out : Outside) (amount : d.Amount) (text : Text) (a : BillingAccount)
      → IsSolvent a
      → IsSolvent (deposit out amount text a).0
  unfolding deposit record_transaction
  deposit-IsSolvent out amount text a h =
      ground (arith, exact.add_nonneg a.balance amount, exact.leb_total amount zero_amount)

  step-IsSolvent : (k : Call) (a : BillingAccount) → IsSolvent a → IsSolvent (step k a).0
  unfolding step charge freeze_if_empty request_withdrawal record_transaction trigger_freeze
  step-IsSolvent (Call.deposit_call out amount text) a h = deposit-IsSolvent out amount text a h
  step-IsSolvent (Call.charge_call out amount text) a h =
      ground (arith, exact.leb_total (d.sub a.balance amount) zero_amount)
  step-IsSolvent (Call.withdraw_call out amount text) a h =
      ground (arith, exact.sub_nonneg a.balance amount)

  new-IsSolvent :
      (out : Outside) (id : AccountId) (text : Text) (initial_deposit : d.Amount)
      → IsSolvent (new out id text initial_deposit)
  unfolding new
  new-IsSolvent out id text initial_deposit =
      let a : BillingAccount = record {
        id = id;
        balance = zero_amount;
        transactions = [];
        freeze_manager = Freeze.new;
      } in
      ground (
        arith,
        leb_refl exact zero_amount,
        deposit-IsSolvent out initial_deposit text a (λ _. leb_refl exact zero_amount),
      )

  run-IsSolvent_from : (ks : List Call) (a : BillingAccount) → IsSolvent a → IsSolvent (run ks a)
  unfolding run
  run-IsSolvent_from [] a h = h
  run-IsSolvent_from (k ∷ ks) a h = run-IsSolvent_from ks (step k a).0 (step-IsSolvent k a h)

  -- Where amounts are exact, an account that is active after any sequence of deposits, charges and
  -- withdrawals has a balance of zero or more.
  pub run_solvent :
      (out : Outside) (id : AccountId) (text : Text) (initial_deposit : d.Amount) (ks : List Call)
      → (run ks (new out id text initial_deposit)).freeze_manager.state ≡ FreezeState.active
      → d.leb zero_amount (run ks (new out id text initial_deposit)).balance ≡ true
  run_solvent out id text initial_deposit ks =
      run-IsSolvent_from ks (new out id text initial_deposit)
        (new-IsSolvent out id text initial_deposit)

  -- Where amounts are exact, an active account with 100 or more can withdraw all of it: then the
  -- balance is zero, the account cannot store, and it is still active, not frozen.
  pub request_withdrawal_all :
      (out : Outside) (text : Text) (a : BillingAccount)
      → a.freeze_manager.state ≡ FreezeState.active
      → d.leb min_withdrawal a.balance ≡ true
      → let (b, r) = request_withdrawal out a.balance text a in
        (r ≡ ok)
        × (b.balance ≡ zero_amount)
        × (b.freeze_manager.state ≡ FreezeState.active)
        × (can_store b ≡ false)
  unfolding request_withdrawal record_transaction can_store
  request_withdrawal_all out text a active enough =
      ground (arith, leb_refl exact a.balance, exact.sub_self a.balance, leb_refl exact zero_amount)
