-- ===== src/Billing/Account/Log.antt =====
-- billing/src/account.rs: the transactions of an account explain its balance.
use dest.Base.{◌≡◌, refl, List, [], ◌∷◌, ◌++◌, arith}
use mathlib.Core.Path.{subst}
use dest.Billing.Extern.{Chrono, Decimal, zero_amount}
use dest.Billing.Freeze
use dest.Base.Text.{Text}
use dest.Billing.Types.{AccountId, TransactionType, Transaction}
use dest.Billing.Account.{
  BillingAccount, Outcome, Outside, record_transaction, deposit, freeze_if_empty, charge,
  request_withdrawal, new,
}

module _ ⦃c : Chrono⦄ ⦃d : Decimal⦄ where
  -- A call of a method that moves money.
  pub data Call : Type 0 where
    deposit_call charge_call withdraw_call : Outside → d.Amount → Text → Call

  unfoldable pub step : Call → BillingAccount → BillingAccount × Outcome
  step (Call.deposit_call out amount text) a = deposit out amount text a
  step (Call.charge_call out amount text) a = charge out amount text a
  step (Call.withdraw_call out amount text) a = request_withdrawal out amount text a

  -- An error is handed to the caller, who goes on.
  unfoldable pub run : List Call → BillingAccount → BillingAccount
  run [] a = a
  run (k ∷ ks) a = run ks (step k a).0

  -- What a kind of transaction does to a balance.
  abbrev pub Moves : TransactionType → d.Amount → d.Amount → d.Amount → Type 0
  Moves TransactionType.deposit before amount after = after ≡ d.add before amount
  Moves TransactionType.withdrawal before amount after = after ≡ d.sub before amount
  Moves TransactionType.billing_charge before amount after = after ≡ d.sub before amount
  Moves _ before amount after = ⊥

  -- From the balance `before` the transactions lead, each by its amount, to the balance `after`.
  abbrev pub IsBooked : d.Amount → List Transaction → d.Amount → Type 0
  IsBooked before [] after = after ≡ before
  IsBooked before (t ∷ ts) after =
      Moves t.tx_type before t.amount t.balance_after × IsBooked t.balance_after ts after

  IsBooked-push :
      (before : d.Amount) (ts : List Transaction) (after : d.Amount) (t : Transaction)
      → IsBooked before ts after
      → Moves t.tx_type after t.amount t.balance_after
      → IsBooked before (ts ++ t ∷ []) t.balance_after
  IsBooked-push before [] after t h m =
      (subst (λ b. Moves t.tx_type b t.amount t.balance_after) h m, refl)
  IsBooked-push before (u ∷ ts) after t h m = (h.0, IsBooked-push u.balance_after ts after t h.1 m)

  -- A transaction of an account whose balance has just moved.
  record_transaction-IsBooked :
      (out : Outside) (kind : TransactionType) (amount after : d.Amount) (text : Text)
      (a : BillingAccount)
      → IsBooked zero_amount a.transactions a.balance
      → Moves kind a.balance amount after
      → let b = record_transaction out kind amount text (record a { balance = after }) in
        IsBooked zero_amount b.transactions b.balance
  unfolding record_transaction
  record_transaction-IsBooked out kind amount after text a h m =
      IsBooked-push zero_amount a.transactions a.balance _ h m

  freeze_if_empty-IsBooked :
      (out : Outside) (a : BillingAccount)
      → IsBooked zero_amount a.transactions a.balance
      → let b = freeze_if_empty out a in IsBooked zero_amount b.transactions b.balance
  unfolding freeze_if_empty
  freeze_if_empty-IsBooked out a h = ground arith

  deposit-IsBooked :
      (out : Outside) (amount : d.Amount) (text : Text) (a : BillingAccount)
      → IsBooked zero_amount a.transactions a.balance
      → let b = (deposit out amount text a).0 in IsBooked zero_amount b.transactions b.balance
  unfolding deposit
  deposit-IsBooked out amount text a h = ground (
    arith,
    record_transaction-IsBooked out TransactionType.deposit amount (d.add a.balance amount) text a,
  )

  step-IsBooked :
      (k : Call) (a : BillingAccount)
      → IsBooked zero_amount a.transactions a.balance
      → IsBooked zero_amount (step k a).0.transactions (step k a).0.balance
  unfolding step charge request_withdrawal
  step-IsBooked (Call.deposit_call out amount text) a h = deposit-IsBooked out amount text a h
  step-IsBooked (Call.charge_call out amount text) a h =
      let after = d.sub a.balance amount in
      let b =
        record_transaction out TransactionType.billing_charge amount text
          (record a { balance = after }) in
      ground (
        arith,
        freeze_if_empty-IsBooked out b,
        record_transaction-IsBooked out TransactionType.billing_charge amount after text a,
      )
  step-IsBooked (Call.withdraw_call out amount text) a h = ground (
    arith,
    record_transaction-IsBooked out TransactionType.withdrawal amount (d.sub a.balance amount) text
        a,
  )

  run-IsBooked_from :
      (ks : List Call) (a : BillingAccount)
      → IsBooked zero_amount a.transactions a.balance
      → IsBooked zero_amount (run ks a).transactions (run ks a).balance
  unfolding run
  run-IsBooked_from [] a h = h
  run-IsBooked_from (k ∷ ks) a h = run-IsBooked_from ks (step k a).0 (step-IsBooked k a h)

  new-IsBooked :
      (out : Outside) (id : AccountId) (text : Text) (initial_deposit : d.Amount)
      → let a = new out id text initial_deposit in IsBooked zero_amount a.transactions a.balance
  unfolding new
  new-IsBooked out id text initial_deposit =
      let a : BillingAccount = record {
        id = id;
        balance = zero_amount;
        transactions = [];
        freeze_manager = Freeze.new;
      } in
      ground (arith, deposit-IsBooked out initial_deposit text a)

  -- After any sequence of deposits, charges and withdrawals on a new account, refused ones included,
  -- the recorded transactions lead from zero to the balance: each states the balance after it, which
  -- is the one before it plus its amount for a deposit, and minus it for a charge or a withdrawal.
  pub run-IsBooked :
      (out : Outside) (id : AccountId) (text : Text) (initial_deposit : d.Amount) (ks : List Call)
      → let a = run ks (new out id text initial_deposit) in
        IsBooked zero_amount a.transactions a.balance
  run-IsBooked out id text initial_deposit ks =
      run-IsBooked_from ks (new out id text initial_deposit)
        (new-IsBooked out id text initial_deposit)
