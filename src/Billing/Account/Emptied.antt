-- ===== src/Billing/Account/Emptied.antt =====
-- billing/src/account.rs with freeze.rs: what the transactions of an account say of its freeze state.
use dest.Base.{
  ◌≡◌, ◌↔◌, refl, sym, ap, Bool, true, false, List, [], ◌∷◌, ◌++◌, not, ◌&&◌, ◌||◌, arith,
}
use dest.Base.Text.{Text}
use dest.Billing.Extern.{Chrono, Decimal, zero_amount, gtb}
use dest.Billing.Rates.{min_withdrawal}
use dest.Billing.Types.{AccountId, TransactionType, Transaction}
use dest.Billing.Freeze.{FreezeState, state_eq, trigger_freeze, check_export_expiry}
use dest.Billing.Freeze
use dest.Billing.Account.{
  BillingAccount, ok, Outside, record_transaction, deposit, freeze_if_empty, charge,
  request_withdrawal, new, can_store,
}
use dest.Billing.Account.Log.{Call, step}
use dest.Billing.Account.Lifecycle.{Event, after, after_all}

abbrev is_charge : TransactionType → Bool
is_charge TransactionType.billing_charge = true
is_charge _ = false

or_false : (a : Bool) → a ≡ (a || false)
or_false a = ground arith

module _ ⦃c : Chrono⦄ ⦃d : Decimal⦄ where
  -- A charge that left nothing, or less.
  abbrev empties : Transaction → Bool
  empties t = is_charge t.tx_type && d.leb t.balance_after zero_amount

  -- Whether one of the transactions is such a charge.
  pub emptied : List Transaction → Bool
  emptied [] = false
  emptied (t ∷ ts) = empties t || emptied ts

  emptied-append :
      (ts : List Transaction) (t : Transaction) → emptied (ts ++ t ∷ []) ≡ (emptied ts || empties t)
  unfolding emptied
  emptied-append [] t = sym (or_false (empties t))
  emptied-append (u ∷ ts) t = ground (arith, emptied-append ts t)

  -- The account is active unless a charge has emptied it.
  abbrev IsAgreed : BillingAccount → Type 0
  IsAgreed a = state_eq a.freeze_manager.state FreezeState.active ≡ not (emptied a.transactions)

  deposit-IsAgreed :
      (out : Outside) (amount : d.Amount) (text : Text) (a : BillingAccount)
      → IsAgreed a
      → IsAgreed (deposit out amount text a).0
  unfolding deposit record_transaction
  deposit-IsAgreed out amount text a h = grind (arith, emptied-append)

  call-IsAgreed : (k : Call) (a : BillingAccount) → IsAgreed a → IsAgreed (step k a).0
  unfolding step charge freeze_if_empty request_withdrawal record_transaction trigger_freeze
  call-IsAgreed (Call.deposit_call out amount text) a h = deposit-IsAgreed out amount text a h
  call-IsAgreed (Call.charge_call out amount text) a h = grind (arith, emptied-append)
  call-IsAgreed (Call.withdraw_call out amount text) a h = grind (arith, emptied-append)

  check-IsAgreed :
      (now : c.Time) (a : BillingAccount) → IsAgreed a → IsAgreed (after (Event.check now) a)
  unfolding after check_export_expiry
  check-IsAgreed now a h = ground arith

  after_all-IsAgreed :
      (es : List Event) (a : BillingAccount) → IsAgreed a → IsAgreed (after_all es a)
  unfolding after_all after
  after_all-IsAgreed [] a h = h
  after_all-IsAgreed (Event.call k ∷ es) a h =
      after_all-IsAgreed es (step k a).0 (call-IsAgreed k a h)
  after_all-IsAgreed (Event.check now ∷ es) a h =
      after_all-IsAgreed es (after (Event.check now) a) (check-IsAgreed now a h)

  new-IsAgreed :
      (out : Outside) (id : AccountId) (text : Text) (initial_deposit : d.Amount)
      → IsAgreed (new out id text initial_deposit)
  unfolding new emptied Freeze.new
  new-IsAgreed out id text initial_deposit =
      let a : BillingAccount = record {
        id = id;
        balance = zero_amount;
        transactions = [];
        freeze_manager = Freeze.new;
      } in
      ground (arith, deposit-IsAgreed out initial_deposit text a refl)

  withdrawal-IsAgreed :
      (out : Outside) (amount : d.Amount) (text : Text) (a : BillingAccount)
      → IsAgreed a
      → ((request_withdrawal out amount text a).1 ≡ ok) ↔ (
          (d.leb min_withdrawal amount ≡ true)
          × (d.leb amount a.balance ≡ true)
          × (emptied a.transactions ≡ false))
  unfolding request_withdrawal
  withdrawal-IsAgreed out amount text a h = ground arith

  -- After any sequence of deposits, charges, withdrawals and checks on a new account, refused ones included, it is active exactly if no charge in its log left zero or less, and then it can store where the balance is positive, and can withdraw any amount from the minimum of 100 up to the balance; otherwise it can do neither.
  pub after_all-new :
      (made now : Outside) (id : AccountId) (about text : Text) (initial_deposit amount : d.Amount)
      (es : List Event)
      → let a = after_all es (new made id about initial_deposit) in
        (state_eq a.freeze_manager.state FreezeState.active ≡ not (emptied a.transactions))
        × (can_store a ≡ (not (emptied a.transactions) && gtb a.balance zero_amount))
        × (((request_withdrawal now amount text a).1 ≡ ok) ↔ (
            (d.leb min_withdrawal amount ≡ true)
            × (d.leb amount a.balance ≡ true)
            × (emptied a.transactions ≡ false)))
  unfolding can_store
  after_all-new made now id about text initial_deposit amount es =
      let a = after_all es (new made id about initial_deposit) in
      let h =
        after_all-IsAgreed es (new made id about initial_deposit)
          (new-IsAgreed made id about initial_deposit) in
      (h, ap (λ b. b && gtb a.balance zero_amount) h, withdrawal-IsAgreed now amount text a h)
