-- ===== src/Billing/Account/Lifecycle.antt =====
-- billing/src/account.rs with freeze.rs: an account from the charge that empties it to its deletion.
use dest.Base.{
  ◌≡◌, ◌≢◌, refl, sym, ap, ◌∙◌, inl, inr, Bool, true, false, Bool-cases, some, List, [], ◌∷◌, not,
  ◌&&◌, ◌||◌, if◌then◌else◌, arith,
}
use dest.Base.Text.{Text}
use dest.Billing.Extern.{Chrono, Decimal, zero_amount, gtb}
use dest.Billing.Freeze.{FreezeState, FreezeManager, state_eq, trigger_freeze, check_export_expiry}
use dest.Billing.Account.{
  BillingAccount, ok, Outside, record_transaction, freeze_if_empty, charge, can_store, can_download,
}
use dest.Billing.Account.Log.{Call, step}
use dest.Billing.Account.Freezing.{step_not_active}

module _ ⦃c : Chrono⦄ ⦃d : Decimal⦄ where
  -- A call that moves money, or a check of the export window at a time.
  pub data Event : Type 0 where
    call : Call → Event
    check : c.Time → Event

  unfoldable pub after : Event → BillingAccount → BillingAccount
  after (Event.call k) a = (step k a).0
  after (Event.check now) a = record a {
    freeze_manager = (check_export_expiry now a.freeze_manager).0;
  }

  unfoldable pub after_all : List Event → BillingAccount → BillingAccount
  after_all [] a = a
  after_all (e ∷ es) a = after_all es (after e a)

  -- Whether one of the checks is made at this time or later.
  abbrev pub checked_from : c.Time → List Event → Bool
  checked_from end [] = false
  checked_from end (Event.call k ∷ es) = checked_from end es
  checked_from end (Event.check now ∷ es) = if c.leb end now then true else checked_from end es

  abbrev at : FreezeState → c.Time → c.Span → FreezeManager
  at state t span = record { state = state; frozen_at = some t; export_duration = span }

  abbrev ended : Bool → FreezeState
  ended b = if b then FreezeState.hard_deleted else FreezeState.frozen_export

  ended-ne-active : (b : Bool) → ended b ≢ FreezeState.active
  ended-ne-active true e = ground arith
  ended-ne-active false e = ground arith

  -- What an account can do that is frozen or deleted.
  ended-powers :
      (b positive : Bool)
      → ((state_eq (ended b) FreezeState.active && positive) ≡ false)
        × ((state_eq (ended b) FreezeState.active || state_eq (ended b) FreezeState.frozen_export)
            ≡ not b)
  ended-powers true positive = (refl, refl)
  ended-powers false positive = (refl, refl)

  call-freeze_manager :
      (k : Call) (a : BillingAccount) (b : Bool) (t : c.Time) (span : c.Span)
      → a.freeze_manager ≡ at (ended b) t span
      → (after (Event.call k) a).freeze_manager ≡ at (ended b) t span
  unfolding after
  call-freeze_manager k a b t span h =
      step_not_active k a (λ e. ended-ne-active b (sym (ap (λ m. m.state) h) ∙ e)) ∙ h

  after_all-deleted :
      (es : List Event) (a : BillingAccount) (t : c.Time) (span : c.Span)
      → a.freeze_manager ≡ at FreezeState.hard_deleted t span
      → (after_all es a).freeze_manager ≡ at FreezeState.hard_deleted t span
  unfolding after_all
  after_all-deleted [] a t span h = h
  after_all-deleted (Event.call k ∷ es) a t span h =
      after_all-deleted es (after (Event.call k) a) t span (call-freeze_manager k a true t span h)
  after_all-deleted (Event.check now ∷ es) a t span h =
      after_all-deleted es (after (Event.check now) a) t span
        (unfold after check_export_expiry in (rw h refl))

  after_all-frozen :
      (es : List Event) (a : BillingAccount) (t : c.Time) (span : c.Span)
      → a.freeze_manager ≡ at FreezeState.frozen_export t span
      → (after_all es a).freeze_manager ≡ at (ended (checked_from (c.plus t span) es)) t span
  unfolding after_all
  after_all-frozen [] a t span h = h
  after_all-frozen (Event.call k ∷ es) a t span h =
      after_all-frozen es (after (Event.call k) a) t span (call-freeze_manager k a false t span h)
  after_all-frozen (Event.check now ∷ es) a t span h =
      elim (Bool-cases (c.leb (c.plus t span) now)) [
        | inl over ↦ rw over (
            after_all-deleted es (after (Event.check now) a) t span
              (unfold after check_export_expiry in (rw (h, over) refl)))
        | inr early ↦ rw early (
            after_all-frozen es (after (Event.check now) a) t span
              (unfold after check_export_expiry in (rw (h, early) refl)))
      ]

  charge-freeze_manager :
      (out : Outside) (amount : d.Amount) (text : Text) (a : BillingAccount)
      → (charge out amount text a).1 ≡ ok
      → a.freeze_manager.state ≡ FreezeState.active
      → d.leb (d.sub a.balance amount) zero_amount ≡ true
      → (charge out amount text a).0.freeze_manager
        ≡ at FreezeState.frozen_export out.now a.freeze_manager.export_duration
  unfolding charge freeze_if_empty record_transaction trigger_freeze
  charge-freeze_manager out amount text a done active empty = ground arith

  -- An active account is charged down to zero or less. Then, whatever deposits, charges, withdrawals and
  -- checks follow, it is deleted if one of the checks comes at the end of the export window or later, and
  -- frozen otherwise. It cannot store, and its data can be downloaded exactly until it is deleted.
  pub after_all-charge :
      (out : Outside) (amount : d.Amount) (text : Text) (a : BillingAccount) (es : List Event)
      → (charge out amount text a).1 ≡ ok
      → a.freeze_manager.state ≡ FreezeState.active
      → d.leb (d.sub a.balance amount) zero_amount ≡ true
      → let b = after_all es (charge out amount text a).0 in
        let over = checked_from (c.plus out.now a.freeze_manager.export_duration) es in
        (b.freeze_manager.state
          ≡ (if over then FreezeState.hard_deleted else FreezeState.frozen_export))
        × (can_store b ≡ false)
        × (can_download b ≡ not over)
  unfolding can_store
  after_all-charge out amount text a es done active empty =
      let span = a.freeze_manager.export_duration in
      let h =
        after_all-frozen es (charge out amount text a).0 out.now span
          (charge-freeze_manager out amount text a done active empty) in
      let over = checked_from (c.plus out.now span) es in
      let positive = gtb (after_all es (charge out amount text a).0).balance zero_amount in
      let powers = ended-powers over positive in rw h (refl, powers.0, powers.1)
