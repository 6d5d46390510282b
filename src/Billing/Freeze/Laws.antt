-- ===== src/Billing/Freeze/Laws.antt =====
-- billing/src/freeze.rs: the lifecycle Active, FrozenExport, HardDeleted over any sequence of calls.
use dest.Base.{◌≡◌, ◌≢◌, ◌↔◌, ◌⊎◌, true, Option, none, some, refl, ◌∙◌, List, [], ◌∷◌, arith}
use dest.Base.Int.{ℤ, pos, max_zero_of_le}
use dest.Billing.Extern.{Chrono}
use dest.Billing.Freeze.{
  FreezeState, FreezeManager, with_export_duration, trigger_freeze, check_export_expiry,
  window_over, seconds_left, remaining_export_seconds, unfreeze,
}

module _ ⦃c : Chrono⦄ where
  -- A call of a method that changes the state, with its time.
  pub data Call : Type 0 where
    trigger : c.Time → Call
    check : c.Time → Call
    lift : Call

  unfoldable pub step : Call → FreezeManager → FreezeManager
  step (Call.trigger now) m = trigger_freeze now m
  step (Call.check now) m = (check_export_expiry now m).0
  step Call.lift m = unfreeze m

  unfoldable pub run : List Call → FreezeManager → FreezeManager
  run [] m = m
  run (k ∷ ks) m = run ks (step k m)

  -- The call is an expiry check at the end of the window or later.
  abbrev pub IsExpiry : Call → FreezeManager → Type 0
  IsExpiry (Call.trigger now) m = ⊥
  IsExpiry (Call.check now) m = window_over now m.frozen_at m.export_duration ≡ true
  IsExpiry Call.lift m = ⊥

  -- An account is deleted by a call exactly if it was deleted before, or it was frozen and the call
  -- checks the expiry when the export window is over.
  pub step-hard_deleted_iff :
      (k : Call) (m : FreezeManager)
      → ((step k m).state ≡ FreezeState.hard_deleted) ↔ (
          (m.state ≡ FreezeState.hard_deleted)
          ⊎ (m.state ≡ FreezeState.frozen_export) × IsExpiry k m)
  unfolding step trigger_freeze check_export_expiry unfreeze
  step-hard_deleted_iff (Call.trigger now) m = ground arith
  step-hard_deleted_iff (Call.check now) m = ground arith
  step-hard_deleted_iff Call.lift m = ground arith

  -- The time of the freeze is kept while the account is frozen, and only then or when it is deleted.
  abbrev pub IsTimed : FreezeState → Option c.Time → Type 0
  IsTimed FreezeState.active at = at ≡ none
  IsTimed FreezeState.frozen_export at = at ≢ none
  IsTimed FreezeState.hard_deleted at = at ≢ none

  step-IsTimed :
      (k : Call) (m : FreezeManager)
      → IsTimed m.state m.frozen_at
      → IsTimed (step k m).state (step k m).frozen_at
  unfolding step trigger_freeze check_export_expiry unfreeze
  step-IsTimed (Call.trigger now) m h = ground arith
  step-IsTimed (Call.check now) m h = ground arith
  step-IsTimed Call.lift m h = ground arith

  step-hard_deleted :
      (k : Call) (m : FreezeManager) → m.state ≡ FreezeState.hard_deleted → step k m ≡ m
  unfolding step trigger_freeze check_export_expiry unfreeze
  step-hard_deleted (Call.trigger now) m h = rw (h, trigger_freeze)
  step-hard_deleted (Call.check now) m h = rw (h, check_export_expiry)
  step-hard_deleted Call.lift m h = rw (h, unfreeze)

  run-IsTimed_from :
      (ks : List Call) (m : FreezeManager)
      → IsTimed m.state m.frozen_at
      → IsTimed (run ks m).state (run ks m).frozen_at
  unfolding run
  run-IsTimed_from [] m h = h
  run-IsTimed_from (k ∷ ks) m h = run-IsTimed_from ks (step k m) (step-IsTimed k m h)

  -- After any calls on a new manager the time of the freeze is set if the account is frozen or
  -- deleted, and is not set if it is active.
  run-IsTimed :
      (hours : ℤ) (ks : List Call)
      → let m = run ks (with_export_duration hours) in IsTimed m.state m.frozen_at
  run-IsTimed hours ks =
      run-IsTimed_from ks (with_export_duration hours) (unfold with_export_duration in refl)

  -- A deleted account is left as it is by any calls: no freeze, check or deposit revives it.
  run-hard_deleted :
      (ks : List Call) (m : FreezeManager) → m.state ≡ FreezeState.hard_deleted → run ks m ≡ m
  unfolding run
  run-hard_deleted [] m h = refl
  run-hard_deleted (k ∷ ks) m h =
      let kept = step-hard_deleted k m h in run-hard_deleted ks (step k m) (rw kept h) ∙ kept

  seconds_left_past :
      (now : c.Time) (at : Option c.Time) (span : c.Span)
      → window_over now at span ≡ true
      → seconds_left now at span ≡ pos 0
  seconds_left_past now none span h = cc
  seconds_left_past now (some t) span h = max_zero_of_le _ (c.num_seconds_past _ _ h)

  -- Where a check finds the export window over, no export time remains at that moment.
  remaining-check_export_expiry :
      (now : c.Time) (m : FreezeManager)
      → (check_export_expiry now m).1 ≡ true
      → remaining_export_seconds now m ≡ pos 0
  unfolding remaining_export_seconds check_export_expiry
  remaining-check_export_expiry now m h =
      ground (arith, seconds_left_past now m.frozen_at m.export_duration)
