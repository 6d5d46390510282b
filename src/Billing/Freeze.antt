-- ===== src/Billing/Freeze.antt =====
-- billing/src/freeze.rs: `FreezeManager`. The time `Utc::now()` is an argument of each method.
pub mod Laws
use dest.Base.{Bool, true, false, Option, none, some, if◌then◌else◌}
use dest.Base.Int.{ℤ, pos, max_zero}
use dest.Billing.Extern.{Chrono}

pub data FreezeState : Type 0 where
  active frozen_export hard_deleted : FreezeState

-- `==`
abbrev pub state_eq : FreezeState → FreezeState → Bool
state_eq FreezeState.active FreezeState.active = true
state_eq FreezeState.frozen_export FreezeState.frozen_export = true
state_eq FreezeState.hard_deleted FreezeState.hard_deleted = true
state_eq _ _ = false

module _ ⦃c : Chrono⦄ where
  pub record FreezeManager : Type 0 where
    pub state : FreezeState
    pub frozen_at : Option c.Time
    pub export_duration : c.Span

  -- `FreezeManager::with_export_duration`
  pub with_export_duration : ℤ → FreezeManager
  with_export_duration hours = record {
    state = FreezeState.active;
    frozen_at = none;
    export_duration = c.hours hours;
  }

  -- `FreezeManager::new`: 48 hours.
  unfoldable pub new : FreezeManager
  new = record { state = FreezeState.active; frozen_at = none; export_duration = c.hours (pos 48) }

  unfoldable pub trigger_freeze : c.Time → FreezeManager → FreezeManager
  trigger_freeze now m =
      if state_eq m.state FreezeState.active
      then record m { state = FreezeState.frozen_export; frozen_at = some now }
      else m

  -- `Utc::now() >= frozen_at + self.export_duration`
  abbrev pub window_over : c.Time → Option c.Time → c.Span → Bool
  window_over now none span = false
  window_over now (some t) span = c.leb (c.plus t span) now

  unfoldable pub check_export_expiry : c.Time → FreezeManager → FreezeManager × Bool
  check_export_expiry now m =
      if state_eq m.state FreezeState.frozen_export
      then if window_over now m.frozen_at m.export_duration
        then (record m { state = FreezeState.hard_deleted }, true)
        else (m, false)
      else (m, false)

  abbrev pub seconds_left : c.Time → Option c.Time → c.Span → ℤ
  seconds_left now none span = pos 0
  seconds_left now (some t) span = max_zero (c.num_seconds (c.plus t span) now)

  pub remaining_export_seconds : c.Time → FreezeManager → ℤ
  remaining_export_seconds now m =
      if state_eq m.state FreezeState.frozen_export
      then seconds_left now m.frozen_at m.export_duration
      else pos 0

  unfoldable pub unfreeze : FreezeManager → FreezeManager
  unfreeze m =
      if state_eq m.state FreezeState.frozen_export
      then record m { state = FreezeState.active; frozen_at = none }
      else m
