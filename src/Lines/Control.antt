-- ===== src/Lines/Control.antt =====
-- The on and off of steam_pumper/controller.py: `start_downloads`, `stop_downloads`,
-- `_is_running_locked`, `set_manual_enabled` and the schedule of `tick`. The topology is applied
-- without an error, and the sources of the engines are left out.
pub mod Follows
use steam_download_pumper.Common.{
  ℕ, ◌+◌, ◌-◌, ◌*◌, Bool, true, false, ◌&&◌, ◌||◌, not, Option, none, some, List, map, leb, any_of,
  if◌then◌else◌,
}
use steam_download_pumper.Fleet.Clock.{second}
use steam_download_pumper.Fleet.Controller.State.{EngineStatus, starting, downloading, restarting}
use steam_download_pumper.Lines.Window.{is_within_window}
use steam_download_pumper.Lines.Engine.{EngineProcess, Launch, start, stop}

-- The part of `PumperController` that the schedule reads; a line is its engine.
pub record Pumper : Type 0 where
  pub manual_enabled : Bool
  pub downloads_starting : Bool
  pub reconfiguring : Bool
  pub lines : List EngineProcess
  pub start_time : ℕ
  pub end_time : ℕ
  pub schedule_poll_seconds : ℕ
  pub last_schedule_tick : Option ℕ

-- `status in {"starting", "downloading", "restarting"}`
abbrev pub is_active : EngineStatus → Bool
is_active starting = true
is_active downloading = true
is_active restarting = true
is_active other = false

unfoldable pub is_running_locked : Pumper → Bool
is_running_locked s = any_of (λ e. is_active e.status) s.lines

unfoldable pub stop_downloads : Pumper → Pumper
stop_downloads s = record s { lines = map stop s.lines }

unfoldable pub set_manual : Bool → Pumper → Pumper
set_manual enabled s =
    let switched = record s { manual_enabled = enabled } in
    if enabled then switched else stop_downloads switched

-- `monotonic_now - self._last_schedule_tick >= schedule_poll_seconds`, or the first tick.
abbrev pub is_due : ℕ → Pumper → Bool
is_due monotonic_now s = elim (s.last_schedule_tick) [
  | none ↦ true
  | some last ↦ leb (s.schedule_poll_seconds * second) (monotonic_now - last)
]

-- `self.manual_enabled and self.cfg.is_within_window(current.time())`
abbrev pub should_run : ℕ → Pumper → Bool
should_run current s = s.manual_enabled && is_within_window s.start_time s.end_time current

-- `alive` tells whether an engine's process lives, and `launched` what a launch gives.
module _ (alive : EngineProcess → Bool) (launched : EngineProcess → Launch) where
  unfoldable pub start_downloads : ℕ → Pumper → Pumper
  start_downloads now s =
      if is_running_locked s || (s.downloads_starting || s.reconfiguring)
      then s
      else record s { lines = map (λ e. start (alive e) (launched e) now e) s.lines }

  unfoldable pub schedule_tick : (monotonic_now current : ℕ) → Pumper → Pumper
  schedule_tick monotonic_now current s =
      if is_due monotonic_now s
      then (let ticked = record s { last_schedule_tick = some monotonic_now } in
          if should_run current s && not (is_running_locked s)
          then start_downloads monotonic_now ticked
          else if not (should_run current s) && is_running_locked s
          then stop_downloads ticked
          else ticked)
      else s
