-- ===== src/Lines/Control/Follows.antt =====
-- Whether lines run after a tick follows the switch and the window (`tick`).
use steam_download_pumper.Common.{
  ℕ, ◌≤◌, ◌≡◌, refl, Bool, true, false, List, [], ◌∷◌, map, any_of, length, All, arith,
}
use steam_download_pumper.Lines.Engine.{
  EngineProcess, Launch, spawned, refused, start, stop, schedule_restart,
}
use steam_download_pumper.Lines.Engine.Cycle.{IsSound}
use steam_download_pumper.Lines.Control.{
  Pumper, is_active, is_running_locked, stop_downloads, is_due, should_run, start_downloads,
  schedule_tick,
}

none_active : (es : List EngineProcess) → any_of (λ e. is_active e.status) (map stop es) ≡ false
unfolding stop
none_active [] = refl
none_active (e ∷ es) = none_active es

-- A start makes an engine active: one that had no process is launched, or is due for a restart.
start_active :
    (alive : Bool) (launched : Launch) (now : ℕ) (e : EngineProcess)
    → IsSound e
    → is_active (start alive launched now e).status ≡ true
unfolding start schedule_restart
start_active alive (spawned pid) now e h = ground arith
start_active alive (refused error) now e h = ground arith

module _ (alive : EngineProcess → Bool) (launched : EngineProcess → Launch) where
  started_active :
      (now : ℕ) (es : List EngineProcess)
      → All IsSound es
      → 1 ≤ length es
      → any_of (λ e. is_active e.status) (map (λ e. start (alive e) (launched e) now e) es) ≡ true
  started_active now [] h some_line = ground arith
  started_active now (e ∷ es) h some_line =
      ground (arith, start_active (alive e) (launched e) now e h.0)

  -- After a tick for which the schedule is due, lines run exactly if the program is switched on and
  -- the window is open, whether or not the system could launch their processes; the controller has
  -- a line, is not being reconfigured or started, and its engines are sound.
  pub schedule_tick_lem :
      (monotonic_now current : ℕ) (s : Pumper)
      → is_due monotonic_now s ≡ true
      → 1 ≤ length s.lines
      → All IsSound s.lines
      → s.downloads_starting ≡ false
      → s.reconfiguring ≡ false
      → is_running_locked (schedule_tick alive launched monotonic_now current s)
        ≡ should_run current s
  unfolding is_running_locked schedule_tick start_downloads stop_downloads
  schedule_tick_lem monotonic_now current s due some_line sound idle steady =
      ground (arith, none_active s.lines, started_active monotonic_now s.lines sound some_line)
