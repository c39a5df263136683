-- ===== src/Lines/Engine/Cycle.antt =====
-- What every operation of an engine keeps (`start`, `stop`, `poll`, `set_connections`,
-- `set_sources`, `stage_sources`).
use native.Mathlib.Nat.{one-le-pow}
use steam_download_pumper.Common.{
  ℕ, ◌+◌, ◌-◌, ◌*◌, ◌^◌, ◌≤◌, ◌≡◌, refl, Bool, true, false, Option, none, some, is_none, List, [],
  ◌∷◌, min, arith,
}
use steam_download_pumper.Common.Text.{Text}
use steam_download_pumper.Fleet.Clock.{second}
use steam_download_pumper.Fleet.Controller.State.{downloading, stopped}
use steam_download_pumper.Lines.Staging.{set_sources, stage_sources}
use steam_download_pumper.Lines.Engine.{
  EngineProcess, restart_delay, schedule_restart, Launch, spawned, refused, start, stop,
  confirm_generation, Event, no_json, reload_failed, reloaded, status_report, source_report,
  consume_status, consume_source, consume, drain, restart_if_due, on_exit, poll, set_connections,
}

-- The total is the carried bytes with those of the present process, the connections are in their
-- range, a stopped engine has no process, and one with a process is said to be downloading.
pub record IsSound (e : EngineProcess) : Type 0 where
  pub counted : e.total_bytes ≡ e.byte_offset + e.process_bytes
  pub at_least : 1 ≤ e.connections
  pub at_most : e.connections ≤ 12
  pub halted : e.stop_requested ≡ true → e.process ≡ none
  pub named : is_none e.process ≡ false → e.status ≡ downloading

pub restart_delay_bounds :
    (failures : ℕ) → (second ≤ restart_delay failures) × (restart_delay failures ≤ 60 * second)
unfolding restart_delay
restart_delay_bounds failures =
    let some_power : 1 ≤ 2 ^ min (failures - 1) 6 =
      one-le-pow (min (failures - 1) 6) 2 (omega arith) in
    omega (arith, some_power)

schedule_restart-IsSound :
    (error : Text) (now : ℕ) (e : EngineProcess)
    → IsSound e
    → e.process ≡ none
    → IsSound (schedule_restart error now e)
unfolding schedule_restart
schedule_restart-IsSound error now e h gone = record {
  counted = omega arith;
  at_least = h.at_least;
  at_most = h.at_most;
  halted = λ _. gone;
  named = λ x. ground arith;
}

pub start-IsSound :
    (alive : Bool) (launched : Launch) (now : ℕ) (e : EngineProcess)
    → IsSound e
    → IsSound (start alive launched now e)
unfolding start schedule_restart
start-IsSound alive (spawned pid) now e h = ground arith
start-IsSound alive (refused error) now e h = ground arith

pub stop-IsSound : (e : EngineProcess) → IsSound e → IsSound (stop e)
unfolding stop
stop-IsSound e h = ground arith

consume-IsSound : (v : Event) (e : EngineProcess) → IsSound e → IsSound (consume v e)
unfolding consume confirm_generation consume_status consume_source
consume-IsSound (no_json line) e h = ground arith
consume-IsSound (reload_failed g error) e h = ground arith
consume-IsSound (reloaded g) e h = ground arith
consume-IsSound (status_report bytes connections url) e h = ground arith
consume-IsSound (source_report v) e h = ground arith

pub drain-IsSound : (vs : List Event) (e : EngineProcess) → IsSound e → IsSound (drain vs e)
unfolding drain
drain-IsSound [] e h = h
drain-IsSound (v ∷ vs) e h = drain-IsSound vs (consume v e) (consume-IsSound v e h)

restart_if_due-IsSound :
    (launched : Launch) (now : ℕ) (e : EngineProcess)
    → IsSound e
    → IsSound (restart_if_due launched now e)
unfolding restart_if_due
restart_if_due-IsSound launched now e h = ground (arith, start-IsSound false launched now e h)

pub set_connections-IsSound :
    (target maximum : ℕ) (alive resized : Bool) (e : EngineProcess)
    → IsSound e
    → IsSound (set_connections target maximum alive resized e)
unfolding set_connections
set_connections-IsSound target maximum alive resized e h = ground arith

gone-IsSound : (e : EngineProcess) → IsSound e → IsSound (record e { process = none })
gone-IsSound e h = ground arith

stopped-IsSound :
    (e : EngineProcess) → IsSound e → IsSound (record e { process = none; status = stopped })
stopped-IsSound e h = ground arith

on_exit-IsSound :
    (error : Text) (launched : Launch) (now : ℕ) (e : EngineProcess)
    → IsSound e
    → IsSound (on_exit error launched now e)
unfolding on_exit
on_exit-IsSound error launched now e h = ground (
  arith,
  stopped-IsSound e h,
  restart_if_due-IsSound launched now (schedule_restart error now (record e { process = none }))
      (schedule_restart-IsSound error now _ (gone-IsSound e h) refl),
)

pub poll-IsSound :
    (events : List Event) (exit : Option Text) (launched : Launch) (now : ℕ) (e : EngineProcess)
    → IsSound e
    → IsSound (poll events exit launched now e)
unfolding poll
poll-IsSound events none launched now e h =
    ground (arith, restart_if_due-IsSound launched now e h, drain-IsSound events e h)
poll-IsSound events (some error) launched now e h = ground (
  arith,
  restart_if_due-IsSound launched now e h,
  on_exit-IsSound error launched now (drain events e) (drain-IsSound events e h),
)

pub set_sources-IsSound :
    (sources : List Text) (writes : Bool) (e : EngineProcess)
    → IsSound e
    → IsSound (set_sources sources writes e).0
unfolding set_sources
set_sources-IsSound sources writes e h = ground arith

pub stage_sources-IsSound :
    (sources : List Text) (generation : Text) (write_error : Option Text) (alive : Bool)
    (signal_error : Option Text) (e : EngineProcess)
    → IsSound e
    → IsSound (stage_sources sources generation write_error alive signal_error e).0
unfolding stage_sources confirm_generation
stage_sources-IsSound sources generation none alive none e h = ground arith
stage_sources-IsSound sources generation none alive (some error) e h = ground arith
stage_sources-IsSound sources generation (some error) alive signal_error e h = ground arith
