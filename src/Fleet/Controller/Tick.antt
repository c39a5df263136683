-- ===== src/Fleet/Controller/Tick.antt =====
-- `tick` of steam_pumper/fleet.py with `_consume_snmp_result`. The remote source lists, which only
-- change what an engine downloads, are left out, and so is the thread that fills the queue; the
-- accounting of a sample does not raise here.
pub mod Evening
use steam_download_pumper.Common.{
  ℕ, ◌+◌, ◌-◌, ◌*◌, Bool, true, false, ◌||◌, Option, List, [], ◌∷◌, leb, if◌then◌else◌,
}
use steam_download_pumper.Common.Text.{Text}
use steam_download_pumper.Fleet.Clock.{second}
use steam_download_pumper.Fleet.Floats.{FloatArith}
use steam_download_pumper.Fleet.Config.{FleetConfig}
use steam_download_pumper.Fleet.Accounts.{FleetAccount}
use steam_download_pumper.Fleet.Store.Snmp.{SnmpInterface, record_snmp}
use steam_download_pumper.Fleet.Controller.State.{Engine, ActiveLine, Controller}
use steam_download_pumper.Fleet.Controller.Schedule.{schedule}
use steam_download_pumper.Fleet.Controller.Engines.{poll_engines}

-- An entry of the queue `snmp_results`.
pub data SnmpResult : Type 0 where
  sample :
      (interfaces : List SnmpInterface) (device_uptime : Option ℕ) (observed_at : ℕ) → SnmpResult
  degraded : SnmpResult

-- The instants of the monotonic clock at which the parts of `tick` last ran.
pub record Ticker : Type 0 where
  pub controller : Controller
  pub last_engine_at : ℕ
  pub last_snmp_at : ℕ
  pub last_schedule_at : ℕ

module _ (float : FloatArith) (cfg : FleetConfig) where
  -- `_consume_snmp_result`: whether the queue held an entry.
  unfoldable pub consume_results : List SnmpResult → Controller → Controller × Bool
  consume_results [] c = (c, false)
  consume_results (degraded ∷ rest) c = ((consume_results rest c).0, true)
  consume_results (sample interfaces uptime observed_at ∷ rest) c =
      let (store, states) = record_snmp float cfg interfaces observed_at uptime c.store in
      ((consume_results rest (record c { store = store; snmp_quality = states })).0, true)

  module _ (launch : FleetAccount → Engine) (poll : Text → ActiveLine → Engine) where
    -- The engines' part of `tick`: it replaces what the samples said of a new schedule.
    unfoldable pub engine_part : ℕ → ℕ → Bool → Ticker → Ticker × Bool
    engine_part monotonic_now now force t =
        if leb (cfg.engine_status_seconds * second) (monotonic_now - t.last_engine_at)
        then (let (c, replace) = poll_engines float cfg poll now t.controller in
            (record t { controller = c; last_engine_at = monotonic_now }, replace))
        else (t, force)

    unfoldable pub schedule_part : ℕ → ℕ → Bool → Ticker → Ticker
    schedule_part monotonic_now now force t =
        if force || leb (cfg.scheduler_tick_seconds * second) (monotonic_now - t.last_schedule_at)
        then record t {
          controller = schedule float cfg launch now t.controller;
          last_schedule_at = monotonic_now;
        }
        else t

    unfoldable pub tick : List SnmpResult → ℕ → ℕ → Ticker → Ticker
    tick results monotonic_now now t =
        let (c, changed) = consume_results results t.controller in
        let (polled, force) = engine_part monotonic_now now changed (record t { controller = c }) in
        let asked = record polled {
          last_snmp_at =
              if leb (cfg.snmp_poll_seconds * second) (monotonic_now - polled.last_snmp_at)
              then monotonic_now
              else polled.last_snmp_at;
        } in
        schedule_part monotonic_now now force asked
