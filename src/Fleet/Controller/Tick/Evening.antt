-- ===== src/Fleet/Controller/Tick/Evening.antt =====
-- The upload window through whole ticks (`tick`).
use steam_download_pumper.Common.{ℕ, ◌+◌, ◌*◌, ◌≤◌, ◌≡◌, Bool, List, [], arith}
use steam_download_pumper.Common.Text.{Text}
use steam_download_pumper.Fleet.Clock.{second, local_hour}
use steam_download_pumper.Fleet.Floats.{FloatArith}
use steam_download_pumper.Fleet.Config.{FleetConfig}
use steam_download_pumper.Fleet.Accounts.{FleetAccount}
use steam_download_pumper.Fleet.Controller.State.{Engine, ActiveLine}
use steam_download_pumper.Fleet.Controller.Schedule.Active.{schedule_window}
use steam_download_pumper.Fleet.Controller.Tick.{
  SnmpResult, Ticker, consume_results, engine_part, schedule_part, tick,
}

module _ (float : FloatArith) (cfg : FleetConfig) (launch : FleetAccount → Engine)
    (poll : Text → ActiveLine → Engine) where
  engine_part_keeps :
      (mono now : ℕ) (force : Bool) (t : Ticker)
      → (engine_part float cfg launch poll mono now force t).0.last_schedule_at ≡ t.last_schedule_at
  unfolding engine_part
  engine_part_keeps mono now force t = ground arith

  schedule_part_window :
      (mono now : ℕ) (force : Bool) (t : Ticker)
      → 18 ≤ local_hour now
      → t.last_schedule_at + cfg.scheduler_tick_seconds * second ≤ mono
      → (schedule_part float cfg launch poll mono now force t).controller.active ≡ []
  unfolding schedule_part
  schedule_part_window mono now force t late due =
      ground (arith, schedule_window float cfg launch now t.controller late)

  -- From 18:00 to 24:00 in Shanghai no line is left after a tick for which the schedule is due,
  -- whatever the samples and the engines say.
  pub tick_window :
      (results : List SnmpResult) (mono now : ℕ) (t : Ticker)
      → 18 ≤ local_hour now
      → t.last_schedule_at + cfg.scheduler_tick_seconds * second ≤ mono
      → (tick float cfg launch poll results mono now t).controller.active ≡ []
  unfolding tick
  tick_window results mono now t late due = schedule_part_window mono now _ _ late (
      omega (
        arith,
        due,
        engine_part_keeps mono now (consume_results float cfg results t.controller).1
            (record t { controller = (consume_results float cfg results t.controller).0 }),
      ))
