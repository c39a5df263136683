-- ===== src/Fleet/Controller/Engines.antt =====
-- `_poll_engines` of steam_pumper/fleet.py.
pub mod Books
pub mod Healthy
use steam_download_pumper.Common.{
  ℕ, ◌+◌, ◌-◌, Bool, true, false, Option, none, some, or_else, List, [], ◌∷◌, ◌==◌, if◌then◌else◌,
}
use steam_download_pumper.Common.Text.{Text}
use steam_download_pumper.Common.Dict.{Dict, insert}
use steam_download_pumper.Fleet.Floats.{FloatArith}
use steam_download_pumper.Fleet.Config.{FleetConfig}
use steam_download_pumper.Fleet.Store.Rows.{record_runtime, record_download}
use steam_download_pumper.Fleet.Controller.State.{
  EngineStatus, stopped, Engine, ActiveLine, Controller, push_sample, stop_line, quarantine,
}
use steam_download_pumper.Fleet.Controller.Health.{line_health_failure}

-- What the loop carries: the controller, `aggregate_delta` and `replacement_needed`.
pub record Polling : Type 0 where
  pub controller : Controller
  pub aggregate_delta : ℕ
  pub replacement_needed : Bool

abbrev is_stopped : EngineStatus → Bool
is_stopped stopped = true
is_stopped other = false

-- The line after its engine was polled, before its health is judged.
unfoldable pub polled_line : Engine → ℕ → ActiveLine → ActiveLine
polled_line engine now line =
    let current = engine.total_bytes in
    record line {
      engine = engine;
      last_accounted_at = some now;
      last_bytes = current;
      rate_samples = push_sample (now, current) line.rate_samples;
      last_progress_at = if current - line.last_bytes == 0 then line.last_progress_at else some now;
    }

module _ (float : FloatArith) (cfg : FleetConfig) (poll : Text → ActiveLine → Engine) where
  -- The last part of the body: the line is dropped, or judged.
  unfoldable pub settle : Text → ℕ → ActiveLine → Polling → Polling
  settle id now line p =
      if is_stopped line.engine.status
      then record p { controller = stop_line id p.controller; replacement_needed = true }
      else (let (trimmed, failure) = line_health_failure float cfg line now in
          let c = record (p.controller) { active = insert id trimmed p.controller.active } in
          elim failure [
            | none ↦ record p { controller = c }
            | some reason ↦ record p {
              controller = quarantine cfg.line_failure_cooldown_minutes id now reason c;
              replacement_needed = true;
            }
          ])

  -- The body of the loop. `poll` is the state in which `EngineProcess.poll` leaves the engine.
  unfoldable pub poll_line : ℕ → Text × ActiveLine → Polling → Polling
  poll_line now (id, line) p =
      let engine = poll id line in
      let delta = engine.total_bytes - line.last_bytes in
      let accounted =
        record_runtime id (or_else line.last_accounted_at line.started_at) now p.controller.store in
      settle id now (polled_line engine now line) (record p {
        controller = record (p.controller) {
          store = record_download id delta now accounted;
          active = insert id (polled_line engine now line) p.controller.active;
        };
        aggregate_delta = p.aggregate_delta + delta;
      })

  unfoldable pub poll_lines : ℕ → Dict ActiveLine → Polling → Polling
  poll_lines now [] p = p
  poll_lines now (entry ∷ rest) p = poll_lines now rest (poll_line now entry p)

  -- The new controller and the result, whether a line has to be replaced.
  unfoldable pub poll_engines : ℕ → Controller → Controller × Bool
  poll_engines now s =
      let p =
        poll_lines now s.active
          (record { controller = s; aggregate_delta = 0; replacement_needed = false }) in
      (
        record (p.controller) { rate_total = p.controller.rate_total + p.aggregate_delta },
        p.replacement_needed,
      )
