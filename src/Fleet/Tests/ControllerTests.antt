-- ===== src/Fleet/Tests/ControllerTests.antt =====
-- `FleetController` with one line that runs, at 08:00 and at 19:00 in Shanghai.
use steam_download_pumper.Common.{
  ◌∷◌, [], ℕ, ◌+◌, ◌-◌, ◌*◌, ◌≡◌, ◌≤◌, ◌<◌, ◌⊎◌, refl, true, false, none, some, [], All, min, arith,
  length,
}
use steam_download_pumper.Common.Text.{Text, codes, text_eq, text_leb, text_in}
use steam_download_pumper.Common.Dict.{lookup, keys}
use steam_download_pumper.Common.Dict.Laws.{IsDistinct, text_in-keys_of_lookup}
use steam_download_pumper.Fleet.Clock.{second, timestamp}
use steam_download_pumper.Fleet.Store.Rows.{accounts_of}
use steam_download_pumper.Fleet.Controller.State.{
  ActiveLine, Controller, no_progress, average_below, quarantine,
}
use steam_download_pumper.Fleet.Controller.Health.{line_health_failure}
use steam_download_pumper.Fleet.Controller.Health.Verdict.{line_health_failure_lem}
use steam_download_pumper.Fleet.Controller.Schedule.{
  desired_count, is_eligible, ids_of, unexpired, enabled_accounts, eligible, schedule,
}
use steam_download_pumper.Fleet.Controller.Schedule.Active.{schedule_fills, schedule_window}
use steam_download_pumper.Fleet.Controller.Schedule.Safety.{
  IsRunnable, schedule-IsRunnable, quarantine_respected,
}
use steam_download_pumper.Fleet.Controller.Schedule.Keeping.{
  PassedOver, schedule_keeps, schedule_ranks,
}
use steam_download_pumper.Fleet.Controller.Engines.{poll_engines}
use steam_download_pumper.Fleet.Controller.Engines.Books.{program_bytes, poll_engines_books}
use steam_download_pumper.Fleet.Controller.Engines.Healthy.{IsAlive, poll_engines-IsAlive}
use steam_download_pumper.Fleet.Controller.Tick.{Ticker, degraded, tick}
use steam_download_pumper.Fleet.Controller.Tick.Evening.{tick_window}
use steam_download_pumper.Fleet.Tests.{
  exact, cfg, morning, evening, first_line, controller, launch, polled_state,
}

abbrev a_minute_on : ℕ
a_minute_on = morning + 60000000

rows-IsDistinct : IsDistinct (ids_of (accounts_of controller.store))
unfolding accounts_of text_in text_eq text_leb
rows-IsDistinct = (refl, (refl, tt))

lines-IsDistinct : IsDistinct (keys controller.active)
unfolding text_in
lines-IsDistinct = (refl, tt)

line_health_failure_lem_example :
    let stalled_for = a_minute_on - (morning + 30000000) in
    let verdict = (line_health_failure exact cfg first_line a_minute_on).1 in
    (60 * second ≤ stalled_for → verdict ≡ some (no_progress (timestamp stalled_for)))
    × (stalled_for < 60 * second
        → All
            (λ p. (a_minute_on < p.0 + 120 * second) × (p.0 ≤ a_minute_on))
            first_line.rate_samples
        → verdict ≡ none)
    × ((t : ℕ)
        → verdict ≡ some (no_progress t)
        → (60 * second ≤ stalled_for) × (t ≡ timestamp stalled_for))
    × ((t : ℕ) → verdict ≡ some (average_below t) → 120 ≤ t)
line_health_failure_lem_example = line_health_failure_lem exact cfg first_line a_minute_on

schedule_fills_example :
    let lines = (schedule exact cfg launch a_minute_on controller).active in
    (length lines ≡ min (desired_count a_minute_on) (length (eligible controller a_minute_on)))
    × IsDistinct (keys lines)
schedule_fills_example =
    schedule_fills exact cfg launch a_minute_on controller refl rows-IsDistinct lines-IsDistinct

-- Both accounts are wanted in the morning.
both_wanted : min (desired_count a_minute_on) (length (eligible controller a_minute_on)) ≡ 2
unfolding desired_count eligible enabled_accounts accounts_of is_eligible lookup unexpired text_eq
    text_leb
both_wanted = refl

schedule_window_example : (schedule exact cfg launch evening controller).active ≡ []
schedule_window_example = schedule_window exact cfg launch evening controller (omega arith)

first_kept : lookup (codes "a") controller.active ≡ some first_line
unfolding lookup text_eq
first_kept = refl

first_eligible : text_in (codes "a") (ids_of (eligible controller a_minute_on)) ≡ true
unfolding eligible enabled_accounts accounts_of is_eligible lookup unexpired text_eq text_leb
    text_in
first_eligible = refl

room : length controller.active ≤ desired_count a_minute_on
unfolding desired_count
room = omega arith

schedule_keeps_example :
    lookup (codes "a") (schedule exact cfg launch a_minute_on controller).active ≡ some first_line
schedule_keeps_example =
    schedule_keeps exact cfg launch a_minute_on controller (codes "a") first_line refl first_kept
      refl first_eligible (omega arith) refl room

first_runs :
    text_in (codes "a") (keys (schedule exact cfg launch a_minute_on controller).active) ≡ true
first_runs = text_in-keys_of_lookup (codes "a") _ first_line schedule_keeps_example

schedule-IsRunnable_example : (true ≡ true) × IsRunnable a_minute_on controller (codes "a")
schedule-IsRunnable_example =
    schedule-IsRunnable exact cfg launch a_minute_on controller (codes "a") first_runs

abbrev benched : Controller
benched = quarantine 15 (codes "a") a_minute_on (no_progress 60) controller

quarantine_respected_example :
    text_in (codes "a") (keys (schedule exact cfg launch (a_minute_on + 600000000) benched).active)
    ≡ false
quarantine_respected_example =
    quarantine_respected exact cfg launch 15 a_minute_on (a_minute_on + 600000000) (codes "a")
      (no_progress 60) controller benched refl (omega arith)

schedule_ranks_example :
    All
      (λ a.
        (text_in a.account_id (keys (schedule exact cfg launch a_minute_on controller).active)
          ≡ true)
        ⊎ PassedOver exact cfg launch a_minute_on controller a)
      (eligible controller a_minute_on)
schedule_ranks_example = schedule_ranks exact cfg launch a_minute_on controller refl

poll_engines_books_example :
    let after = (poll_engines exact cfg polled_state a_minute_on controller).0 in
    program_bytes after.store.traffic + 3000
    ≡ program_bytes controller.store.traffic + after.rate_total
poll_engines_books_example = poll_engines_books exact cfg polled_state a_minute_on controller

poll_engines-IsAlive_example :
    let lines = (poll_engines exact cfg polled_state a_minute_on controller).0.active in
    IsDistinct (keys lines)
    × ((id : Text) (l : ActiveLine)
        → lookup id lines ≡ some l
        → IsAlive exact cfg polled_state a_minute_on l)
poll_engines-IsAlive_example =
    poll_engines-IsAlive exact cfg polled_state a_minute_on controller lines-IsDistinct

abbrev ticker : Ticker
ticker = record {
  controller = controller;
  last_engine_at = 0;
  last_snmp_at = 0;
  last_schedule_at = 0;
}

tick_window_example :
    (tick exact cfg launch polled_state (degraded ∷ []) 60000000 evening ticker).controller.active
    ≡ []
tick_window_example =
    tick_window exact cfg launch polled_state (degraded ∷ []) 60000000 evening ticker (omega arith)
      (omega arith)
