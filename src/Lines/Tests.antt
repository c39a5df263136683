-- ===== src/Lines/Tests.antt =====
-- Three lines for 1000 Mbps, a window over midnight, a tracker and an engine.
use steam_download_pumper.Common.{
  ◌||◌, Option, ◌≢◌, ℕ, suc, ◌+◌, ◌-◌, ◌*◌, ◌/◌, ◌≤◌, ◌≡◌, refl, true, false, none, some, is_none,
  List, [], ◌∷◌, All, map, sum_of, length, arith,
}
use steam_download_pumper.Common.Text.{Text, codes, text_eq, text_in}
use steam_download_pumper.Common.Result.{ok}
use steam_download_pumper.Fleet.Controller.State.{downloading}
use steam_download_pumper.Fleet.Strings.{
  strip, lstrip, is_space, lower, is_ipv4, split_on, is_octet,
}
use steam_download_pumper.Lines.Config.{
  UrlParts, MultiIpConfig, unique_from, validate_unique_from, has_duplicate, validate_unique_ipv4,
  check_url, check_urls, check_ranges, validate_source_pool, validate_common, validate_multi_ip,
}
use steam_download_pumper.Lines.Config.Ranges.{IsMultiIp, validate_multi_ip-IsMultiIp}
use steam_download_pumper.Lines.Staging.{stage_sources, generation_confirmed}
use steam_download_pumper.Lines.Staging.Confirm.{stage_sources_lem}
use steam_download_pumper.Lines.Control.{Pumper, is_running_locked, should_run, schedule_tick}
use steam_download_pumper.Lines.Control.Follows.{schedule_tick_lem}
use steam_download_pumper.Lines.Targets.{LogicalLine, multi_ip_lines}
use steam_download_pumper.Lines.Targets.Fairness.{multi_ip_lines_lem}
use steam_download_pumper.Lines.Window.{is_within_window, theoretical_window_bytes}
use steam_download_pumper.Lines.Window.Budget.{count_seconds, theoretical_window_bytes_lem}
use steam_download_pumper.Lines.Metrics.{Tracker, next_connection_count}
use steam_download_pumper.Lines.Metrics.Laws.{
  grown, next_connection_count_lem, record_samples, record_samples_today,
}
use steam_download_pumper.Lines.Engine.{
  Event, status_report, reload_failed, no_generation, drain, reloaded, consume, EngineProcess,
  new_engine, spawned, start, poll,
}
use steam_download_pumper.Lines.Engine.Cycle.{IsSound}
use steam_download_pumper.Lines.Engine.Counted.{Counted, last_report, count_start, count_poll}
use steam_download_pumper.Lines.Engine.History.{created, started, polled, Lives-IsSound}
use steam_download_pumper.Lines.Engine.Recovery.{poll_recovers}

abbrev ips : List Text
ips = codes "10.0.0.1" ∷ codes "10.0.0.2" ∷ codes "10.0.0.3" ∷ []

multi_ip_lines_lem_example :
    (lines : List LogicalLine) × (multi_ip_lines 1000 (length ips) ips ≡ ok lines)
    × (map (λ l. l.bind_ip) lines ≡ ips)
    × (sum_of (λ t. t) (map (λ l. l.target_mbps) lines) ≡ 1000)
    × All
        (λ t. (1000 / length ips ≤ t) × (t ≤ 1000 / length ips + 1))
        (map (λ l. l.target_mbps) lines)
multi_ip_lines_lem_example = multi_ip_lines_lem 1000 ips (omega arith)

theoretical_window_bytes_lem_example :
    theoretical_window_bytes 400 72000 21600
    ≡ 400 * 125000 * count_seconds (is_within_window 72000 21600) 86400
theoretical_window_bytes_lem_example =
    theoretical_window_bytes_lem 400 72000 21600 (omega arith) (omega arith)

next_connection_count_lem_example :
    let next = next_connection_count 4 12 5 true false true in
    (4 ≤ next)
    × (next ≤ 12)
    × (4 ≤ 5 → 5 ≤ 12 → (next ≤ 5 + 1) × (5 ≤ next + 1))
    × (5 ≤ 12 → 12 ≤ grown 4 12 5 true (suc (12 - 4)))
next_connection_count_lem_example =
    next_connection_count_lem 4 12 5 true false true (omega arith) (omega arith)

abbrev sample_day : Text
sample_day = codes "2026-07-21"

abbrev first_seen : Tracker
first_seen = record {
  samples = [];
  current_mbps = none;
  today_bytes = 0;
  day = sample_day;
  last_time = some 0;
  last_rx_bytes = some 100;
}

abbrev two_samples : List (ℕ × ℕ)
two_samples = (1000000, 300) ∷ (2000000, 450) ∷ []

record_samples_today_example :
    let after = record_samples sample_day two_samples first_seen in
    (after.today_bytes + 100 ≡ 0 + 450) × (length after.samples ≤ 600)
record_samples_today_example =
    record_samples_today sample_day two_samples first_seen 0 100 450 refl refl refl (omega arith)
      (omega arith, (omega arith, refl))

abbrev fresh : EngineProcess
fresh = new_engine 4 [] []

abbrev running : EngineProcess
running = start false (spawned 7) 0 fresh

abbrev output : List Event
output = status_report (some 100) none none ∷ status_report (some 250) none none ∷ []

abbrev polled_once : EngineProcess
polled_once = poll output (some (codes "exited")) (spawned 8) 1000000 running

abbrev polled_once_count : Counted
polled_once_count =
    count_poll output (some (codes "exited")) (spawned 8) 1000000 running
      (count_start false (spawned 7) fresh (record { ended = 0; present = 0 }))

Lives-IsSound_example :
    IsSound polled_once
    × (polled_once.total_bytes ≡ polled_once_count.ended + polled_once_count.present)
Lives-IsSound_example = Lives-IsSound (
    polled output (some (codes "exited")) (spawned 8) 1000000
      (started false (spawned 7) 0 (created 4 [] [] (omega arith) (omega arith))))

-- The reports of the process that ended.
counts_output : polled_once_count.ended ≡ 250
unfolding count_poll count_start last_report start
counts_output = refl

wanted : running.stop_requested ≡ false
unfolding start
wanted = refl

present : is_none running.process ≡ false
unfolding start
present = refl

poll_recovers_example :
    let found = poll output (some (codes "exited")) (spawned 8) 1000000 running in
    let after = poll [] none (spawned 9) 61000000 found in
    let reported = poll (status_report (some 40) none none ∷ []) none (spawned 10) 62000000 after in
    (found.process ≡ none)
    × (found.total_bytes ≡ (drain output running).total_bytes)
    × (after.process ≡ some 9)
    × (after.status ≡ downloading)
    × (reported.total_bytes ≡ (drain output running).total_bytes + 40)
poll_recovers_example =
    poll_recovers output [] (codes "exited") (spawned 8) (spawned 10) 9 1000000 61000000 62000000 40
      none none running wanted present (omega arith)

abbrev url : Text
url = codes "http://a/b"

abbrev parsed_url : Text → Option UrlParts
parsed_url text = some (record {
  scheme = codes "http";
  hostname = some (codes "a");
  username = none;
  password = none;
})

abbrev two_lines : MultiIpConfig
two_lines = record {
  common = record {
    target_mbps = 800;
    connections_per_line = 8;
    max_connections_per_line = 12;
    worker_min_session_seconds = 300;
    schedule_poll_seconds = 30;
    source_pool = url ∷ [];
  };
  line_count = 2;
  lan_ips = codes "10.0.0.1" ∷ codes "10.0.0.2" ∷ [];
}

accepted : validate_multi_ip parsed_url two_lines ≡ ok two_lines
unfolding validate_multi_ip validate_common check_ranges validate_source_pool check_urls check_url
    unique_from validate_unique_ipv4 validate_unique_from has_duplicate text_in text_eq strip lstrip
    is_space lower is_ipv4 split_on is_octet
accepted = refl

validate_multi_ip-IsMultiIp_example : IsMultiIp parsed_url two_lines
validate_multi_ip-IsMultiIp_example = validate_multi_ip-IsMultiIp parsed_url two_lines accepted

abbrev old_generation : EngineProcess
old_generation = new_engine 4 (url ∷ []) (codes "1")

old_differs : text_eq (codes "1") (codes "2") ≡ false
unfolding text_eq
old_differs = refl

abbrev living : EngineProcess
living = start false (spawned 7) 0 old_generation

abbrev other_events : List Event
other_events = reloaded (codes "20") ∷ reload_failed no_generation (codes "bad") ∷ []

not_two : All (λ v. v ≢ reloaded (codes "2")) other_events
not_two = (λ e. cc, (λ e. cc, tt))

not_empty : All (λ v. v ≢ reloaded []) other_events
not_empty = (λ e. cc, (λ e. cc, tt))

living_differs : text_eq living.confirmed_generation (codes "2") ≡ false
unfolding start text_eq
living_differs = refl

stage_sources_lem_example :
    let staged = (stage_sources (url ∷ []) (codes "2") none true none living).0 in
    ((is_none living.process || false) ≡ false
      → All (λ v. v ≢ reloaded (codes "2")) other_events
      → (generation_confirmed (codes "2") (drain other_events staged) ≡ false)
        × (generation_confirmed
              (codes "2")
              (consume (reloaded (codes "2")) (drain other_events staged))
            ≡ true))
    × ((is_none living.process || false) ≡ true
        → All (λ v. v ≢ reloaded []) other_events
        → generation_confirmed (codes "2") (drain other_events staged) ≡ true)
stage_sources_lem_example =
    stage_sources_lem (url ∷ []) (codes "2") true living other_events refl refl living_differs

abbrev pumper : Pumper
pumper = record {
  manual_enabled = true;
  downloads_starting = false;
  reconfiguring = false;
  lines = fresh ∷ [];
  start_time = 0;
  end_time = 64800;
  schedule_poll_seconds = 30;
  last_schedule_tick = none;
}

fresh-IsSound : IsSound fresh
fresh-IsSound = (Lives-IsSound (created 4 [] [] (omega arith) (omega arith))).0

schedule_tick_lem_example :
    is_running_locked (schedule_tick (λ e. false) (λ e. spawned 7) 0 3600 pumper)
    ≡ should_run 3600 pumper
schedule_tick_lem_example =
    schedule_tick_lem (λ e. false) (λ e. spawned 7) 0 3600 pumper refl (omega arith)
      (fresh-IsSound, tt) refl refl
