-- ===== src/Publisher/Due.antt =====
-- `next_due`, `retry_delay` and `health_is_healthy` of source_publisher/scheduler.py. Instants are
-- microseconds on the wall clock of the configured zone, which has no transitions.
pub mod Next
pub mod Expiry
use steam_download_pumper.Common.{
  ℕ, ◌+◌, ◌-◌, ◌*◌, ◌/◌, Bool, true, false, ◌&&◌, ◌||◌, not, Option, none, some, leb, ltb, ◌==◌,
  min, if◌then◌else◌,
}
use steam_download_pumper.Common.Result.{Result, ok, err, ◌>>=◌, ◌>>◌, raise_if}
use steam_download_pumper.Fleet.Clock.{second, minute, hour, day}

-- `publish_time` on the day of `now`, as a time of the day.
abbrev pub today_due : ℕ → ℕ → ℕ
today_due now publish_time = now / day * day + publish_time

unfoldable pub next_due : ℕ → ℕ → Option ℕ → ℕ
next_due now publish_time last_success =
    let today = today_due now publish_time in
    let most_recent_due = if ltb now today then today - day else today in
    let next_scheduled = if ltb now today then today else today + day in
    elim last_success [
      | none ↦ if ltb now today then next_scheduled else now
      | some success ↦ if ltb success most_recent_due then now else next_scheduled
    ]

-- The three delays of the configuration, in seconds.
pub record Delays : Type 0 where
  pub first : ℕ
  pub second : ℕ
  pub third : ℕ

-- The `ValueError` of `retry_delay`.
pub data DelayError : Type 0 where
  count_not_positive : DelayError

abbrev delay_at : Delays → ℕ → ℕ
delay_at d i = if i == 0 then d.first else if i == 1 then d.second else d.third

unfoldable pub retry_delay : ℕ → Delays → Result DelayError ℕ
retry_delay failure_count delays =
    raise_if (ltb failure_count 1) count_not_positive
    >> ok (delay_at delays (min (failure_count - 1) 2))

-- What `health_is_healthy` reads of the file: a text that does not parse is `none`.
pub record Health : Type 0 where
  pub heartbeat_at : Option ℕ
  pub first_due_at : Option ℕ
  pub publication_started_at : Option ℕ
  pub last_success_at : Option ℕ

-- Whether the heartbeat is neither older than five minutes nor ahead by more than one.
abbrev pub is_fresh : ℕ → Option ℕ → Bool
is_fresh now none = false
is_fresh now (some beat) = not (ltb (5 * minute) (now - beat) || ltb minute (beat - now))

-- The last test of the function, where nothing was published and nothing is running.
abbrev first_in_time : ℕ → Option ℕ → Bool
first_in_time now none = false
first_in_time now (some due) = leb now (due + 2 * hour)

-- `none` stands for a file that is missing, too large or no JSON object.
unfoldable pub health_is_healthy : Option Health → ℕ → Bool
health_is_healthy none now = false
health_is_healthy (some h) now =
    if not (is_fresh now h.heartbeat_at) then false else elim (h.publication_started_at) [
      | some started ↦ leb started now && leb (now - started) (30 * minute)
      | none ↦ elim (h.last_success_at) [
        | some success ↦ leb (now - success) (36 * hour) && leb (success - now) minute
        | none ↦ first_in_time now h.first_due_at
      ]
    ]
