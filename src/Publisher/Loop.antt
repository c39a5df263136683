-- ===== src/Publisher/Loop.antt =====
-- `run_scheduler` of source_publisher/scheduler.py: its start and the rounds of its loop, with what
-- it writes to state.json. The writes of the heartbeat thread are left out.
pub mod Restart
use steam_download_pumper.Common.{
  ℕ, zero, suc, ◌+◌, ◌-◌, ◌*◌, ◌/◌, Bool, true, false, Option, none, some, or_else, leb, ltb, ◌==◌,
  min, max, if◌then◌else◌,
}
use steam_download_pumper.Common.Result.{ok, err}
use steam_download_pumper.Fleet.Clock.{second}
use steam_download_pumper.Publisher.Due.{Delays, next_due, retry_delay}

-- The keys of state.json that the scheduler reads and writes; an empty text is `none`.
pub record StateFile : Type 0 where
  pub last_attempt_at : Option ℕ
  pub last_success_at : Option ℕ
  pub failed_last : Bool
  pub consecutive_failures : ℕ
  pub next_retry_at : Option ℕ

-- The local variables of the function, and the file.
pub record Scheduler : Type 0 where
  pub due : ℕ
  pub failures : ℕ
  pub last_success : Option ℕ
  pub state : StateFile

-- `t.isoformat(timespec="seconds")`, read back.
abbrev pub written : ℕ → ℕ
written t = t / second * second

-- `service.run`: it returns or raises at an instant, or raises after the stop event.
pub data Outcome : Type 0 where
  published failed : ℕ → Outcome
  interrupted : Outcome

-- What a round does.
pub data Action : Type 0 where
  sleep : ℕ → Action
  ran : Action

-- The lines before the loop.
unfoldable pub start : ℕ → ℕ → StateFile → Scheduler
start publish_time started_at state =
    let first = next_due started_at publish_time state.last_success_at in
    record {
      due =
          if state.consecutive_failures == 0
          then first
          else elim (state.next_retry_at) [ none ↦ first | some retry ↦ max started_at retry ];
      failures = state.consecutive_failures;
      last_success = state.last_success_at;
      state = state;
    }

module _ (publish_time : ℕ) (delays : Delays) where
  -- The `else` branch of the publication.
  unfoldable pub record_success : ℕ → Scheduler → Scheduler
  record_success at_time s = record {
    due = next_due at_time publish_time (some at_time);
    failures = 0;
    last_success = some at_time;
    state = record {
      last_attempt_at = some (written at_time);
      last_success_at = some (written at_time);
      failed_last = false;
      consecutive_failures = 0;
      next_retry_at = none;
    };
  }

  -- The `except` branch: the delay is defined, since the count was raised before.
  unfoldable pub record_failure : ℕ → Scheduler → Scheduler
  record_failure at_time s =
      let failures = s.failures + 1 in
      let delay : ℕ = elim (retry_delay failures delays) [ ok d ↦ d | err e ↦ 0 ] in
      let due = at_time + delay * second in
      record s {
        due = due;
        failures = failures;
        state = record (s.state) {
          last_attempt_at = some (written at_time);
          failed_last = true;
          consecutive_failures = failures;
          next_retry_at = some (written due);
        };
      }

  -- One round of the loop. `outcome` is what a publication comes to, if the round starts one.
  unfoldable pub round : ℕ → Outcome → Scheduler → Scheduler × Action
  round now outcome s =
      if ltb now s.due then (s, sleep (min (s.due - now) (60 * second))) else elim outcome [
        | published at_time ↦ (record_success at_time s, ran)
        | failed at_time ↦ (record_failure at_time s, ran)
        | interrupted ↦ (s, ran)
      ]
