-- ===== src/Remote/Worker.antt =====
-- `RemoteSourceRefreshWorker` of steam_pumper/remote_sources.py. Each section under `_condition`
-- is one step; `Answer` is what `refresh` returns or raises. The thread's place in `_run` is a field.
pub mod Orderly
use steam_download_pumper.Common.{ℕ, Bool, true, false, Option, none, some}

pub data WorkerState : Type 0 where
  idle queued running stopped completed : WorkerState

-- Where the thread is: before the section that takes a request, in `refresh` with the instant of
-- its request, or at its end.
pub data Thread : Type 0 where
  waiting : Thread
  refreshing : Option ℕ → Thread
  ended : Thread

pub record Worker (Answer : Type 0) : Type 0 where
  pub state : WorkerState
  pub requested_at : Option ℕ
  pub result : Option Answer
  pub is_stopped : Bool
  pub cancel_event : Bool
  pub thread : Thread

module _ {Answer : Type 0} where
  abbrev pub initial : Worker Answer
  initial = record {
    state = idle;
    requested_at = none;
    result = none;
    is_stopped = false;
    cancel_event = false;
    thread = waiting;
  }

  -- A request of a worker that is idle without a result to fetch.
  abbrev pub enqueue : Worker Answer → ℕ → Worker Answer
  enqueue w now = record w { requested_at = some now; state = queued }

  -- By `_stopped`, `_state` and `_result`.
  unfoldable pub request_in :
      Bool → WorkerState → Option Answer → Worker Answer → ℕ → Worker Answer × WorkerState
  request_in true state result w now = (w, stopped)
  request_in false queued result w now = (w, queued)
  request_in false running result w now = (w, running)
  request_in false state (some r) w now = (w, completed)
  request_in false state none w now = (enqueue w now, queued)

  unfoldable pub request : Worker Answer → ℕ → Worker Answer × WorkerState
  request w now = request_in w.is_stopped w.state w.result w now

  abbrev pub poll_result : Worker Answer → Worker Answer × Option Answer
  poll_result w = (record w { result = none }, w.result)

  unfoldable pub status : Worker Answer → WorkerState
  status w = elim w.result [ none ↦ w.state | some r ↦ completed ]

  unfoldable pub request_if_due : Bool → Worker Answer → ℕ → Worker Answer × WorkerState
  request_if_due true w now = request w now
  request_if_due false w now = (w, status w)

  abbrev pub shutdown : Worker Answer → Worker Answer
  shutdown w = record w { is_stopped = true; cancel_event = true }

  -- The first section of `_run`: it waits where there is nothing to do.
  unfoldable pub begin_in : Bool → WorkerState → Worker Answer → Worker Answer
  begin_in true state w = record w { state = stopped; thread = ended }
  begin_in false queued w = record w { state = running; thread = refreshing w.requested_at }
  begin_in false state w = w

  unfoldable pub begin : Worker Answer → Worker Answer
  begin w = begin_in w.is_stopped w.state w

  -- The last section of `_run`, after `refresh`.
  unfoldable pub finish : Worker Answer → Answer → Worker Answer
  finish w r = elim w.is_stopped [
    | true ↦ record w { state = stopped; thread = ended }
    | false ↦ record w { result = some r; state = idle; thread = waiting }
  ]
