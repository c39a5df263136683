-- ===== src/Remote/Worker/Orderly.antt =====
-- Histories of the refresh worker of steam_pumper/remote_sources.py: what its callers and its
-- thread do, in any order that the thread's place allows.
use steam_download_pumper.Common.{
  ℕ, ◌≡◌, refl, sym, ◌∙◌, subst, arith, Bool, true, false, Option, none, some, List, [], ◌∷◌,
}
use steam_download_pumper.Remote.Worker.{
  WorkerState, idle, queued, running, waiting, refreshing, Worker, initial, request_in, request,
  poll_result, shutdown, begin_in, begin, finish,
}

-- What has happened, the newest first: the requests that were taken, those that a refresh began
-- for, the answers of the refreshes, and the answers that were fetched.
pub record Log (Answer : Type 0) : Type 0 where
  pub accepted : List ℕ
  pub begun : List ℕ
  pub answered : List Answer
  pub fetched : List Answer

-- The instant if there is one, ahead of the list.
abbrev pub ahead : {A : Type 0} → Option A → List A → List A
ahead none xs = xs
ahead (some x) xs = x ∷ xs

-- Places and states that exclude each other.
idle-queued : {A : Type 0} → idle ≡ queued → A
idle-queued h = cc

refreshing-waiting : {A : Type 0} {at : Option ℕ} → refreshing at ≡ waiting → A
refreshing-waiting h = cc

waiting-refreshing : {A : Type 0} {at : Option ℕ} → waiting ≡ refreshing at → A
waiting-refreshing h = cc

true-false : {A : Type 0} → true ≡ false → A
true-false h = cc

module _ {Answer : Type 0} where
  -- A request is taken where the worker is not shut down, has none, and has no answer to fetch.
  unfoldable pub taken : Bool → WorkerState → Option Answer → ℕ → List ℕ → List ℕ
  taken true state result now times = times
  taken false queued result now times = times
  taken false running result now times = times
  taken false state (some r) now times = times
  taken false state none now times = now ∷ times

  abbrev pub logged_request : Worker Answer → ℕ → Log Answer → Log Answer
  logged_request w now l = record l {
    accepted = taken w.is_stopped w.state w.result now l.accepted;
  }

  pub data History : Worker Answer → Log Answer → Type 0 where
    started : History initial (record { accepted = []; begun = []; answered = []; fetched = [] })
    requested :
        {w : Worker Answer} {l : Log Answer}
        → History w l
        → (now : ℕ) → History (request w now).0 (logged_request w now l)
    polled :
        {w : Worker Answer} {l : Log Answer}
        → History w l
        → History (poll_result w).0 (record l { fetched = ahead w.result l.fetched })
    shut : {w : Worker Answer} {l : Log Answer} → History w l → History (shutdown w) l
    began :
        {w : Worker Answer} {l : Log Answer}
        → History w l
        → (now : ℕ) → w.thread ≡ waiting
        → w.is_stopped ≡ false
        → w.state ≡ queued
        → w.requested_at ≡ some now
        → History (begin w) (record l { begun = now ∷ l.begun })
    ended_waiting :
        {w : Worker Answer} {l : Log Answer}
        → History w l
        → w.thread ≡ waiting
        → w.is_stopped ≡ true
        → History (begin w) l
    finished :
        {w : Worker Answer} {l : Log Answer}
        → History w l
        → (at : Option ℕ) (r : Answer) → w.thread ≡ refreshing at
        → History (finish w r) (record l { answered = r ∷ l.answered })

  -- The four states that a worker is in while it is not shut down.
  pub data IsOrderly : Worker Answer → Log Answer → Type 0 where
    at_rest :
        (e : Bool) (at : Option ℕ) (times : List ℕ) (answers : List Answer)
        → IsOrderly
            (record {
              state = idle;
              requested_at = at;
              result = none;
              is_stopped = false;
              cancel_event = e;
              thread = waiting;
            })
            (record { accepted = times; begun = times; answered = answers; fetched = answers })
    in_queue :
        (e : Bool) (now : ℕ) (times : List ℕ) (answers : List Answer)
        → IsOrderly
            (record {
              state = queued;
              requested_at = some now;
              result = none;
              is_stopped = false;
              cancel_event = e;
              thread = waiting;
            })
            (record {
              accepted = now ∷ times;
              begun = times;
              answered = answers;
              fetched = answers;
            })
    at_work :
        (e : Bool) (now : ℕ) (times : List ℕ) (answers : List Answer)
        → IsOrderly
            (record {
              state = running;
              requested_at = some now;
              result = none;
              is_stopped = false;
              cancel_event = e;
              thread = refreshing (some now);
            })
            (record {
              accepted = now ∷ times;
              begun = now ∷ times;
              answered = answers;
              fetched = answers;
            })
    at_result :
        (e : Bool) (at : Option ℕ) (r : Answer) (times : List ℕ) (answers : List Answer)
        → IsOrderly
            (record {
              state = idle;
              requested_at = at;
              result = some r;
              is_stopped = false;
              cancel_event = e;
              thread = waiting;
            })
            (record { accepted = times; begun = times; answered = r ∷ answers; fetched = answers })
    shut_down : (w : Worker Answer) (l : Log Answer) → w.is_stopped ≡ true → IsOrderly w l

  request-IsOrderly :
      {w : Worker Answer} {l : Log Answer} (now : ℕ)
      → IsOrderly w l
      → IsOrderly (request w now).0 (logged_request w now l)
  unfolding request request_in taken
  request-IsOrderly now (at_rest e at times answers) = in_queue e now times answers
  request-IsOrderly now (in_queue e at times answers) = in_queue e at times answers
  request-IsOrderly now (at_work e at times answers) = at_work e at times answers
  request-IsOrderly now (at_result e at r times answers) = at_result e at r times answers
  request-IsOrderly now (shut_down w l h) = shut_down _ _ (ground arith)

  poll-IsOrderly :
      {w : Worker Answer} {l : Log Answer}
      → IsOrderly w l
      → IsOrderly (poll_result w).0 (record l { fetched = ahead w.result l.fetched })
  poll-IsOrderly (at_rest e at times answers) = at_rest e at times answers
  poll-IsOrderly (in_queue e at times answers) = in_queue e at times answers
  poll-IsOrderly (at_work e at times answers) = at_work e at times answers
  poll-IsOrderly (at_result e at r times answers) = at_rest e at times (r ∷ answers)
  poll-IsOrderly (shut_down w l h) = shut_down _ _ h

  begin-IsOrderly :
      {w : Worker Answer} {l : Log Answer} (now : ℕ)
      → IsOrderly w l
      → w.thread ≡ waiting
      → w.is_stopped ≡ false
      → w.state ≡ queued
      → w.requested_at ≡ some now
      → IsOrderly (begin w) (record l { begun = now ∷ l.begun })
  unfolding begin begin_in
  begin-IsOrderly now (at_rest e at times answers) thread on state h = idle-queued state
  begin-IsOrderly now (in_queue e at times answers) thread on state h =
      subst
        (λ n.
          IsOrderly
            (record {
              state = running;
              requested_at = some at;
              result = none;
              is_stopped = false;
              cancel_event = e;
              thread = refreshing (some at);
            })
            (record {
              accepted = at ∷ times;
              begun = n ∷ times;
              answered = answers;
              fetched = answers;
            }))
        (cc) (at_work e at times answers)
  begin-IsOrderly now (at_work e at times answers) thread on state h = refreshing-waiting thread
  begin-IsOrderly now (at_result e at r times answers) thread on state h = idle-queued state
  begin-IsOrderly now (shut_down w l h) thread on state at = true-false (sym h ∙ on)

  finish-IsOrderly :
      {w : Worker Answer} {l : Log Answer} (at : Option ℕ) (r : Answer)
      → IsOrderly w l
      → w.thread ≡ refreshing at
      → IsOrderly (finish w r) (record l { answered = r ∷ l.answered })
  unfolding finish
  finish-IsOrderly at r (at_rest e t times answers) h = waiting-refreshing h
  finish-IsOrderly at r (in_queue e t times answers) h = waiting-refreshing h
  finish-IsOrderly at r (at_work e t times answers) h = at_result e (some t) r (t ∷ times) answers
  finish-IsOrderly at r (at_result e t old times answers) h = waiting-refreshing h
  finish-IsOrderly at r (shut_down w l stop) h = shut_down _ _ (ground arith)

  -- Until it is shut down, the worker is in one of four states: at rest, with one request in the
  -- queue, with one refresh at work, or with one answer to fetch. A refresh began for every request
  -- that was taken, but for the one in the queue, in their order, and every answer was fetched once,
  -- but for the one to fetch, in their order.
  pub History-IsOrderly : {w : Worker Answer} {l : Log Answer} → History w l → IsOrderly w l
  unfolding begin begin_in
  History-IsOrderly started = at_rest false none [] []
  History-IsOrderly (requested h now) = request-IsOrderly now (History-IsOrderly h)
  History-IsOrderly (polled h) = poll-IsOrderly (History-IsOrderly h)
  History-IsOrderly (shut h) = shut_down _ _ refl
  History-IsOrderly (began h now thread on state at) =
      begin-IsOrderly now (History-IsOrderly h) thread on state at
  History-IsOrderly (ended_waiting {w = w} h thread off) = shut_down _ _ (rw (off) refl)
  History-IsOrderly (finished h at r thread) = finish-IsOrderly at r (History-IsOrderly h) thread
