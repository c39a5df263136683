-- ===== src/Remote/Manager/Retry.antt =====
-- When `RemoteSourceManager` of steam_pumper/remote_sources.py asks again (`due`,
-- `_next_daily_refresh`, `RETRY_DELAYS_SECONDS`).
use steam_download_pumper.Common.{
  ℕ, ◌+◌, ◌*◌, ◌≤◌, ◌<◌, ◌≡◌, refl, sym, ◌∙◌, ap, subst, Bool, true, false, [], ◌∷◌, leb, ◌==◌,
  length, if◌then◌else◌, arith,
}
use steam_download_pumper.Common.Text.{Text}
use steam_download_pumper.Common.Result.{Result, ok, err}
use steam_download_pumper.Fleet.Clock.{second, hour, day}
use steam_download_pumper.Remote.Document.{text}
use steam_download_pumper.Remote.Payload.{parse_timestamp}
use steam_download_pumper.Remote.Envelope.{
  RemoteSourceSettings, RefreshFailure, Raised, interrupted, failed, uncaught, write_failed,
}
use steam_download_pumper.Remote.Manager.{
  Disk, Manager, World, raises, Outside, save_state, next_daily_refresh, due,
}
use steam_download_pumper.Remote.Manager.Refresh.{
  refresh_delay, Attempt, Candidate, RefreshOutcome, returned, raised, accept, on_failure,
  accepted_manager, candidate_snapshot, finish, finish_with, conclude, refresh,
}
use steam_download_pumper.Remote.Manager.Failures.{started, enabled_run}

raised-returned :
    {A : Type 0} {e : Raised} {b : Bool} → ◌≡◌ {A = RefreshOutcome} (raised e) (returned b) → A
raised-returned h = cc

-- The delays grow from five minutes to six hours.
pub refresh_delay-range :
    (n : ℕ)
    → (300 ≤ refresh_delay n)
      × (refresh_delay n ≤ 21600)
      × (refresh_delay n ≤ refresh_delay (n + 1))
unfolding refresh_delay
refresh_delay-range n = ground arith

-- What `RemoteSourceSettings.from_env` and the locale grant: a time of the day, a jitter of an
-- hour at most, and a day that has begun within the last 24 hours; `isoformat` is read back.
pub record IsClock (out : Outside) (settings : RemoteSourceSettings) : Type 0 where
  pub hour_bound : settings.refresh_hour ≤ 23
  pub minute_bound : settings.refresh_minute ≤ 59
  pub jitter_bound : settings.stable_jitter_seconds ≤ 3600
  pub begun : (t : ℕ) → out.midnight t ≤ t
  pub lasting : (t : ℕ) → t < out.midnight t + day
  pub read_back : (t : ℕ) → parse_timestamp out.lib (text (out.isoformat t)) ≡ ok t

module _ (out : Outside) (settings : RemoteSourceSettings) (clock : IsClock out settings) where
  pub next_daily_refresh-range :
      (now : ℕ)
      → (now < next_daily_refresh out settings now)
        × (next_daily_refresh out settings now ≤ now + 25 * hour)
  unfolding next_daily_refresh
  next_daily_refresh-range now = ground (
    arith,
    clock.hour_bound,
    clock.minute_bound,
    clock.jitter_bound,
    clock.begun now,
    clock.lasting now,
  )

  isoformat_some : (t : ℕ) → (length (out.isoformat t) == 0) ≡ false
  unfolding parse_timestamp
  isoformat_some t = not_empty (out.isoformat t) (clock.read_back t)
    where
      not_empty : (s : Text) → parse_timestamp out.lib (text s) ≡ ok t → (length s == 0) ≡ false
      not_empty [] h = cc
      not_empty (c ∷ cs) h = ground arith

  due_lem :
      (m : Manager) (next t : ℕ)
      → settings.enabled ≡ true
      → m.startup_refresh_pending ≡ false
      → m.snapshot.next_refresh_at ≡ out.isoformat next
      → due out settings m t ≡ leb next t
  unfolding due
  due_lem m next t on flag at = rw (on, flag, at, isoformat_some next, clock.read_back next) refl

  -- Due from that instant on, which is later than the call and within 25 hours of it.
  pub record IsNext (now : ℕ) (m : Manager) : Type 0 where
    pub next : ℕ
    pub from : (t : ℕ) → due out settings m t ≡ leb next t
    pub later : now < next
    pub soon : next ≤ now + 25 * hour

  on_failure-IsNext :
      (a : Attempt) (e : RefreshFailure) (m : Manager) (d : Disk)
      → settings.enabled ≡ true
      → m.startup_refresh_pending ≡ false
      → IsNext a.now (on_failure out settings a e m d).manager
  unfolding on_failure
  on_failure-IsNext a e m d on flag = record {
    next = a.now + refresh_delay (m.failure_count + 1) * second;
    from = λ t. due_lem _ _ t on flag refl;
    later = ground (arith, refresh_delay-range (m.failure_count + 1));
    soon = ground (arith, refresh_delay-range (m.failure_count + 1));
  }

  accepted-IsNext :
      (a : Attempt) (m : Manager) (c : Candidate)
      → settings.enabled ≡ true
      → m.startup_refresh_pending ≡ false
      → IsNext a.now (accepted_manager out settings m a.now c)
  unfolding accepted_manager candidate_snapshot
  accepted-IsNext a m c on flag = record {
    next = next_daily_refresh out settings a.now;
    from = λ t. due_lem _ _ t on flag refl;
    later = (next_daily_refresh-range a.now).0;
    soon = (next_daily_refresh-range a.now).1;
  }

  finish_with-IsNext :
      (m : Manager) (a : Attempt) (c : Candidate) (disk : Disk) (writes raising : Bool)
      → settings.enabled ≡ true
      → m.startup_refresh_pending ≡ false
      → IsNext a.now (finish_with out settings m a c disk writes raising).0.manager
  unfolding finish_with
  finish_with-IsNext m a c disk false raising on flag = accepted-IsNext a m c on flag
  finish_with-IsNext m a c disk true true on flag = on_failure-IsNext a write_failed m _ on flag
  finish_with-IsNext m a c disk true false on flag = accepted-IsNext a m c on flag

  conclude-IsNext :
      (m : Manager) (a : Attempt) (disk : Disk) (r : Result Raised Candidate) (changed : Bool)
      → settings.enabled ≡ true
      → m.startup_refresh_pending ≡ false
      → (conclude out settings m a r disk).1 ≡ returned changed
      → IsNext a.now (conclude out settings m a r disk).0.manager
  unfolding conclude finish
  conclude-IsNext m a disk (err interrupted) changed on flag h = raised-returned h
  conclude-IsNext m a disk (err uncaught) changed on flag h = raised-returned h
  conclude-IsNext m a disk (err (failed e)) changed on flag h = on_failure-IsNext a e m disk on flag
  conclude-IsNext m a disk (ok c) changed on flag h =
      let saved = save_state a.state_write (candidate_snapshot out settings m a.now c) 0 disk in
      elim (raises a.state_write)
        as (λ b.
          IsNext a.now
            (if b
              then (on_failure out settings a write_failed m saved, returned false)
              else finish out settings m a c saved).0.manager) [
                | true ↦ on_failure-IsNext a write_failed m saved on flag
                | false ↦ finish_with-IsNext m a c saved _ _ on flag
              ]

  -- Where the list is enabled, the settings are in their ranges and instants are read back, a call
  -- that returns, the list taken or the failure counted, leaves the manager due exactly from one
  -- instant on, later than the call and within 25 hours of it.
  pub refresh-IsNext :
      (a : Attempt) (w : World) (changed : Bool)
      → settings.enabled ≡ true
      → (refresh out settings a w).1 ≡ returned changed
      → IsNext a.now (refresh out settings a w).0.manager
  refresh-IsNext a w changed on h =
      let run = enabled_run out settings a w on in
      subst (λ r. IsNext a.now r.0.manager) (sym run)
        (conclude-IsNext (started w) a w.disk (accept out settings (started w) a) changed on refl
          (ap (λ r. r.1) (sym run) ∙ h))
