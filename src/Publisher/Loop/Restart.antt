-- ===== src/Publisher/Loop/Restart.antt =====
-- What state.json knows of the scheduler, and what a restart makes of it (`run_scheduler`).
use steam_download_pumper.Common.{
  ℕ, ◌+◌, ◌≤◌, ◌<◌, ◌≡◌, refl, some, ltb, max, arith, ◌⊎◌, inl, inr, Bool-cases,
}
use steam_download_pumper.Fleet.Clock.{second}
use steam_download_pumper.Publisher.Due.{Delays}
use steam_download_pumper.Publisher.Loop.{
  StateFile, Scheduler, Outcome, published, failed, interrupted, start, record_success,
  record_failure, round,
}

-- The file tells how often the publication has failed, when it is due again after a failure, and
-- when it last succeeded, up to the second.
pub record IsRecorded (s : Scheduler) : Type 0 where
  pub counted : s.state.consecutive_failures ≡ s.failures
  pub retried :
      (s.failures ≡ 0)
      ⊎ ((t : ℕ) × (s.state.next_retry_at ≡ some t) × (t ≤ s.due) × (s.due < t + second))

module _ (publish_time : ℕ) (delays : Delays) where
  -- Rounds of the loop at any instants, with any outcomes.
  pub data Continues (s : Scheduler) : Scheduler → Type 0 where
    begun : Continues s s
    another :
        {t : Scheduler} (now : ℕ) (outcome : Outcome)
        → Continues s t
        → Continues s (round publish_time delays now outcome t).0

  record_failure-IsRecorded :
      (at_time : ℕ) (s : Scheduler) → IsRecorded (record_failure publish_time delays at_time s)
  unfolding record_failure
  record_failure-IsRecorded at_time s = record {
    counted = refl;
    retried = inr (_, refl, omega arith, omega arith);
  }

  record_success-IsRecorded :
      (at_time : ℕ) (s : Scheduler) → IsRecorded (record_success publish_time delays at_time s)
  unfolding record_success
  record_success-IsRecorded at_time s = record { counted = refl; retried = inl refl }

  round-IsRecorded :
      (now : ℕ) (outcome : Outcome) (s : Scheduler)
      → IsRecorded s
      → IsRecorded (round publish_time delays now outcome s).0
  unfolding round
  round-IsRecorded now (published at_time) s h = elim (Bool-cases (ltb now s.due)) [
    | inl early ↦ rw early h
    | inr reached ↦ rw reached (record_success-IsRecorded at_time s)
  ]
  round-IsRecorded now (failed at_time) s h = elim (Bool-cases (ltb now s.due)) [
    | inl early ↦ rw early h
    | inr reached ↦ rw reached (record_failure-IsRecorded at_time s)
  ]
  round-IsRecorded now interrupted s h = elim (Bool-cases (ltb now s.due)) [
    | inl early ↦ rw early h
    | inr reached ↦ rw reached h
  ]

  start-IsRecorded :
      (started_at : ℕ) (state : StateFile)
      → state.consecutive_failures ≡ 0
      → IsRecorded (start publish_time started_at state)
  unfolding start
  start-IsRecorded started_at state clean = record { counted = refl; retried = inl clean }

  Continues-IsRecorded : {s t : Scheduler} → IsRecorded s → Continues s t → IsRecorded t
  Continues-IsRecorded h begun = h
  Continues-IsRecorded h (another {t = t} now outcome before) =
      round-IsRecorded now outcome t (Continues-IsRecorded h before)

  -- The process may end after any number of rounds: if it began without failures on record, then
  -- a new start at any instant goes on with the same count of failures, and after a failure it is
  -- due when the ended process was, or at once if that has passed, less than a second too early
  -- and never too late.
  pub restart_resumes :
      (started_at now : ℕ) (state : StateFile) (t : Scheduler)
      → state.consecutive_failures ≡ 0
      → Continues (start publish_time started_at state) t
      → let again = start publish_time now t.state in
        (again.failures ≡ t.failures)
        × (0 < t.failures → (again.due ≤ max now t.due) × (max now t.due < again.due + second))
  unfolding start
  restart_resumes started_at now state t clean rounds =
      let known = Continues-IsRecorded (start-IsRecorded started_at state clean) rounds in
      (known.counted, λ some_failure. ground (arith, known.counted, known.retried))
