-- ===== src/Publisher/Tests.antt =====
-- The publisher at 12:00 on the third day of the clock, with publications at 03:00.
use steam_download_pumper.Common.{ℕ, ◌+◌, ◌≤◌, ◌<◌, ◌≡◌, refl, false, none, some, arith, max}
use steam_download_pumper.Fleet.Clock.{second}
use steam_download_pumper.Publisher.Due.{Delays, next_due}
use steam_download_pumper.Publisher.Due.Next.{IsDue, next_due_lem}
use steam_download_pumper.Publisher.Loop.{StateFile, Scheduler, failed, start, round}
use steam_download_pumper.Publisher.Loop.Restart.{begun, another, restart_resumes}

abbrev three : ℕ
three = 10800000000

abbrev noon : ℕ
noon = 216000000000

next_due_lem_example :
    let due = next_due noon three (some 0) in
    ((t : ℕ) → IsDue three t → 0 < t → t ≤ noon → due ≡ noon)
    × (due ≡ noon → (t : ℕ) × IsDue three t × (0 < t) × (t ≤ noon))
    × (noon < due → IsDue three due × ((t : ℕ) → IsDue three t → noon < t → due ≤ t))
    × (noon ≤ due)
next_due_lem_example = next_due_lem noon three 0 (omega arith) (omega arith)

abbrev delays : Delays
delays = record { first = 300; second = 900; third = 3600 }

abbrev clean : StateFile
clean = record {
  last_attempt_at = none;
  last_success_at = some 0;
  failed_last = false;
  consecutive_failures = 0;
  next_retry_at = none;
}

abbrev once_failed : Scheduler
once_failed = (round three delays noon (failed noon) (start three noon clean)).0

restart_resumes_example :
    let again = start three (noon + second) once_failed.state in
    (again.failures ≡ once_failed.failures)
    × (0 < once_failed.failures
        → (again.due ≤ max (noon + second) once_failed.due)
          × (max (noon + second) once_failed.due < again.due + second))
restart_resumes_example =
    restart_resumes three delays noon (noon + second) clean once_failed refl
      (another noon (failed noon) begun)
