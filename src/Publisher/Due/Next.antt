-- ===== src/Publisher/Due/Next.antt =====
-- When `next_due` has the publication run.
use steam_download_pumper.Common.{
  ℕ, ◌+◌, ◌-◌, ◌*◌, ◌/◌, ◌%◌, ◌≤◌, ◌<◌, ◌≡◌, some, ltb, arith, if◌then◌else◌,
}
use steam_download_pumper.Fleet.Clock.{day}
use steam_download_pumper.Publisher.Due.{next_due}

-- An instant at which the clock shows the time of publication.
abbrev pub IsDue : ℕ → ℕ → Type 0
IsDue publish_time t = t % day ≡ publish_time

-- From the second day of the clock on: a publication is due at once if a time of publication has
-- passed since the last success; otherwise the next run is the first time of publication after
-- now, and none lies between the last success and now.
pub next_due_lem :
    (now publish_time success : ℕ)
    → publish_time < day
    → day ≤ now
    → let due = next_due now publish_time (some success) in
      ((t : ℕ) → IsDue publish_time t → success < t → t ≤ now → due ≡ now)
      × ((due ≡ now → (t : ℕ) × IsDue publish_time t × (success < t) × (t ≤ now)))
      × (now < due → IsDue publish_time due × ((t : ℕ) → IsDue publish_time t → now < t → due ≤ t))
      × (now ≤ due)
unfolding next_due
next_due_lem now publish_time success h later = (
  λ t due s l. ground arith,
  λ e. (
    if ltb now (now / day * day + publish_time)
        then now / day * day + publish_time - day
        else now / day * day + publish_time,
    ground arith,
    ground arith,
    ground arith,
  ),
  λ ahead. (ground arith, λ t due l. ground arith),
  ground arith,
)
