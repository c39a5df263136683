-- ===== src/Fleet/Store/Business.antt =====
-- `_business_seconds` of steam_pumper/fleet.py: how much of an interval lies in the upload window,
-- 18:00 to 24:00 in Shanghai.
pub mod Window
use steam_download_pumper.Common.{ℕ, zero, suc, ◌+◌, ◌-◌, ◌*◌, ◌/◌, leb, min, max, if◌then◌else◌}
use steam_download_pumper.Fleet.Clock.{hour, day, local}

-- The `while cursor.date() <= finish.date()` loop on local times, one round of fuel for each day.
unfoldable pub business_from : ℕ → ℕ → ℕ → ℕ
business_from zero cursor finish = 0
business_from (suc fuel) cursor finish =
    let window_start = cursor / day * day + 18 * hour in
    let window_end = window_start + 6 * hour in
    let left = max cursor window_start in
    let right = min finish window_end in
    let rest = business_from fuel ((cursor / day + 1) * day) finish in
    if leb (cursor / day) (finish / day) then right - left + rest else 0

-- In microseconds.
unfoldable pub business_span : ℕ → ℕ → ℕ
unfolding business_from
business_span start end =
    if leb end start
    then 0
    else business_from (suc (local end / day - local start / day)) (local start) (local end)
