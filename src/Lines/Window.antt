-- ===== src/Lines/Window.antt =====
-- `is_within_window` of steam_pumper/config.py and `theoretical_window_bytes` of
-- steam_pumper/metrics.py. A time of the day is its second; the configured times have none below
-- the minute.
pub mod Budget
use steam_download_pumper.Common.{
  ℕ, ◌+◌, ◌-◌, ◌*◌, Bool, true, ◌&&◌, ◌||◌, leb, ltb, ◌==◌, if◌then◌else◌,
}

unfoldable pub is_within_window : ℕ → ℕ → ℕ → Bool
is_within_window start end current =
    if start == end
    then true
    else if ltb start end
    then leb start current && ltb current end
    else leb start current || ltb current end

unfoldable pub duration_seconds : ℕ → ℕ → ℕ
duration_seconds start_seconds end_seconds =
    if start_seconds == end_seconds
    then 24 * 3600
    else if ltb start_seconds end_seconds
    then end_seconds - start_seconds
    else 24 * 3600 - start_seconds + end_seconds

-- `int(target_mbps * 1_000_000 / 8 * duration_seconds)`: a megabit is 125000 bytes, and the float
-- is exact.
unfoldable pub theoretical_window_bytes : ℕ → ℕ → ℕ → ℕ
theoretical_window_bytes target_mbps start end = target_mbps * 125000 * duration_seconds start end
