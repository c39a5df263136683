-- ===== src/Lines/Window/Budget.antt =====
-- The byte budget is that of the seconds at which the window is open (`theoretical_window_bytes`,
-- `is_within_window`).
use steam_download_pumper.Common.{
  ℕ, zero, suc, ◌+◌, ◌-◌, ◌*◌, ◌≤◌, ◌<◌, ◌≡◌, refl, Bool, ltb, ◌==◌, if◌then◌else◌, min, arith, ap,
}
use steam_download_pumper.Lines.Window.{
  is_within_window, duration_seconds, theoretical_window_bytes,
}

-- How many of the first `n` seconds of the day pass a test.
abbrev pub count_seconds : (ℕ → Bool) → ℕ → ℕ
count_seconds p zero = 0
count_seconds p (suc n) = (if p n then 1 else 0) + count_seconds p n

count_window :
    (start end n : ℕ)
    → n ≤ 86400
    → count_seconds (is_within_window start end) n ≡ (
        if start == end
        then n
        else if ltb start end
        then min n end - start
        else n - start + min n end)
unfolding is_within_window
count_window start end zero h = ground arith
count_window start end (suc n) h = ground (arith, count_window start end n)

duration_lem :
    (start end n : ℕ)
    → n ≡ 86400
    → start < n
    → end < n
    → duration_seconds start end ≡ count_seconds (is_within_window start end) n
unfolding duration_seconds
duration_lem start end n whole s e = ground (arith, count_window start end n)

-- For times of the day, the budget is the target rate over exactly the seconds of the day that
-- lie in the window.
pub theoretical_window_bytes_lem :
    (target_mbps start end : ℕ)
    → start < 86400
    → end < 86400
    → theoretical_window_bytes target_mbps start end
      ≡ target_mbps * 125000 * count_seconds (is_within_window start end) 86400
unfolding theoretical_window_bytes
theoretical_window_bytes_lem target_mbps start end s e =
    ap (λ d. target_mbps * 125000 * d) (duration_lem start end 86400 refl s e)
