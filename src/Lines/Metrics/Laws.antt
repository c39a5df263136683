-- ===== src/Lines/Metrics/Laws.antt =====
-- What the metrics keep: the connections stay in their range and follow the load, and the bytes of
-- a day are the growth of the counter.
use steam_download_pumper.Common.{
  ℕ, zero, suc, ◌+◌, ◌-◌, ◌≤◌, ◌≡◌, refl, Bool, true, false, ◌&&◌, not, some, List, [], ◌∷◌, ◌==◌,
  min, length, length-append, arith,
}
use steam_download_pumper.Common.Text.{Text, text_eq, text_eq_refl}
use steam_download_pumper.Lines.Metrics.{
  Tracker, record_sample, append_sample, next_connection_count,
}

-- The count after so many rounds that all find the line below its target.
unfoldable pub grown : ℕ → ℕ → ℕ → Bool → ℕ → ℕ
grown base maximum current reduce zero = current
grown base maximum current reduce (suc rounds) =
    next_connection_count base maximum (grown base maximum current reduce rounds) true false reduce

grown_from :
    (base maximum current : ℕ) (reduce : Bool) (rounds : ℕ)
    → base ≤ maximum
    → maximum ≤ 12
    → current ≤ maximum
    → min maximum (base + rounds) ≤ grown base maximum current reduce (suc rounds)
unfolding grown next_connection_count
grown_from base maximum current reduce zero lo hi c = ground arith
grown_from base maximum current reduce (suc rounds) lo hi c =
    ground (arith, grown_from base maximum current reduce rounds)

-- For a base that is no larger than a maximum of at most 12: whatever the load, the next count is
-- from the base to the maximum, and one step at most from a count in that range; and a line that
-- stays below its target is at the maximum after as many rounds as these differ, and one more.
pub next_connection_count_lem :
    (base maximum current : ℕ) (below above reduce : Bool)
    → base ≤ maximum
    → maximum ≤ 12
    → let next = next_connection_count base maximum current below above reduce in
      (base ≤ next)
      × (next ≤ maximum)
      × (base ≤ current → current ≤ maximum → (next ≤ current + 1) × (current ≤ next + 1))
      × (current ≤ maximum → maximum ≤ grown base maximum current reduce (suc (maximum - base)))
unfolding next_connection_count
next_connection_count_lem base maximum current below above reduce lo hi = (
  ground arith,
  ground arith,
  λ b m. (ground arith, ground arith),
  λ m. omega (arith, grown_from base maximum current reduce (maximum - base) lo hi m),
)

-- Samples of one day, in order.
unfoldable pub record_samples : Text → List (ℕ × ℕ) → Tracker → Tracker
record_samples day [] t = t
record_samples day ((at_time, bytes) ∷ rest) t =
    record_samples day rest (record_sample at_time bytes day t)

-- The counter never falls, from a value on, and ends at another.
abbrev pub Rises : ℕ → List (ℕ × ℕ) → ℕ → Type 0
Rises bytes [] last = bytes ≡ last
Rises bytes (s ∷ rest) last = (bytes ≤ s.1) × Rises s.1 rest last

append_sample_bound :
    (s : ℕ × ℕ) (samples : List (ℕ × ℕ))
    → length samples ≤ 600
    → length (append_sample s samples) ≤ 600
append_sample_bound s [] h = ground arith
append_sample_bound s (x ∷ samples) h = ground (arith, length-append samples (s ∷ []))

same_day :
    (day : Text) (t : Tracker)
    → t.day ≡ day
    → (not (length t.day == 0) && not (text_eq day t.day)) ≡ false
same_day day t d = rw d (ground (arith, text_eq_refl day))

-- One sample of the tracker's day.
record_sample_lem :
    (day : Text) (t : Tracker) (at_time bytes now next : ℕ)
    → t.day ≡ day
    → t.last_time ≡ some at_time
    → t.last_rx_bytes ≡ some bytes
    → let after = record_sample now next day t in
      (after.day ≡ day)
      × (after.last_time ≡ some now)
      × (after.last_rx_bytes ≡ some next)
      × (after.today_bytes ≡ t.today_bytes + (next - bytes))
      × (after.samples ≡ append_sample (now, next) t.samples)
unfolding record_sample
record_sample_lem day t at_time bytes now next d l b =
    rw (same_day day t d) (ground arith, refl, refl, rw (l, b) refl, refl)

-- Over samples of the day that the tracker is at, whose counter never falls, the bytes of the day
-- grow by what the counter grows by, and the tracker keeps at most 600 samples.
pub record_samples_today :
    (day : Text) (samples : List (ℕ × ℕ)) (t : Tracker) (at_time bytes last : ℕ)
    → t.day ≡ day
    → t.last_time ≡ some at_time
    → t.last_rx_bytes ≡ some bytes
    → length t.samples ≤ 600
    → Rises bytes samples last
    → let after = record_samples day samples t in
      (after.today_bytes + bytes ≡ t.today_bytes + last) × (length after.samples ≤ 600)
unfolding record_samples
record_samples_today day [] t at_time bytes last d l b few rises = (omega (arith, rises), few)
record_samples_today day ((now, next) ∷ rest) t at_time bytes last d l b few rises =
    let (d', l', b', grown, kept) = record_sample_lem day t at_time bytes now next d l b in
    let (total, bound) =
      record_samples_today day rest (record_sample now next day t) now next last d' l' b'
        (rw kept (append_sample_bound (now, next) t.samples few)) (rises.1) in
    (omega (arith, total, grown, rises.0), bound)
