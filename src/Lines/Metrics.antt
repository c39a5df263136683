-- ===== src/Lines/Metrics.antt =====
-- `ThroughputTracker` and `next_connection_count` of steam_pumper/metrics.py. Instants are
-- microseconds; a rate stays the fraction of bytes and time that the source divides.
pub mod Laws
use steam_download_pumper.Common.{
  ℕ, ◌+◌, ◌-◌, ◌*◌, Bool, true, false, ◌&&◌, not, Option, none, some, List, [], ◌∷◌, ◌++◌, leb, ltb,
  ◌==◌, min, max, if◌then◌else◌, length, drop,
}
use steam_download_pumper.Common.Text.{Text, text_eq}

-- The bytes and the microseconds of a rate; none is the rate 0.
abbrev pub Rate : Type 0
Rate = Option (ℕ × ℕ)

pub record Tracker : Type 0 where
  pub samples : List (ℕ × ℕ)
  pub current_mbps : Rate
  pub today_bytes : ℕ
  pub day : Text
  pub last_time : Option ℕ
  pub last_rx_bytes : Option ℕ

abbrev pub new_tracker : Tracker
new_tracker = record {
  samples = [];
  current_mbps = none;
  today_bytes = 0;
  day = [];
  last_time = none;
  last_rx_bytes = none;
}

-- `deque(maxlen=600).append`
abbrev pub append_sample : ℕ × ℕ → List (ℕ × ℕ) → List (ℕ × ℕ)
append_sample sample samples =
    let longer = samples ++ sample ∷ [] in if ltb 600 (length longer) then drop 1 longer else longer

-- The rate and the bytes of the day after a sample, where there is an earlier one.
abbrev advance : ℕ → ℕ → Tracker → Tracker
advance timestamp rx_bytes t = elim (t.last_time) [
  | none ↦ t
  | some last ↦ elim (t.last_rx_bytes) [
    | none ↦ t
    | some bytes ↦ record t {
      current_mbps = some (rx_bytes - bytes, max 1000 (timestamp - last));
      today_bytes = t.today_bytes + (rx_bytes - bytes);
    }
  ]
]

-- `record`, on a given day.
unfoldable pub record_sample : ℕ → ℕ → Text → Tracker → Tracker
record_sample timestamp rx_bytes current_day t =
    if not (length t.day == 0) && not (text_eq current_day t.day)
    then record {
      samples = [];
      current_mbps = none;
      today_bytes = 0;
      day = current_day;
      last_time = some timestamp;
      last_rx_bytes = some rx_bytes;
    }
    else record (advance timestamp rx_bytes t) {
      day = if length t.day == 0 then current_day else t.day;
      last_time = some timestamp;
      last_rx_bytes = some rx_bytes;
      samples = append_sample (timestamp, rx_bytes) t.samples;
    }

-- The first sample from the newest on that is at least that old, or else the oldest one.
unfoldable pub window_start : ℕ → ℕ → ℕ × ℕ → List (ℕ × ℕ) → ℕ × ℕ
window_start newest_time span oldest [] = oldest
window_start newest_time span oldest (s ∷ older) =
    if leb span (newest_time - s.0) then s else window_start newest_time span oldest older

-- `next_connection_count`: the two tests of floats are arguments.
unfoldable pub next_connection_count : ℕ → ℕ → ℕ → (below above reduce_above_target : Bool) → ℕ
next_connection_count base maximum current below above reduce_above_target =
    let now = max base (min current (min maximum 12)) in
    if below && ltb now maximum
    then now + 1
    else if reduce_above_target && (above && ltb base now)
    then now - 1
    else now
