-- ===== src/Fleet/Controller/Health.antt =====
-- `_line_health_failure` of steam_pumper/fleet.py.
pub mod Verdict
use steam_download_pumper.Common.{
  ℕ, ◌+◌, ◌-◌, ◌*◌, Bool, true, false, Option, none, some, or_else, List, [], ◌∷◌, leb, ltb,
  if◌then◌else◌,
}
use steam_download_pumper.Fleet.Clock.{second, timestamp}
use steam_download_pumper.Fleet.Floats.{FloatArith}
use steam_download_pumper.Fleet.Config.{FleetConfig}
use steam_download_pumper.Fleet.Controller.State.{ActiveLine, Failure, no_progress, average_below}

-- `while len(samples) > 2 and samples[1][0] <= cutoff: samples.popleft()`
unfoldable pub trim : ℕ → List (ℕ × ℕ) → List (ℕ × ℕ)
trim cutoff (a ∷ b ∷ c ∷ rest) =
    let shorter = trim cutoff (b ∷ c ∷ rest) in if leb b.0 cutoff then shorter else a ∷ b ∷ c ∷ rest
trim cutoff samples = samples

abbrev pub last_of : ℕ × ℕ → List (ℕ × ℕ) → ℕ × ℕ
last_of a [] = a
last_of a (b ∷ rest) = last_of b rest

module _ (float : FloatArith) (cfg : FleetConfig) where
  -- The verdict on the trimmed samples.
  unfoldable pub rate_failure : List (ℕ × ℕ) → Option Failure
  rate_failure [] = none
  rate_failure (first ∷ []) = none
  rate_failure (first ∷ next ∷ rest) =
      let latest = last_of next rest in
      let elapsed = latest.0 - first.0 in
      if ltb elapsed (cfg.line_slow_window_seconds * second)
      then none
      else if float.slower (latest.1 - first.1) elapsed cfg.line_minimum_mbps
      then some (average_below (timestamp elapsed))
      else none

  -- The line with its samples trimmed, and the reason, if there is one.
  unfoldable pub line_health_failure : ActiveLine → ℕ → ActiveLine × Option Failure
  line_health_failure line now =
      let stalled_for = now - or_else line.last_progress_at line.started_at in
      if leb (cfg.line_stall_seconds * second) stalled_for
      then (line, some (no_progress (timestamp stalled_for)))
      else (let samples = trim (now - cfg.line_slow_window_seconds * second) line.rate_samples in
          (record line { rate_samples = samples }, rate_failure samples))
