-- ===== src/Fleet/Controller/Health/Verdict.antt =====
-- What a verdict of `_line_health_failure` means.
use steam_download_pumper.Common.{
  ℕ, ◌+◌, ◌-◌, ◌*◌, ◌≤◌, ◌<◌, ◌≡◌, ◌≢◌, refl, none, some, or_else, List, [], ◌∷◌, arith, leb, All,
  Bool-cases, inl, inr,
}
use steam_download_pumper.Fleet.Clock.{second, timestamp}
use steam_download_pumper.Fleet.Floats.{FloatArith}
use steam_download_pumper.Fleet.Config.{FleetConfig}
use steam_download_pumper.Fleet.Controller.State.{ActiveLine, no_progress, average_below}
use steam_download_pumper.Fleet.Controller.Health.{trim, last_of, rate_failure, line_health_failure}

trim-All {ℓ} :
    (P : ℕ × ℕ → Type ℓ) (cutoff : ℕ) (samples : List (ℕ × ℕ))
    → All P samples
    → All P (trim cutoff samples)
unfolding trim
trim-All P cutoff (a ∷ b ∷ c ∷ rest) h = elim (Bool-cases (leb b.0 cutoff)) [
  | inl old ↦ rw old (trim-All P cutoff (b ∷ c ∷ rest) h.1)
  | inr new ↦ rw new h
]
trim-All P cutoff [] h = h
trim-All P cutoff (a ∷ []) h = h
trim-All P cutoff (a ∷ b ∷ []) h = h

last_of-All {ℓ} :
    (P : ℕ × ℕ → Type ℓ) (a : ℕ × ℕ) (rest : List (ℕ × ℕ)) → P a → All P rest → P (last_of a rest)
last_of-All P a [] p h = p
last_of-All P a (b ∷ rest) p h = last_of-All P b rest h.0 h.1

module _ (float : FloatArith) (cfg : FleetConfig) where
  rate_failure_young :
      (now : ℕ) (samples : List (ℕ × ℕ))
      → All (λ p. (now < p.0 + cfg.line_slow_window_seconds * second) × (p.0 ≤ now)) samples
      → rate_failure float cfg samples ≡ none
  unfolding rate_failure
  rate_failure_young now [] h = refl
  rate_failure_young now (first ∷ []) h = refl
  rate_failure_young now (first ∷ next ∷ rest) h =
      let latest =
        last_of-All (λ p. (now < p.0 + cfg.line_slow_window_seconds * second) × (p.0 ≤ now)) next
          rest h.1.0 h.1.1 in
      ground (arith, latest)

  rate_failure-no_progress :
      (samples : List (ℕ × ℕ)) (t : ℕ) → rate_failure float cfg samples ≢ some (no_progress t)
  unfolding rate_failure
  rate_failure-no_progress [] t h = cc
  rate_failure-no_progress (first ∷ []) t h = cc
  rate_failure-no_progress (first ∷ next ∷ rest) t h = ground (arith, h)

  rate_failure-average_below :
      (samples : List (ℕ × ℕ)) (t : ℕ)
      → rate_failure float cfg samples ≡ some (average_below t)
      → cfg.line_slow_window_seconds ≤ t
  unfolding rate_failure
  rate_failure-average_below [] t h = cc
  rate_failure-average_below (first ∷ []) t h = cc
  rate_failure-average_below (first ∷ next ∷ rest) t h = ground (arith, h)

  -- A line is said to make no progress exactly when its last progress, or its start if it has
  -- made none, lies at least the stall time back, and the seconds named are those since then; while
  -- all of its samples are newer than the slow window it is given no other reason; and where its
  -- average is said to be too low, that is over the slow window at least.
  pub line_health_failure_lem :
      (line : ActiveLine) (now : ℕ)
      → let stalled_for = now - or_else line.last_progress_at line.started_at in
        let verdict = (line_health_failure float cfg line now).1 in
        (cfg.line_stall_seconds * second ≤ stalled_for
          → verdict ≡ some (no_progress (timestamp stalled_for)))
        × (stalled_for < cfg.line_stall_seconds * second
            → All
                (λ p. (now < p.0 + cfg.line_slow_window_seconds * second) × (p.0 ≤ now))
                line.rate_samples
            → verdict ≡ none)
        × ((t : ℕ)
            → verdict ≡ some (no_progress t)
            → (cfg.line_stall_seconds * second ≤ stalled_for) × (t ≡ timestamp stalled_for))
        × ((t : ℕ) → verdict ≡ some (average_below t) → cfg.line_slow_window_seconds ≤ t)
  unfolding line_health_failure
  line_health_failure_lem line now = (
    λ h. ground arith,
    λ h young. ground (
      arith,
      rate_failure_young now (trim (now - cfg.line_slow_window_seconds * second) line.rate_samples)
          (trim-All _ _ line.rate_samples young),
    ),
    λ t e. ground (
      arith,
      rate_failure-no_progress
          (trim (now - cfg.line_slow_window_seconds * second) line.rate_samples) t,
    ),
    λ t e. ground (
      arith,
      rate_failure-average_below
          (trim (now - cfg.line_slow_window_seconds * second) line.rate_samples) t,
    ),
  )
