-- ===== src/Fleet/Floats.antt =====
-- The floating-point arithmetic of steam_pumper/fleet.py: each field is one expression of the
-- source over numbers, with the conversion to `int` that follows it. The program computes them
-- by Python's floats, so they are a parameter of the model.
use steam_download_pumper.Common.{ℕ, ◌≤◌, Bool, List, sum_of}

-- A float of the configuration, by its exact value numerator / denominator.
pub record Ratio : Type 0 where
  pub numerator : ℕ
  pub denominator : ℕ

pub record FloatArith : Type 0 where
  -- `int(value * seconds / elapsed)`, the spans in microseconds.
  pub portion : (value span elapsed : ℕ) → ℕ
  -- `int(float(bytes) / float(seconds) * span)`, the span in microseconds.
  pub estimate : (bytes seconds span : ℕ) → ℕ
  -- `int(mbps * 1_000_000 / 8 * elapsed * 1.05)`, the span in microseconds.
  pub ceiling : (mbps elapsed : ℕ) → ℕ
  -- `math.ceil(upload * ratio)`
  pub scale_up : (upload : ℕ) → Ratio → ℕ
  -- `download / upload < ratio`
  pub ratio_below : (download upload : ℕ) → Ratio → Bool
  -- `bytes * 8 / max(0.001, elapsed) / 1_000_000 < mbps`, the span in microseconds.
  pub slower : (bytes elapsed mbps : ℕ) → Bool

-- The shares of a value over spans that fit into the whole do not exceed the value.
-- Doubles fail this for some values above 2 ^ 53, where the signed remainder of the source makes up
-- for it and the one of the model stops at 0.
abbrev pub IsProportional : FloatArith → Type 0
IsProportional f =
    (value elapsed : ℕ) (spans : List ℕ)
    → sum_of (λ s. s) spans ≤ elapsed
    → sum_of (λ s. f.portion value s elapsed) spans ≤ value
