-- ===== src/Lines/Targets/Fairness.antt =====
-- The lines share the whole target, and evenly (`allocate_targets`, `MultiIPTopology.lines`).
use native.Mathlib.Omega.{div_any}
use native.Mathlib.Nat.{mod-lt}
use steam_download_pumper.Common.{
  ℕ, zero, suc, ◌+◌, ◌-◌, ◌*◌, ◌/◌, ◌%◌, ◌≤◌, ◌≡◌, refl, List, [], ◌∷◌, arith, sum_of, All, length,
  min, map, ap,
}
use steam_download_pumper.Common.Text.{Text}
use steam_download_pumper.Common.Result.{ok}
use steam_download_pumper.Lines.Targets.{
  LogicalLine, targets_from, allocate_targets, lines_from, multi_ip_lines,
}

sum-targets_from :
    (base remainder index count : ℕ)
    → sum_of (λ t. t) (targets_from base remainder index count)
      ≡ count * base + min count (remainder - index)
unfolding targets_from
sum-targets_from base remainder index zero = omega arith
sum-targets_from base remainder index (suc count) =
    ground (arith, sum-targets_from base remainder (index + 1) count)

length-targets_from :
    (base remainder index count : ℕ) → length (targets_from base remainder index count) ≡ count
unfolding targets_from
length-targets_from base remainder index zero = refl
length-targets_from base remainder index (suc count) =
    ap suc (length-targets_from base remainder (index + 1) count)

targets_from_even :
    (base remainder index count : ℕ)
    → All (λ t. (base ≤ t) × (t ≤ base + 1)) (targets_from base remainder index count)
unfolding targets_from
targets_from_even base remainder index zero = tt
targets_from_even base remainder index (suc count) =
    (ground arith, targets_from_even base remainder (index + 1) count)

lines_from_lem :
    (index : ℕ) (targets : List ℕ) (ips : List Text)
    → length targets ≡ length ips
    → (map (λ l. l.target_mbps) (lines_from index targets ips) ≡ targets)
      × (map (λ l. l.bind_ip) (lines_from index targets ips) ≡ ips)
unfolding lines_from
lines_from_lem index [] [] h = (refl, refl)
lines_from_lem index [] (ip ∷ ips) h = (ground arith, ground arith)
lines_from_lem index (t ∷ targets) [] h = (ground arith, ground arith)
lines_from_lem index (t ∷ targets) (ip ∷ ips) h =
    let (left, right) = lines_from_lem (index + 1) targets ips (omega (arith, h)) in
    (ap (λ xs. t ∷ xs) left, ap (λ xs. ip ∷ xs) right)

-- With one address for each of at least one line, the topology has one line for each address, in
-- order; the lines' targets add up to the whole, and no two of them differ by more than one.
pub multi_ip_lines_lem :
    (target_mbps : ℕ) (lan_ips : List Text)
    → 1 ≤ length lan_ips
    → (lines : List LogicalLine) × (multi_ip_lines target_mbps (length lan_ips) lan_ips ≡ ok lines)
      × (map (λ l. l.bind_ip) lines ≡ lan_ips)
      × (sum_of (λ t. t) (map (λ l. l.target_mbps) lines) ≡ target_mbps)
      × All
          (λ t. (target_mbps / length lan_ips ≤ t) × (t ≤ target_mbps / length lan_ips + 1))
          (map (λ l. l.target_mbps) lines)
unfolding multi_ip_lines allocate_targets
multi_ip_lines_lem target_mbps lan_ips some_ip =
    let n = length lan_ips in
    let base = target_mbps / n in
    let remainder = target_mbps % n in
    let targets = targets_from base remainder 0 n in
    let (same, ips) = lines_from_lem 0 targets lan_ips (length-targets_from base remainder 0 n) in
    (
      lines_from 0 targets lan_ips,
      ground arith,
      ips,
      rw same (
          omega (
            arith,
            sum-targets_from base remainder 0 n,
            div_any target_mbps n,
            mod-lt target_mbps {m = n} (omega arith),
          )),
      rw same (targets_from_even base remainder 0 n),
    )
