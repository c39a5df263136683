-- ===== src/Lines/Targets.antt =====
-- `allocate_targets` and the two topologies of steam_pumper/topology.py.
pub mod Fairness
use steam_download_pumper.Common.{
  ℕ, zero, suc, ◌+◌, ◌*◌, ◌/◌, ◌%◌, Bool, List, [], ◌∷◌, ltb, ◌==◌, if◌then◌else◌,
}
use steam_download_pumper.Common.Text.{Text}
use steam_download_pumper.Common.Result.{Result, ok, ◌>>=◌, ◌>>◌, raise_if}

-- The line `line-n`, by its number.
pub record LogicalLine : Type 0 where
  pub number : ℕ
  pub target_mbps : ℕ
  pub bind_ip : Text

pub data TargetError : Type 0 where
  no_line : TargetError

-- `[base + (1 if index < remainder else 0) for index in range(index, index + count)]`
unfoldable pub targets_from : ℕ → ℕ → ℕ → ℕ → List ℕ
targets_from base remainder index zero = []
targets_from base remainder index (suc count) =
    (base + (if ltb index remainder then 1 else 0)) ∷ targets_from base remainder (index + 1) count

unfoldable pub allocate_targets : ℕ → ℕ → Result TargetError (List ℕ)
allocate_targets total_mbps line_count =
    raise_if (ltb line_count 1) no_line
    >> ok (targets_from (total_mbps / line_count) (total_mbps % line_count) 0 line_count)

-- `IkuaiLineTopology.lines`
unfoldable pub ikuai_lines : ℕ → List LogicalLine
ikuai_lines target_mbps = record { number = 1; target_mbps = target_mbps; bind_ip = [] } ∷ []

-- The comprehension of `MultiIPTopology.lines`, over as many addresses as there are targets.
unfoldable pub lines_from : ℕ → List ℕ → List Text → List LogicalLine
lines_from index (t ∷ targets) (ip ∷ lan_ips) =
    record { number = index + 1; target_mbps = t; bind_ip = ip }
    ∷ lines_from (index + 1) targets lan_ips
lines_from index targets lan_ips = []

unfoldable pub multi_ip_lines : ℕ → ℕ → List Text → Result TargetError (List LogicalLine)
multi_ip_lines target_mbps line_count lan_ips = do
  targets ← allocate_targets target_mbps line_count
  ok (lines_from 0 targets lan_ips)
