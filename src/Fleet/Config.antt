-- ===== src/Fleet/Config.antt =====
-- `FleetConfig` of steam_pumper/config.py: the fields that the fleet reads and the ranges that
-- `validate` checks after `validate_common` and the checks of types, which are not modelled here. A
-- number below 0 fails each range like 0 does, and is not a value here.
use steam_download_pumper.Common.{ℕ, ◌*◌, Bool, ◌&&◌, not, leb}
use steam_download_pumper.Common.Result.{Result, ok, ◌>>◌, raise_if}
use steam_download_pumper.Fleet.Floats.{Ratio}

pub record FleetConfig : Type 0 where
  pub rolling_days : ℕ
  pub target_ratio : Ratio
  pub per_line_mbps : ℕ
  pub rotation_minutes : ℕ
  pub snmp_poll_seconds : ℕ
  pub engine_status_seconds : ℕ
  pub scheduler_tick_seconds : ℕ
  pub upload_ceiling_mbps : ℕ
  pub download_ceiling_mbps : ℕ
  pub snmp_direction_swap : Bool
  pub line_stall_seconds : ℕ
  pub line_slow_window_seconds : ℕ
  pub line_minimum_mbps : ℕ
  pub line_failure_cooldown_minutes : ℕ

-- The field that the `ValueError` names.
pub data ConfigError : Type 0 where
  rolling_days target_ratio per_line_mbps rotation_minutes snmp_poll_seconds : ConfigError
  engine_status_seconds scheduler_tick_seconds upload_ceiling_mbps : ConfigError
  download_ceiling_mbps line_stall_seconds line_slow_window_seconds : ConfigError
  line_minimum_mbps line_failure_cooldown_minutes : ConfigError

-- `if not lo <= x <= hi: raise`
abbrev require : ℕ → ℕ → ℕ → ConfigError → Result ConfigError (Unit {0})
require lo x hi e = raise_if (not (leb lo x && leb x hi)) e

unfoldable pub validate : FleetConfig → Result ConfigError FleetConfig
validate c = do
  require 1 c.rolling_days 31 ConfigError.rolling_days
  raise_if
      (not (
        leb c.target_ratio.denominator c.target_ratio.numerator
        && leb c.target_ratio.numerator (10 * c.target_ratio.denominator)))
      ConfigError.target_ratio
  require 1 c.per_line_mbps 1000 ConfigError.per_line_mbps
  require 1 c.rotation_minutes 240 ConfigError.rotation_minutes
  require 15 c.snmp_poll_seconds 900 ConfigError.snmp_poll_seconds
  require 1 c.engine_status_seconds 60 ConfigError.engine_status_seconds
  require 15 c.scheduler_tick_seconds 900 ConfigError.scheduler_tick_seconds
  require 1 c.upload_ceiling_mbps 1000 ConfigError.upload_ceiling_mbps
  require 1 c.download_ceiling_mbps 10000 ConfigError.download_ceiling_mbps
  require 30 c.line_stall_seconds 900 ConfigError.line_stall_seconds
  require c.line_stall_seconds c.line_slow_window_seconds 1800 ConfigError.line_slow_window_seconds
  require 1 c.line_minimum_mbps c.per_line_mbps ConfigError.line_minimum_mbps
  require 1 c.line_failure_cooldown_minutes 1440 ConfigError.line_failure_cooldown_minutes
  ok c
