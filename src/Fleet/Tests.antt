-- ===== src/Fleet/Tests.antt =====
-- Concrete values for the models of steam_pumper/fleet.py: exact arithmetic in place of Python's
-- floats, a configuration, two accounts, a store and a controller.
mod AccountTests
mod StoreTests
mod SnmpTests
mod ControllerTests
use native.Mathlib.Omega.{div_any}
use native.Mathlib.Nat.{mul-le-mul_left, le_of_mul-le-mul_left}
use steam_download_pumper.Common.{
  ℕ, zero, suc, ◌+◌, ◌-◌, ◌*◌, ◌/◌, ◌≤◌, ◌<◌, ◌≡◌, refl, true, false, none, some, List, [], ◌∷◌,
  ltb, arith, sum_of,
}
use steam_download_pumper.Common.Text.{Text, codes}
use steam_download_pumper.Fleet.Floats.{FloatArith, Ratio, IsProportional}
use steam_download_pumper.Fleet.Config.{FleetConfig}
use steam_download_pumper.Fleet.Accounts.{FleetAccount}
use steam_download_pumper.Fleet.Store.Rows.{
  Amounts, measured_upload, fine, Traffic, Cursor, Runtime, AccountRow, Store,
}
use steam_download_pumper.Fleet.Controller.State.{
  Engine, downloading, starting, ActiveLine, Controller,
}

abbrev exact_portion : ℕ → ℕ → ℕ → ℕ
exact_portion value span zero = 0
exact_portion value span (suc e) = value * span / suc e

abbrev pub exact : FloatArith
exact = record {
  portion = exact_portion;
  estimate = λ bytes seconds span. bytes * span / (seconds * 1000000);
  ceiling = λ mbps elapsed. mbps * elapsed * 105 / 800;
  scale_up = λ upload r. (upload * r.numerator + (r.denominator - 1)) / r.denominator;
  ratio_below = λ download upload r. ltb (download * r.denominator) (upload * r.numerator);
  slower = λ bytes elapsed mbps. ltb (bytes * 8) (mbps * elapsed);
}

sum-portion :
    (v e : ℕ) (spans : List ℕ)
    → suc e * sum_of (λ s. exact_portion v s (suc e)) spans ≤ v * sum_of (λ s. s) spans
sum-portion v e [] = omega arith
sum-portion v e (s ∷ spans) = omega (arith, div_any (v * s) (suc e), sum-portion v e spans)

sum-portion_zero : (v : ℕ) (spans : List ℕ) → sum_of (λ s. exact_portion v s 0) spans ≡ 0
sum-portion_zero v [] = refl
sum-portion_zero v (s ∷ spans) = omega (arith, sum-portion_zero v spans)

pub exact-IsProportional : IsProportional exact
exact-IsProportional v zero spans h = omega (arith, sum-portion_zero v spans)
exact-IsProportional v (suc e) spans h =
    let low : suc e * sum_of (λ s. exact.portion v s (suc e)) spans ≤ v * sum_of (λ s. s) spans =
      sum-portion v e spans in
    let high : v * sum_of (λ s. s) spans ≤ v * suc e = mul-le-mul_left v h in
    le_of_mul-le-mul_left {k = suc e} (omega (arith, low, high)) (omega arith)

-- A configuration for the tests.
abbrev pub cfg : FleetConfig
cfg = record {
  rolling_days = 7;
  target_ratio = record { numerator = 21; denominator = 20 };
  per_line_mbps = 20;
  rotation_minutes = 15;
  snmp_poll_seconds = 60;
  engine_status_seconds = 5;
  scheduler_tick_seconds = 60;
  upload_ceiling_mbps = 100;
  download_ceiling_mbps = 1000;
  snmp_direction_swap = false;
  line_stall_seconds = 60;
  line_slow_window_seconds = 120;
  line_minimum_mbps = 2;
  line_failure_cooldown_minutes = 15;
}

abbrev pub first_account : FleetAccount
first_account = record {
  account_id = codes "a";
  bind_ip = codes "10.0.0.1";
  snmp_interface = codes "pppoe1";
  enabled = true;
}

abbrev pub second_account : FleetAccount
second_account = record {
  account_id = codes "b";
  bind_ip = codes "10.0.0.2";
  snmp_interface = codes "pppoe2";
  enabled = true;
}

-- An instant at which the clock of Shanghai shows 08:00.
abbrev pub morning : ℕ
morning = 86400000000 * 20000

-- The same day at 19:00 there.
abbrev pub evening : ℕ
evening = morning + 3600000000 * 11

-- The cursor of the first account, sampled in the morning.
abbrev pub first_cursor : Cursor
first_cursor = record {
  if_index = some 1;
  in_octets = some 500;
  out_octets = some 1000;
  discontinuity = none;
  sampled_at = 86400 * 20000;
  valid = true;
  baseline_at = some (86400 * 20000);
  device_uptime = none;
  missing_since = none;
  oper_status = some 1;
}

abbrev pub no_upload : Amounts
no_upload c = 0

abbrev pub one_row : List Traffic
one_row =
    record { account_id = codes "a"; at_minute = 1440 * 20000; amounts = no_upload; quality = fine }
    ∷ []

abbrev pub store : Store
store = record {
  accounts =
      record { account = first_account; last_started = 0 }
      ∷ record { account = second_account; last_started = 0 }
      ∷ [];
  traffic = one_row;
  cursors = (codes "a", first_cursor) ∷ [];
  runtime = [];
  baseline_at = some (86400 * 20000);
  manual_enabled = some true;
}

abbrev pub first_line : ActiveLine
first_line = record {
  account = first_account;
  engine = record { status = downloading; total_bytes = 4000 };
  started_at = morning;
  last_bytes = 3000;
  last_progress_at = some (morning + 30000000);
  last_accounted_at = none;
  rate_samples = (morning, 0) ∷ (morning + 30000000, 3000) ∷ [];
}

-- One line runs.
abbrev pub controller : Controller
controller = record {
  store = store;
  manual_enabled = true;
  active = (codes "a", first_line) ∷ [];
  snmp_quality = (codes "b", fine) ∷ [];
  account_cooldowns = [];
  account_health_errors = [];
  rate_total = 3000;
}

-- What a new engine and a polled one report.
abbrev pub launch : FleetAccount → Engine
launch account = record { status = starting; total_bytes = 0 }

abbrev pub polled_state : Text → ActiveLine → Engine
polled_state id line = record { status = downloading; total_bytes = line.last_bytes + 500 }
