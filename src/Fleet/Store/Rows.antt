-- ===== src/Fleet/Store/Rows.antt =====
-- The tables of `FleetStore` and the statements on one row of them: `_add_traffic`,
-- `record_download`, `_clear_pending_unknown`, `_save_cursor`, `_save_missing_cursor`,
-- `record_runtime`, `mark_started`, `_prune`, the `meta` table and the accounts.
pub mod Sums
use steam_download_pumper.Common.{
  ℕ, ◌+◌, ◌-◌, ◌*◌, Bool, true, false, ◌&&◌, ◌||◌, not, Option, none, some, or_else, List, [], ◌∷◌,
  map, leb, ltb, ◌==◌, if◌then◌else◌, retain,
}
use steam_download_pumper.Common.Text.{Text, text_eq, text_leb, text_in}
use steam_download_pumper.Fleet.Clock.{minute, day, minute_of, timestamp, second}
use steam_download_pumper.Fleet.Accounts.{FleetAccount}

-- The numeric columns of `traffic`.
pub data Column : Type 0 where
  upload download snmp_download measured_upload measured_download : Column
  estimated_upload estimated_download unknown_seconds sample_seconds interruptions : Column

abbrev pub Amounts : Type 0
Amounts = Column → ℕ

abbrev pub no_amounts : Amounts
no_amounts c = 0

-- The texts of `quality`, and the states that `record_snmp` reports for an account.
pub data Quality : Type 0 where
  fine recovered anomaly reset pending_gap baseline offline missing ambiguous : Quality

pub record Traffic : Type 0 where
  pub account_id : Text
  pub at_minute : ℕ
  pub amounts : Amounts
  pub quality : Quality

pub record Cursor : Type 0 where
  pub if_index : Option ℕ
  pub in_octets : Option ℕ
  pub out_octets : Option ℕ
  pub discontinuity : Option ℕ
  pub sampled_at : ℕ
  pub valid : Bool
  pub baseline_at : Option ℕ
  pub device_uptime : Option ℕ
  pub missing_since : Option ℕ
  pub oper_status : Option ℕ

pub record Runtime : Type 0 where
  pub account_id : Text
  pub at_minute : ℕ
  pub allocated_seconds : ℕ

pub record AccountRow : Type 0 where
  pub account : FleetAccount
  pub last_started : ℕ

-- `meta` holds the two keys that the operations read, by their values.
pub record Store : Type 0 where
  pub accounts : List AccountRow
  pub traffic : List Traffic
  pub cursors : List (Text × Cursor)
  pub runtime : List Runtime
  pub baseline_at : Option ℕ
  pub manual_enabled : Option Bool

-- `CASE WHEN traffic.quality='ok' THEN excluded.quality ELSE traffic.quality END`
abbrev merge_quality : Quality → Quality → Quality
merge_quality fine new = new
merge_quality old new = old

abbrev pub is_row : Text → ℕ → Traffic → Bool
is_row account_id m r = text_eq r.account_id account_id && r.at_minute == m

-- `_add_traffic`: the upsert on the key of account and minute.
unfoldable pub add_traffic : Text → ℕ → Amounts → Quality → List Traffic → List Traffic
add_traffic account_id m values quality [] =
    record { account_id = account_id; at_minute = m; amounts = values; quality = quality } ∷ []
add_traffic account_id m values quality (r ∷ rs) =
    if is_row account_id m r
    then record r {
      amounts = λ c. r.amounts c + values c;
      quality = merge_quality r.quality quality;
    }
      ∷ rs
    else r ∷ add_traffic account_id m values quality rs

-- `_clear_pending_unknown`
abbrev pub clear_row : Text → ℕ → ℕ → Traffic → Traffic
clear_row account_id first last r =
    if text_eq r.account_id account_id && (leb first r.at_minute && leb r.at_minute last)
    then record r {
      amounts = λ c. elim c [ unknown_seconds ↦ 0 | other ↦ r.amounts other ];
      quality = elim (r.quality) [ pending_gap ↦ recovered | other ↦ other ];
    }
    else r

unfoldable pub clear_pending_unknown : Text → ℕ → ℕ → List Traffic → List Traffic
clear_pending_unknown account_id start end rows =
    map (clear_row account_id (minute_of start) (minute_of end)) rows

unfoldable pub find_cursor : Text → List (Text × Cursor) → Option Cursor
find_cursor account_id [] = none
find_cursor account_id ((k, c) ∷ cs) =
    if text_eq k account_id then some c else find_cursor account_id cs

unfoldable pub put_cursor : Text → Cursor → List (Text × Cursor) → List (Text × Cursor)
put_cursor account_id cursor [] = (account_id, cursor) ∷ []
put_cursor account_id cursor ((k, c) ∷ cs) =
    if text_eq k account_id then (k, cursor) ∷ cs else (k, c) ∷ put_cursor account_id cursor cs

-- `accounts`: the rows in the order of the ids.
abbrev insert_sorted : FleetAccount → List FleetAccount → List FleetAccount
insert_sorted a [] = a ∷ []
insert_sorted a (b ∷ bs) =
    if text_leb a.account_id b.account_id then a ∷ b ∷ bs else b ∷ insert_sorted a bs

abbrev pub sort_accounts : List AccountRow → List FleetAccount
sort_accounts [] = []
sort_accounts (r ∷ rs) = insert_sorted r.account (sort_accounts rs)

unfoldable pub accounts_of : Store → List FleetAccount
accounts_of s = sort_accounts s.accounts

-- The UNIQUE constraints of `accounts`: whether the insertion of the rows succeeds.
abbrev clash : FleetAccount → FleetAccount → Bool
clash a b =
    text_eq a.account_id b.account_id
    || text_eq a.bind_ip b.bind_ip
    || text_eq a.snmp_interface b.snmp_interface

abbrev clashes : FleetAccount → List FleetAccount → Bool
clashes a [] = false
clashes a (b ∷ bs) = clash a b || clashes a bs

unfoldable pub all_unique : List FleetAccount → Bool
all_unique [] = true
all_unique (a ∷ as') = not (clashes a as') && all_unique as'

-- `import_accounts`, one transaction: `none` where a constraint fails and all is rolled back.
unfoldable pub import_accounts : List FleetAccount → Store → Option Store
import_accounts accounts s =
    if all_unique accounts
    then some (record s { accounts = map (λ a. record { account = a; last_started = 0 }) accounts })
    else none

-- `download=amount`, and no other column.
unfoldable pub download_only : ℕ → Amounts
download_only amount c = elim c [ download ↦ amount | _ ↦ 0 ]

unfoldable pub record_download : Text → ℕ → ℕ → Store → Store
record_download account_id amount observed_at s = if amount == 0 then s else record s {
  traffic = add_traffic account_id (minute_of observed_at) (download_only amount) fine s.traffic;
}

unfoldable pub add_runtime : Text → ℕ → ℕ → List Runtime → List Runtime
add_runtime account_id m seconds [] =
    record { account_id = account_id; at_minute = m; allocated_seconds = seconds } ∷ []
add_runtime account_id m seconds (r ∷ rs) =
    if text_eq r.account_id account_id && r.at_minute == m
    then record r { allocated_seconds = r.allocated_seconds + seconds } ∷ rs
    else r ∷ add_runtime account_id m seconds rs

-- `record_runtime`, with the span booked at the minute of its end.
unfoldable pub record_runtime : Text → ℕ → ℕ → Store → Store
record_runtime account_id start end s =
    let seconds = timestamp (end - start) in
    if seconds == 0
    then s
    else record s { runtime = add_runtime account_id (minute_of end) seconds s.runtime }

unfoldable pub mark_started : Text → ℕ → Store → Store
mark_started account_id at_time s = record s {
  accounts =
      map
        (λ r.
          if text_eq r.account.account_id account_id
          then record r { last_started = timestamp at_time }
          else r)
        s.accounts;
}

-- `_prune`
unfoldable pub prune : ℕ → ℕ → Store → Store
prune rolling_days now s = record s {
  traffic = retain (λ r. leb (minute_of (now - (rolling_days + 1) * day)) r.at_minute) s.traffic;
  runtime = retain (λ r. leb (minute_of (now - 2 * day)) r.at_minute) s.runtime;
}

unfoldable pub load_manual_enabled : Bool → Store → Bool
load_manual_enabled default s = or_else s.manual_enabled default

unfoldable pub save_manual_enabled : Bool → Store → Store
save_manual_enabled enabled s = record s { manual_enabled = some enabled }

-- `warmup`: whether the rolling window is complete, and the seconds that it lacks.
unfoldable pub warmup : ℕ → ℕ → Store → Bool × ℕ
warmup rolling_days now s = elim (s.baseline_at) [
  | none ↦ (false, rolling_days * 86400)
  | some b ↦
      let elapsed = timestamp now - b in
      (leb (rolling_days * 86400) elapsed, rolling_days * 86400 - elapsed)
]
