-- ===== src/Fleet/Store/Totals.antt =====
-- The sums that `FleetStore` reports: `_totals_since`, `rolling`, `today`, `recent_upload_rates`,
-- `allocated_last24` and `last_started`.
pub mod Window
use steam_download_pumper.Common.{
  ℕ, ◌+◌, ◌-◌, ◌*◌, ◌/◌, Bool, true, false, ◌&&◌, not, Option, none, some, List, [], ◌∷◌, ◌++◌, map,
  leb, ◌==◌, if◌then◌else◌, retain, sum_of,
}
use steam_download_pumper.Common.Text.{Text, text_eq, text_in}
use steam_download_pumper.Fleet.Clock.{hour, day, local, minute_of}
use steam_download_pumper.Fleet.Accounts.{FleetAccount}
use steam_download_pumper.Fleet.Store.Rows.{
  Amounts, upload, download, snmp_download, measured_upload, measured_download, estimated_upload,
  estimated_download, unknown_seconds, interruptions, Traffic, Store, accounts_of,
}
use steam_download_pumper.Fleet.Store.Rows.Sums.{booked}
use steam_download_pumper.Fleet.Store.Rates.{up, recent_measured_rate}

-- The values of one account; `snmp_download` of the source is `all_download` once more.
pub record Totals : Type 0 where
  pub legacy_upload : ℕ
  pub legacy_download : ℕ
  pub program_download : ℕ
  pub measured_upload : ℕ
  pub measured_download : ℕ
  pub estimated_upload : ℕ
  pub estimated_download : ℕ
  pub unknown_seconds : ℕ
  pub interruptions : ℕ
  pub all_upload : ℕ
  pub all_download : ℕ

-- The item of one group, with the two sums that the source adds to it.
abbrev pub item : Amounts → Totals
item sum = record {
  legacy_upload = sum upload;
  legacy_download = sum snmp_download;
  program_download = sum download;
  measured_upload = sum measured_upload;
  measured_download = sum measured_download;
  estimated_upload = sum estimated_upload;
  estimated_download = sum estimated_download;
  unknown_seconds = sum unknown_seconds;
  interruptions = sum interruptions;
  all_upload = sum upload + sum measured_upload + sum estimated_upload;
  all_download = sum snmp_download + sum measured_download + sum estimated_download;
}

unfoldable pub totals_of : ℕ → List Traffic → Text → Totals
totals_of lower rows id = item (λ c. booked id (leb lower) c rows)

-- `GROUP BY account_id`: each id of the rows once.
unfoldable pub group_ids : List Traffic → List Text
group_ids [] = []
group_ids (r ∷ rows) =
    let ids = group_ids rows in if text_in r.account_id ids then ids else r.account_id ∷ ids

-- `values.setdefault(account.account_id, dict(empty))` for each account.
unfoldable pub with_accounts : List FleetAccount → List Text → List Text
with_accounts [] ids = ids
with_accounts (a ∷ as') ids =
    with_accounts as' (if text_in a.account_id ids then ids else ids ++ a.account_id ∷ [])

unfoldable pub find_totals : Text → List (Text × Totals) → Option Totals
find_totals id [] = none
find_totals id ((k, t) ∷ ts) = if text_eq k id then some t else find_totals id ts

-- `_totals_since`. An account without a row in the window has the sums of no row, which are 0.
unfoldable pub totals_since : ℕ → Store → List (Text × Totals)
totals_since lower s =
    let ids = group_ids (retain (λ r. leb lower r.at_minute) s.traffic) in
    map (λ id. (id, totals_of lower s.traffic id)) (with_accounts (accounts_of s) ids)

unfoldable pub rolling : ℕ → ℕ → Store → List (Text × Totals)
rolling rolling_days now s = totals_since (minute_of (now - rolling_days * day)) s

-- Since local midnight.
unfoldable pub today : ℕ → Store → List (Text × Totals)
today now s = totals_since (minute_of (local now / day * day - 8 * hour)) s

-- `allocated_last24().get(account_id, 0)`
unfoldable pub allocated_last24 : ℕ → Store → Text → ℕ
allocated_last24 now s id =
    sum_of
      (λ r.
        if text_eq r.account_id id && leb (minute_of (now - 24 * hour)) r.at_minute
        then r.allocated_seconds
        else 0)
      s.runtime

-- `last_started().get(account_id, 0)`
abbrev started_in : Text → List (Text × ℕ) → ℕ
started_in id [] = 0
started_in id ((k, t) ∷ rs) = if text_eq k id then t else started_in id rs

unfoldable pub last_started : Store → Text → ℕ
last_started s id = started_in id (map (λ r. (r.account.account_id, r.last_started)) s.accounts)

-- `recent_upload_rates`: the rate of 30 minutes, else that of a day, else 0, as bytes and seconds.
unfoldable pub recent_upload_rate : ℕ → Store → Text → ℕ × ℕ
recent_upload_rate now s id = elim (recent_measured_rate id now up 30 s.traffic) [
  | some r ↦ r
  | none ↦ elim (recent_measured_rate id now up 1440 s.traffic) [ some r ↦ r | none ↦ (0, 1) ]
]
