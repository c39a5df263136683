-- ===== src/Fleet/Store/Snmp.antt =====
-- `record_snmp` of steam_pumper/fleet.py with `SnmpInterface`, `_save_cursor` and
-- `_save_missing_cursor`: the accounting of one SNMP sample.
pub mod Accounts
pub mod Continuity
use steam_download_pumper.Common.{
  ℕ, ◌+◌, ◌-◌, ◌*◌, ◌/◌, Bool, true, false, ◌&&◌, ◌||◌, not, Option, none, some, or_else, is_none,
  List, [], ◌∷◌, leb, ltb, ◌==◌, if◌then◌else◌, retain, length,
}
use steam_download_pumper.Common.Text.{Text, text_eq}
use steam_download_pumper.Fleet.Clock.{second, timestamp}
use steam_download_pumper.Fleet.Floats.{FloatArith}
use steam_download_pumper.Fleet.Config.{FleetConfig}
use steam_download_pumper.Fleet.Accounts.{FleetAccount}
use steam_download_pumper.Fleet.Store.Rows.{
  Column, measured_upload, measured_download, estimated_upload, estimated_download, unknown_seconds,
  sample_seconds, Amounts, Quality, fine, recovered, anomaly, reset, pending_gap, baseline, offline,
  missing, ambiguous, Traffic, Cursor, Store, clear_pending_unknown, find_cursor, put_cursor,
  accounts_of, prune,
}
use steam_download_pumper.Fleet.Store.Intervals.{add_interval_traffic}
use steam_download_pumper.Fleet.Store.Rates.{up, down, estimated_bytes, record_estimated_gap}

pub record SnmpInterface : Type 0 where
  pub index : ℕ
  pub name : Text
  pub alias : Text
  pub in_octets : ℕ
  pub out_octets : ℕ
  pub discontinuity : Option ℕ
  pub oper_status : Option ℕ

-- `item.oper_status in {None, 1}`
abbrev pub is_live : SnmpInterface → Bool
is_live i = elim (i.oper_status) [ none ↦ true | some s ↦ s == 1 ]

-- `by_identity.get(identity, [])`: an interface is listed under its name and its alias, and under
-- neither if that is empty.
unfoldable pub matches : Text → List SnmpInterface → List SnmpInterface
matches identity items =
    retain
      (λ i. not (length identity == 0) && (text_eq i.name identity || text_eq i.alias identity))
      items

-- The single live interface of the account, if there is one.
abbrev single : List SnmpInterface → Option SnmpInterface
single [] = none
single (i ∷ []) = some i
single (i ∷ j ∷ rest) = none

unfoldable pub observe : Text → List SnmpInterface → Option SnmpInterface
observe identity items = single (retain is_live (matches identity items))

unfoldable pub unavailable_state : Text → List SnmpInterface → Quality
unavailable_state identity items =
    let found = matches identity items in
    if ltb 1 (length (retain is_live found))
    then ambiguous
    else if length found == 0
    then missing
    else offline

-- `_save_cursor`: all columns are set, and `missing_since` is cleared.
unfoldable pub saved_cursor : SnmpInterface → ℕ → Bool → Option ℕ → Cursor
saved_cursor item now valid device_uptime = record {
  if_index = some item.index;
  in_octets = some item.in_octets;
  out_octets = some item.out_octets;
  discontinuity = item.discontinuity;
  sampled_at = timestamp now;
  valid = valid;
  baseline_at = some (timestamp now);
  device_uptime = device_uptime;
  missing_since = none;
  oper_status = item.oper_status;
}

-- `_save_missing_cursor`: the counters and the baseline of a known cursor stay.
unfoldable pub missing_cursor : Option Cursor → ℕ → Cursor
missing_cursor none now = record {
  if_index = none;
  in_octets = none;
  out_octets = none;
  discontinuity = none;
  sampled_at = timestamp now;
  valid = false;
  baseline_at = none;
  device_uptime = none;
  missing_since = some (timestamp now);
  oper_status = none;
}
missing_cursor (some c) now = record c {
  sampled_at = timestamp now;
  valid = false;
  missing_since = some (or_else c.missing_since (timestamp now));
}

-- `prior["baseline_at"] or prior["sampled_at"]`, as an instant.
abbrev pub baseline_instant : Cursor → ℕ
baseline_instant c = elim (c.baseline_at) [
  | none ↦ c.sampled_at * second
  | some b ↦ if b == 0 then c.sampled_at * second else b * second
]

abbrev option_differs : Option ℕ → ℕ → Bool
option_differs none n = true
option_differs (some m) n = not (m == n)

abbrev option_exceeds : Option ℕ → ℕ → Bool
option_exceeds none n = true
option_exceeds (some m) n = ltb n m

abbrev both_known : (ℕ → ℕ → Bool) → Option ℕ → Option ℕ → Bool
both_known p (some a) (some b) = p a b
both_known p _ _ = false

-- `device_reset or counter_reset`
unfoldable pub is_reset : Cursor → SnmpInterface → Option ℕ → Bool
is_reset prior observed device_uptime =
    both_known (λ before now. ltb now before) prior.device_uptime device_uptime
    || (option_differs prior.if_index observed.index
        || (option_exceeds prior.in_octets observed.in_octets
            || (option_exceeds prior.out_octets observed.out_octets
                || both_known (λ before now. not (before == now)) prior.discontinuity
                    observed.discontinuity)))

-- The deltas of the counters: what the account has sent and received.
abbrev pub upload_delta : Bool → Cursor → SnmpInterface → ℕ
upload_delta swapped prior observed =
    if swapped
    then observed.in_octets - or_else prior.in_octets 0
    else observed.out_octets - or_else prior.out_octets 0

abbrev pub download_delta : Bool → Cursor → SnmpInterface → ℕ
download_delta swapped prior observed =
    if swapped
    then observed.out_octets - or_else prior.out_octets 0
    else observed.in_octets - or_else prior.in_octets 0

module _ (float : FloatArith) (cfg : FleetConfig) where
  abbrev pub upload_valid : Cursor → SnmpInterface → ℕ → Bool
  upload_valid prior observed elapsed =
      leb (upload_delta cfg.snmp_direction_swap prior observed)
        (float.ceiling cfg.upload_ceiling_mbps elapsed)

  abbrev pub download_valid : Cursor → SnmpInterface → ℕ → Bool
  download_valid prior observed elapsed =
      leb (download_delta cfg.snmp_direction_swap prior observed)
        (float.ceiling cfg.download_ceiling_mbps elapsed)

  -- The values that a continuous sample is booked with; the estimates are computed from `rows`.
  unfoldable pub sample_amounts : Text → Cursor → SnmpInterface → ℕ → List Traffic → Amounts
  sample_amounts account_id prior observed now rows c =
      let elapsed = now - baseline_instant prior in
      let uploads = upload_valid prior observed elapsed in
      let downloads = download_valid prior observed elapsed in
      let estimate_up : Option ℕ =
        if uploads
        then some 0
        else estimated_bytes float account_id (baseline_instant prior) now up rows in
      let estimate_down : Option ℕ =
        if downloads
        then some 0
        else estimated_bytes float account_id (baseline_instant prior) now down rows in
      elim c [
        | measured_upload ↦
            if uploads then upload_delta cfg.snmp_direction_swap prior observed else 0
        | measured_download ↦
            if downloads then download_delta cfg.snmp_direction_swap prior observed else 0
        | estimated_upload ↦ or_else estimate_up 0
        | estimated_download ↦ or_else estimate_down 0
        | unknown_seconds ↦
            if (not uploads && is_none estimate_up) || (not downloads && is_none estimate_down)
            then timestamp elapsed
            else 0
        | sample_seconds ↦ timestamp elapsed
        | _ ↦ 0
      ]

  unfoldable pub sample_quality : Cursor → SnmpInterface → ℕ → Quality
  sample_quality prior observed now =
      let elapsed = now - baseline_instant prior in
      if not prior.valid
      then recovered
      else if upload_valid prior observed elapsed && download_valid prior observed elapsed
      then fine
      else anomaly

  -- The value of a missed poll: its span, as seconds that nothing is known of.
  abbrev gap_unknown : ℕ → Amounts
  gap_unknown seconds c = elim c [ unknown_seconds ↦ seconds | _ ↦ 0 ]

  -- The traffic rows after the sample of a known account.
  unfoldable pub next_rows :
      Text → Cursor → Option SnmpInterface → ℕ → Option ℕ → List Traffic → List Traffic
  next_rows account_id prior none now device_uptime rows =
      let previous_poll = prior.sampled_at * second in
      add_interval_traffic float account_id previous_poll now
        (gap_unknown (timestamp (now - previous_poll))) pending_gap rows
  next_rows account_id prior (some observed) now device_uptime rows =
      let start = baseline_instant prior in
      let cleared = clear_pending_unknown account_id start now rows in
      if not (is_live observed)
      then rows
      else if is_reset prior observed device_uptime
      then record_estimated_gap float account_id start now reset cleared
      else add_interval_traffic float account_id start now
          (sample_amounts account_id prior observed now cleared) (sample_quality prior observed now)
          cleared

  -- The cursor and the state of an account after the sample.
  unfoldable pub next_cursor : Option Cursor → Option SnmpInterface → ℕ → Option ℕ → Cursor
  next_cursor prior none now device_uptime = missing_cursor prior now
  next_cursor prior (some observed) now device_uptime =
      saved_cursor observed now (is_live observed) device_uptime

  unfoldable pub next_state :
      Option Cursor → Option SnmpInterface → ℕ → Option ℕ → Quality → Quality
  next_state prior none now device_uptime unavailable = unavailable
  next_state none (some observed) now device_uptime unavailable =
      if is_live observed then baseline else offline
  next_state (some prior) (some observed) now device_uptime unavailable =
      if not (is_live observed)
      then offline
      else if is_reset prior observed device_uptime
      then reset
      else sample_quality prior observed now

  -- The body of the loop over the accounts.
  unfoldable pub record_account :
      List SnmpInterface → ℕ → Option ℕ → FleetAccount → Store → Store × Quality
  record_account items now device_uptime account s =
      let id = account.account_id in
      let observed = observe account.snmp_interface items in
      let prior = find_cursor id s.cursors in
      (
        record s {
          traffic = elim prior [
            | none ↦ s.traffic
            | some p ↦ next_rows id p observed now device_uptime s.traffic
          ];
          cursors = put_cursor id (next_cursor prior observed now device_uptime) s.cursors;
        },
        next_state prior observed now device_uptime
            (unavailable_state account.snmp_interface items),
      )

  unfoldable pub record_accounts :
      List SnmpInterface → ℕ → Option ℕ → List FleetAccount → Store → Store × List (Text × Quality)
  record_accounts items now device_uptime [] s = (s, [])
  record_accounts items now device_uptime (a ∷ as') s =
      let (s', state) = record_account items now device_uptime a s in
      let (s'', states) = record_accounts items now device_uptime as' s' in
      (s'', (a.account_id, state) ∷ states)

  -- `record_snmp`, one transaction.
  unfoldable pub record_snmp :
      List SnmpInterface → ℕ → Option ℕ → Store → Store × List (Text × Quality)
  record_snmp items now device_uptime s =
      let started = record s { baseline_at = some (or_else s.baseline_at (timestamp now)) } in
      let (s', states) = record_accounts items now device_uptime (accounts_of started) started in
      (prune cfg.rolling_days now s', states)
