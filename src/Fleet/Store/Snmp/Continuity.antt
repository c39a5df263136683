-- ===== src/Fleet/Store/Snmp/Continuity.antt =====
-- Over a history of samples the measured upload is the growth of the interface's counter, polls
-- that missed the interface included (`record_snmp`, `_add_interval_traffic`, `_save_cursor`,
-- `_save_missing_cursor`, `_prune`).
use steam_download_pumper.Common.{
  ℕ, ◌+◌, ◌-◌, ◌*◌, ◌≤◌, ◌<◌, ◌≡◌, refl, Bool, true, false, Option, none, some, List, leb, arith,
  if◌then◌else◌, ◌⊎◌, inl, inr, or_else, ◌∙◌, subst, ap,
}
use native.Mathlib.Decide.{dec_lt}
use steam_download_pumper.Common.Text.{Text}
use steam_download_pumper.Fleet.Clock.{second, day, minute_of}
use steam_download_pumper.Fleet.Floats.{FloatArith, IsProportional}
use steam_download_pumper.Fleet.Config.{FleetConfig}
use steam_download_pumper.Fleet.Accounts.{FleetAccount}
use steam_download_pumper.Fleet.Store.Rows.{
  measured_upload, pending_gap, Traffic, Cursor, Store, find_cursor, accounts_of,
  clear_pending_unknown,
}
use steam_download_pumper.Fleet.Store.Rows.Sums.{booked, booked-clear_pending_unknown}
use steam_download_pumper.Fleet.Store.Intervals.{add_interval_traffic}
use steam_download_pumper.Fleet.Store.Intervals.Conservation.{
  booked-add_interval_traffic, add_interval_traffic_empty,
}
use steam_download_pumper.Fleet.Store.Snmp.{
  SnmpInterface, is_live, is_reset, observe, upload_delta, upload_valid, sample_amounts,
  sample_quality, saved_cursor, missing_cursor, next_rows, next_cursor, record_snmp,
  baseline_instant,
}
use steam_download_pumper.Fleet.Store.Snmp.Accounts.{
  Holds, record_snmp-account, record_snmp_keeps_accounts,
}

-- The octets that an interface has sent, and what a cursor knows of them.
abbrev pub sent : FleetConfig → SnmpInterface → ℕ
sent cfg o = if cfg.snmp_direction_swap then o.in_octets else o.out_octets

abbrev pub known_sent : FleetConfig → Cursor → ℕ
known_sent cfg c = if cfg.snmp_direction_swap then or_else c.in_octets 0 else or_else c.out_octets 0

module _ (float : FloatArith) (cfg : FleetConfig) where
  -- A sample that continues the counters of the cursor at a plausible rate.
  pub record IsContinuous (c : Cursor) (o : SnmpInterface) (now : ℕ) (u : Option ℕ) : Type 0 where
    pub live : is_live o ≡ true
    pub no_reset : is_reset c o u ≡ false
    pub plausible : upload_valid float cfg c o (now - baseline_instant c) ≡ true
    pub later : baseline_instant c < now

  -- The cursor's baseline lies behind its last poll, and in the summed window.
  pub record IsAligned (lower : ℕ) (c : Cursor) : Type 0 where
    pub in_window : lower ≤ minute_of (baseline_instant c)
    pub ordered : baseline_instant c ≤ c.sampled_at * second

  delta-sent :
      (c : Cursor) (o : SnmpInterface) (u : Option ℕ)
      → is_reset c o u ≡ false
      → upload_delta cfg.snmp_direction_swap c o + known_sent cfg c ≡ sent cfg o
  unfolding is_reset
  delta-sent c o u h = ground arith

  measured_value :
      (a : Text) (c : Cursor) (o : SnmpInterface) (now : ℕ) (u : Option ℕ) (rows : List Traffic)
      → IsContinuous c o now u
      → sample_amounts float cfg a c o now rows measured_upload
        ≡ upload_delta cfg.snmp_direction_swap c o
  unfolding sample_amounts
  measured_value a c o now u rows h = rw (h.plausible) refl

  counted_rows :
      (a : Text) (c : Cursor) (o : SnmpInterface) (now : ℕ) (u : Option ℕ) (lower : ℕ)
      (rows : List Traffic)
      → IsProportional float
      → IsContinuous c o now u
      → lower ≤ minute_of (baseline_instant c)
      → booked a (leb lower) measured_upload (next_rows float cfg a c (some o) now u rows)
          + known_sent cfg c
        ≡ booked a (leb lower) measured_upload rows + sent cfg o
  unfolding next_rows
  counted_rows a c o now u lower rows law h from =
      let start = baseline_instant c in
      let cleared = clear_pending_unknown a start now rows in
      let values = sample_amounts float cfg a c o now cleared in
      let quality = sample_quality float cfg c o now in
      let branch : next_rows float cfg a c (some o) now u rows
          ≡ add_interval_traffic float a start now values quality cleared =
        rw (h.live, h.no_reset, next_rows) refl in
      rw branch (
        omega (
          arith,
          booked-add_interval_traffic float a start now lower values quality measured_upload cleared
              law h.later from,
          booked-clear_pending_unknown a (leb lower) measured_upload a start now rows (cc),
          delta-sent c o u h.no_reset,
          measured_value a c o now u cleared h,
        ))

  missed_rows :
      (a : Text) (c : Cursor) (now : ℕ) (u : Option ℕ) (lower : ℕ) (rows : List Traffic)
      → IsProportional float
      → IsAligned lower c
      → booked a (leb lower) measured_upload (next_rows float cfg a c none now u rows)
        ≡ booked a (leb lower) measured_upload rows
  unfolding next_rows
  missed_rows a c now u lower rows law h =
      let poll = c.sampled_at * second in
      elim (dec_lt poll now) [
        | yes before ↦ omega (
          arith,
          booked-add_interval_traffic float a poll now lower _ pending_gap measured_upload rows law
              before (omega (arith, h.in_window, h.ordered)),
        )
        | no empty ↦
            ap (booked a (leb lower) measured_upload)
              (add_interval_traffic_empty float a poll now _ pending_gap rows (omega arith))
      ]

  saved_cursor-IsAligned :
      (lower : ℕ) (o : SnmpInterface) (now : ℕ) (valid : Bool) (u : Option ℕ)
      → lower ≤ minute_of now
      → IsAligned lower (saved_cursor o now valid u)
  unfolding saved_cursor
  saved_cursor-IsAligned lower o now valid u h = ground arith

  saved_cursor-sent :
      (o : SnmpInterface) (now : ℕ) (valid : Bool) (u : Option ℕ)
      → known_sent cfg (saved_cursor o now valid u) ≡ sent cfg o
  unfolding saved_cursor
  saved_cursor-sent o now valid u = ground arith

  missing_cursor-IsAligned :
      (lower : ℕ) (c : Cursor) (now : ℕ)
      → IsAligned lower c
      → c.sampled_at * second ≤ now
      → IsAligned lower (missing_cursor (some c) now)
  unfolding missing_cursor
  missing_cursor-IsAligned lower c now h le = ground arith

  missing_cursor-sent :
      (c : Cursor) (now : ℕ) → known_sent cfg (missing_cursor (some c) now) ≡ known_sent cfg c
  unfolding missing_cursor
  missing_cursor-sent c now = refl

  module _ (a : FleetAccount) (lower : ℕ) where
    -- A poll that saw the account's interface go on, or that missed it; the clock has not gone
    -- back, and the summed window lies in what `_prune` keeps.
    abbrev Carries : List SnmpInterface → ℕ → Option ℕ → Cursor → Type 0
    Carries items now u c =
        (((o : SnmpInterface) × (observe a.snmp_interface items ≡ some o) × IsContinuous c o now u)
          ⊎ ((observe a.snmp_interface items ≡ none) × (c.sampled_at * second ≤ now)))
        × (minute_of (now - (cfg.rolling_days + 1) * day) ≤ lower)

    -- The stores that such polls lead to.
    pub data Follows (s : Store) : Store → Type 0 where
      here : Follows s s
      poll :
          {t : Store} (items : List SnmpInterface) (now : ℕ) (u : Option ℕ) (c : Cursor)
          → Follows s t
          → find_cursor a.account_id t.cursors ≡ some c
          → Carries items now u c
          → Follows s (record_snmp float cfg items now u t).0

    -- What one poll keeps: the booked upload and the counter grow alike.
    abbrev pub Grows : Store → Cursor → Store → Type 0
    Grows s c t =
        (d : Cursor) × (find_cursor a.account_id t.cursors ≡ some d)
        × IsAligned lower d
        × (booked a.account_id (leb lower) measured_upload t.traffic + known_sent cfg c
            ≡ booked a.account_id (leb lower) measured_upload s.traffic + known_sent cfg d)

    poll-Grows :
        (items : List SnmpInterface) (now : ℕ) (u : Option ℕ) (c : Cursor) (s : Store)
        → IsProportional float
        → Holds a (accounts_of s)
        → find_cursor a.account_id s.cursors ≡ some c
        → IsAligned lower c
        → Carries items now u c
        → Grows s c (record_snmp float cfg items now u s).0
    unfolding next_cursor
    poll-Grows items now u c s law holds known aligned (inl (o, seen, h), kept) =
        let (rows, same, cursor, sums) =
          record_snmp-account float cfg items now u a c s holds known in
        let saved : next_cursor float cfg (some c) (observe a.snmp_interface items) now u
            ≡ saved_cursor o now true u =
          rw (seen, next_cursor) (rw h.live refl) in
        (
          saved_cursor o now true u,
          cursor ∙ ap some saved,
          saved_cursor-IsAligned lower o now true u (omega (arith, aligned.in_window, h.later)),
          omega (
            arith,
            saved_cursor-sent o now true u,
            same measured_upload (leb lower),
            sums measured_upload lower kept,
            counted_rows a.account_id c o now u lower rows law h aligned.in_window,
            ap
                (λ x.
                  booked a.account_id (leb lower) measured_upload
                    (next_rows float cfg a.account_id c x now u rows))
                seen,
          ),
        )
    poll-Grows items now u c s law holds known aligned (inr (unseen, clock), kept) =
        let (rows, same, cursor, sums) =
          record_snmp-account float cfg items now u a c s holds known in
        let saved : next_cursor float cfg (some c) (observe a.snmp_interface items) now u
            ≡ missing_cursor (some c) now =
          rw (unseen, next_cursor) refl in
        (
          missing_cursor (some c) now,
          cursor ∙ ap some saved,
          missing_cursor-IsAligned lower c now aligned clock,
          omega (
            arith,
            missing_cursor-sent c now,
            same measured_upload (leb lower),
            sums measured_upload lower kept,
            missed_rows a.account_id c now u lower rows law aligned,
            ap
                (λ x.
                  booked a.account_id (leb lower) measured_upload
                    (next_rows float cfg a.account_id c x now u rows))
                unseen,
          ),
        )

    Follows-keeps : {s t : Store} → Follows s t → accounts_of t ≡ accounts_of s
    Follows-keeps here = refl
    Follows-keeps (poll {t = t} items now u c before known carries) =
        record_snmp_keeps_accounts float cfg items now u t ∙ Follows-keeps before

    -- After any number of samples, each of which continued the account's counter at a plausible
    -- rate or missed its interface: what was booked as measured upload since a minute no later
    -- than the first baseline has grown by exactly what the counter has grown by, so no octet of
    -- a gap is lost or counted twice. This holds if shares of a value do not exceed it, the
    -- account stands once in the table, and the summed minutes are still kept.
    pub measured-eq-counter :
        (s t : Store) (c : Cursor)
        → IsProportional float
        → Holds a (accounts_of s)
        → find_cursor a.account_id s.cursors ≡ some c
        → IsAligned lower c
        → Follows s t
        → Grows s c t
    measured-eq-counter s t c law holds known aligned here = (c, known, aligned, refl)
    measured-eq-counter s t c law holds known aligned
          (poll {t = r} items now u d before at carries) =
        let (d', known', aligned', grown) =
          measured-eq-counter s r c law holds known aligned before in
        let same : d' ≡ d = cc in
        let still : Holds a (accounts_of r) = rw (Follows-keeps before) holds in
        let (e, last, aligned'', more) =
          poll-Grows items now u d r law still at (subst (IsAligned lower) same aligned') carries in
        (e, last, aligned'', omega (arith, grown, more, ap (known_sent cfg) same))
