-- ===== src/Fleet/Store/Snmp/Accounts.antt =====
-- What one sample does to one account among many (`record_snmp`): the account's own rows and
-- cursor follow from its own observation, and the other accounts leave them alone.
use steam_download_pumper.Common.{
  ℕ, ◌+◌, ◌-◌, ◌*◌, ◌≤◌, ◌≡◌, ◌≢◌, refl, Bool, true, Option, none, some, List, [], ◌∷◌, ◌++◌, leb,
  arith, All, if◌then◌else◌, Option-cases, inl, inr, or_else, ap, ◌∙◌,
}
use steam_download_pumper.Common.Text.{Text, text_eq, text_eq_iff, text_eq_refl}
use steam_download_pumper.Fleet.Clock.{day, minute_of, timestamp}
use steam_download_pumper.Fleet.Floats.{FloatArith}
use steam_download_pumper.Fleet.Config.{FleetConfig}
use steam_download_pumper.Fleet.Accounts.{FleetAccount}
use steam_download_pumper.Fleet.Store.Rows.{
  Column, Quality, reset, Traffic, Cursor, Store, find_cursor, put_cursor, accounts_of, prune,
  clear_pending_unknown, sort_accounts,
}
use steam_download_pumper.Fleet.Store.Rows.Sums.{
  booked, booked-clear_pending_unknown_ne, booked-retain,
}
use steam_download_pumper.Fleet.Store.Intervals.Conservation.{booked-add_interval_traffic_ne}
use steam_download_pumper.Fleet.Store.Rates.{record_estimated_gap}
use steam_download_pumper.Fleet.Store.Snmp.{
  SnmpInterface, observe, next_rows, next_cursor, record_account, record_accounts, record_snmp,
  baseline_instant, sample_amounts, sample_quality,
}

pub find_cursor-put_cursor :
    (a b : Text) (c : Cursor) (cs : List (Text × Cursor))
    → find_cursor a (put_cursor b c cs) ≡ (if text_eq b a then some c else find_cursor a cs)
unfolding find_cursor put_cursor
find_cursor-put_cursor a b c [] = refl
find_cursor-put_cursor a b c ((k, d) ∷ cs) =
    ground
      (arith, text_eq_iff k b, text_eq_iff k a, text_eq_iff b a, find_cursor-put_cursor a b c cs)

-- The account stands once in the table.
pub record Holds (a : FleetAccount) (accounts : List FleetAccount) : Type 0 where
  pub before : List FleetAccount
  pub rest : List FleetAccount
  pub split : accounts ≡ before ++ a ∷ rest
  pub not_before : All (λ b. b.account_id ≢ a.account_id) before
  pub not_after : All (λ b. b.account_id ≢ a.account_id) rest

module _ (float : FloatArith) (cfg : FleetConfig) where
  booked-record_estimated_gap_ne :
      (a b : Text) (start end : ℕ) (q : Quality) (within : ℕ → Bool) (c : Column)
      (rows : List Traffic)
      → a ≢ b
      → booked b within c (record_estimated_gap float a start end q rows) ≡ booked b within c rows
  unfolding record_estimated_gap
  booked-record_estimated_gap_ne a b start end q within c rows ne =
      booked-add_interval_traffic_ne float a start end _ _ b within c rows ne

  booked-next_rows_ne :
      (a b : Text) (prior : Cursor) (o : Option SnmpInterface) (now : ℕ) (u : Option ℕ)
      (within : ℕ → Bool) (c : Column) (rows : List Traffic)
      → a ≢ b
      → booked b within c (next_rows float cfg a prior o now u rows) ≡ booked b within c rows
  unfolding next_rows
  booked-next_rows_ne a b prior none now u within c rows ne =
      booked-add_interval_traffic_ne float a _ now _ _ b within c rows ne
  booked-next_rows_ne a b prior (some o) now u within c rows ne =
      let start = baseline_instant prior in
      let cleared = clear_pending_unknown a start now rows in
      let same = booked-clear_pending_unknown_ne b within c a start now rows ne in
      ground (
        arith,
        same,
        booked-record_estimated_gap_ne a b start now reset within c cleared ne,
        booked-add_interval_traffic_ne float a start now
            (sample_amounts float cfg a prior o now cleared) (sample_quality float cfg prior o now)
            b within c cleared ne,
      )

  -- Another account's turn leaves the cursor and the sums of `a` as they are.
  record_account_ne :
      (items : List SnmpInterface) (now : ℕ) (u : Option ℕ) (b : FleetAccount) (a : Text)
      (within : ℕ → Bool) (c : Column) (s : Store)
      → b.account_id ≢ a
      → let after = (record_account float cfg items now u b s).0 in
        (find_cursor a after.cursors ≡ find_cursor a s.cursors)
        × (booked a within c after.traffic ≡ booked a within c s.traffic)
  unfolding record_account
  record_account_ne items now u b a within c s ne = (
    rw find_cursor-put_cursor (ground (arith, text_eq_iff b.account_id a)),
    elim (Option-cases (find_cursor b.account_id s.cursors)) [
      | inl new ↦ rw (new, record_account) refl
      | inr (p, known) ↦
          rw (known, record_account)
            (booked-next_rows_ne b.account_id a p (observe b.snmp_interface items) now u within c
              s.traffic ne)
    ],
  )

  record_accounts_ne :
      (items : List SnmpInterface) (now : ℕ) (u : Option ℕ) (bs : List FleetAccount) (a : Text)
      (within : ℕ → Bool) (c : Column) (s : Store)
      → All (λ b. b.account_id ≢ a) bs
      → let after = (record_accounts float cfg items now u bs s).0 in
        (find_cursor a after.cursors ≡ find_cursor a s.cursors)
        × (booked a within c after.traffic ≡ booked a within c s.traffic)
  unfolding record_accounts
  record_accounts_ne items now u [] a within c s h = (refl, refl)
  record_accounts_ne items now u (b ∷ bs) a within c s h =
      let (same_cursor, same_sum) = record_account_ne items now u b a within c s h.0 in
      let (rest_cursor, rest_sum) =
        record_accounts_ne items now u bs a within c (record_account float cfg items now u b s).0
          h.1 in
      (rest_cursor ∙ same_cursor, rest_sum ∙ same_sum)

  -- The turn of `a` itself.
  record_account_self :
      (items : List SnmpInterface) (now : ℕ) (u : Option ℕ) (a : FleetAccount) (prior : Cursor)
      (within : ℕ → Bool) (c : Column) (s : Store)
      → find_cursor a.account_id s.cursors ≡ some prior
      → let after = (record_account float cfg items now u a s).0 in
        let o = observe a.snmp_interface items in
        (find_cursor a.account_id after.cursors ≡ some (next_cursor float cfg (some prior) o now u))
        × (booked a.account_id within c after.traffic
            ≡ booked a.account_id within c
                (next_rows float cfg a.account_id prior o now u s.traffic))
  unfolding record_account
  record_account_self items now u a prior within c s known = (
    rw find_cursor-put_cursor (rw (text_eq_refl a.account_id, known) refl),
    rw (known, record_account) refl,
  )

  -- After the sample the account's sums are those of its own step, on rows that hold the same of
  -- it, and its cursor is that of its own step.
  abbrev pub Stepped :
      List SnmpInterface
      → ℕ
      → Option ℕ
      → FleetAccount
      → Cursor
      → Store
      → List Traffic
      → Store
      → Type 0
  Stepped items now u a prior s rows after =
      let o = observe a.snmp_interface items in
      ((d : Column) (p : ℕ → Bool)
        → booked a.account_id p d rows ≡ booked a.account_id p d s.traffic)
      × (find_cursor a.account_id after.cursors ≡ some (next_cursor float cfg (some prior) o now u))
      × ((d : Column) (p : ℕ → Bool)
          → booked a.account_id p d after.traffic
            ≡ booked a.account_id p d (next_rows float cfg a.account_id prior o now u rows))

  record_accounts_split :
      (items : List SnmpInterface) (now : ℕ) (u : Option ℕ) (xs : List FleetAccount)
      (a : FleetAccount) (ys : List FleetAccount) (prior : Cursor) (s : Store)
      → All (λ b. b.account_id ≢ a.account_id) xs
      → All (λ b. b.account_id ≢ a.account_id) ys
      → find_cursor a.account_id s.cursors ≡ some prior
      → (rows : List Traffic) × Stepped items now u a prior s rows
          (record_accounts float cfg items now u (xs ++ a ∷ ys) s).0
  unfolding record_accounts
  record_accounts_split items now u [] a ys prior s hx hy known =
      let turn = (record_account float cfg items now u a s).0 in
      let ne =
        λ (d : Column) (p : ℕ → Bool). record_accounts_ne items now u ys a.account_id p d turn hy in
      let self =
        λ (d : Column) (p : ℕ → Bool). record_account_self items now u a prior p d s known in
      let any_day : ℕ → Bool = λ _. true in
      (
        s.traffic,
        (
          λ d p. refl,
          (ne Column.upload any_day).0 ∙ (self Column.upload any_day).0,
          λ d p. (ne d p).1 ∙ (self d p).1,
        ),
      )
  record_accounts_split items now u (x ∷ xs) a ys prior s hx hy known =
      let turn = (record_account float cfg items now u x s).0 in
      let ne =
        λ (d : Column) (p : ℕ → Bool). record_account_ne items now u x a.account_id p d s hx.0 in
      let any_day : ℕ → Bool = λ _. true in
      let (rows, tail) =
        record_accounts_split items now u xs a ys prior turn hx.1 hy
          ((ne Column.upload any_day).0 ∙ known) in
      (rows, (λ d p. tail.0 d p ∙ (ne d p).1, tail.1, tail.2))

  record_accounts_keeps :
      (items : List SnmpInterface) (now : ℕ) (u : Option ℕ) (bs : List FleetAccount) (s : Store)
      → (record_accounts float cfg items now u bs s).0.accounts ≡ s.accounts
  unfolding record_accounts record_account
  record_accounts_keeps items now u [] s = refl
  record_accounts_keeps items now u (b ∷ bs) s =
      record_accounts_keeps items now u bs (record_account float cfg items now u b s).0

  pub record_snmp_keeps_accounts :
      (items : List SnmpInterface) (now : ℕ) (u : Option ℕ) (s : Store)
      → accounts_of (record_snmp float cfg items now u s).0 ≡ accounts_of s
  unfolding record_snmp prune accounts_of
  record_snmp_keeps_accounts items now u s =
      let started = record s { baseline_at = some (or_else s.baseline_at (timestamp now)) } in
      ap sort_accounts (record_accounts_keeps items now u (accounts_of s) started)

  -- One call of `record_snmp`, seen from an account with a cursor: the sums that begin inside
  -- the window which `_prune` keeps.
  pub record_snmp-account :
      (items : List SnmpInterface) (now : ℕ) (u : Option ℕ) (a : FleetAccount) (prior : Cursor)
      (s : Store)
      → Holds a (accounts_of s)
      → find_cursor a.account_id s.cursors ≡ some prior
      → let after = (record_snmp float cfg items now u s).0 in
        let o = observe a.snmp_interface items in
        (rows : List Traffic) × ((d : Column) (p : ℕ → Bool)
          → booked a.account_id p d rows ≡ booked a.account_id p d s.traffic)
        × (find_cursor a.account_id after.cursors
            ≡ some (next_cursor float cfg (some prior) o now u))
        × ((d : Column) (lower : ℕ)
            → minute_of (now - (cfg.rolling_days + 1) * day) ≤ lower
            → booked a.account_id (leb lower) d after.traffic
              ≡ booked a.account_id
                  (leb lower)
                  d
                  (next_rows float cfg a.account_id prior o now u rows))
  unfolding record_snmp prune accounts_of
  record_snmp-account items now u a prior s holds known =
      let started = record s { baseline_at = some (or_else s.baseline_at (timestamp now)) } in
      let stepped : (rows : List Traffic) × Stepped items now u a prior started rows
            (record_accounts float cfg items now u (accounts_of s) started).0 =
        rw (holds.split) (
          record_accounts_split items now u holds.before a holds.rest prior started holds.not_before
            holds.not_after known) in
      let of_step = stepped.1 in
      (
        stepped.0,
        of_step.0,
        of_step.1,
        λ d lower h. booked-retain a.account_id d _ lower _ h ∙ of_step.2 d (leb lower),
      )
