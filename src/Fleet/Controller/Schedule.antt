-- ===== src/Fleet/Controller/Schedule.antt =====
-- `_schedule`, `_desired_count` and `_priority` of steam_pumper/fleet.py. A Python set is a list
-- without repetition here: the order in which the source starts the selected lines is not fixed.
pub mod Sorting
pub mod Selection
pub mod Active
pub mod Safety
pub mod Keeping
use steam_download_pumper.Common.{
  ℕ, ◌+◌, ◌-◌, ◌*◌, Bool, true, false, ◌&&◌, ◌||◌, not, Option, none, some, or_else, is_none, List,
  [], ◌∷◌, ◌++◌, map, leb, ltb, ◌==◌, length, take, retain, if◌then◌else◌,
}
use steam_download_pumper.Common.Text.{Text, text_eq, text_leb, text_in}
use steam_download_pumper.Common.Dict.{Dict, lookup, keys, keep_keys}
use steam_download_pumper.Fleet.Clock.{minute, local_hour}
use steam_download_pumper.Fleet.Floats.{FloatArith, Ratio}
use steam_download_pumper.Fleet.Config.{FleetConfig}
use steam_download_pumper.Fleet.Accounts.{FleetAccount}
use steam_download_pumper.Fleet.Store.Rows.{
  Quality, offline, missing, ambiguous, accounts_of, no_amounts,
}
use steam_download_pumper.Fleet.Store.Totals.{
  Totals, item, find_totals, rolling, allocated_last24, last_started,
}
use steam_download_pumper.Fleet.Controller.State.{
  EngineStatus, stopped, failed, Engine, ActiveLine, Controller, start_line, stop_all,
}

-- `_desired_count`, by the hour in Shanghai.
unfoldable pub desired_count : ℕ → ℕ
desired_count now =
    let h = local_hour now in
    if h == 0 then 10 else if leb 1 h && ltb h 7 then 20 else if leb 7 h && ltb h 18 then 10 else 0

-- The tuple of `_priority`: the first part is 0 for an account behind its ratio, and of two debts
-- the larger comes first.
pub record Priority : Type 0 where
  pub ahead : ℕ
  pub debt : ℕ
  pub allocated : ℕ
  pub started : ℕ
  pub id : Text

-- `a <= b` on these tuples.
unfoldable pub priority_leb : Priority → Priority → Bool
priority_leb a b =
    ltb a.ahead b.ahead
    || (a.ahead == b.ahead
        && (ltb b.debt a.debt
            || (a.debt == b.debt
                && (ltb a.allocated b.allocated
                    || (a.allocated == b.allocated
                        && (ltb a.started b.started
                            || (a.started == b.started && text_leb a.id b.id)))))))

abbrev usable : Option Quality → Bool
usable none = true
usable (some offline) = false
usable (some missing) = false
usable (some ambiguous) = false
usable (some other) = true

unfoldable pub is_eligible : Dict ℕ → Dict Quality → FleetAccount → Bool
is_eligible cooldowns quality a =
    is_none (lookup a.account_id cooldowns) && usable (lookup a.account_id quality)

-- `status not in {"stopped", "failed"}`
abbrev pub is_running : EngineStatus → Bool
is_running stopped = false
is_running failed = false
is_running other = true

abbrev pub ids_of : List FleetAccount → List Text
ids_of accounts = map (λ a. a.account_id) accounts

-- `by_id.get(account_id)`
unfoldable pub find_account : Text → List FleetAccount → Option FleetAccount
find_account id [] = none
find_account id (a ∷ as') = if text_eq a.account_id id then some a else find_account id as'

abbrev pub is_expired : ℕ → ℕ → Bool
is_expired now until = leb until now

-- The cooldowns that `now` has not passed.
unfoldable pub unexpired : ℕ → Dict ℕ → Dict ℕ
unexpired now [] = []
unexpired now ((k, until) ∷ d) =
    if is_expired now until then unexpired now d else (k, until) ∷ unexpired now d

-- `candidates.sort`, a stable sort by the key.
unfoldable pub insert_by :
    (FleetAccount → Priority) → FleetAccount → List FleetAccount → List FleetAccount
insert_by key a [] = a ∷ []
insert_by key a (b ∷ bs) =
    if priority_leb (key a) (key b) then a ∷ b ∷ bs else b ∷ insert_by key a bs

unfoldable pub sort_by : (FleetAccount → Priority) → List FleetAccount → List FleetAccount
sort_by key [] = []
sort_by key (a ∷ as') = insert_by key a (sort_by key as')

unfoldable pub enabled_accounts : Controller → List FleetAccount
enabled_accounts s = retain (λ a. a.enabled) (accounts_of s.store)

-- The enabled accounts that are neither cooling down nor without a usable interface.
unfoldable pub eligible : Controller → ℕ → List FleetAccount
eligible s now =
    retain (is_eligible (unexpired now s.account_cooldowns) s.snmp_quality) (enabled_accounts s)

-- The body of the last loop of `_schedule`. `launch` is what `EngineProcess.start` leaves for an
-- account.
unfoldable pub start_one :
    (FleetAccount → Engine) → List FleetAccount → ℕ → Text → Controller → Controller
start_one launch accounts now id s =
    if is_none (lookup id s.active)
    then elim (find_account id accounts) [ none ↦ s | some a ↦ start_line (launch a) a now s ]
    else s

unfoldable pub start_selected :
    (FleetAccount → Engine) → List FleetAccount → ℕ → List Text → Controller → Controller
start_selected launch accounts now [] s = s
start_selected launch accounts now (id ∷ ids) s =
    start_selected launch accounts now ids (start_one launch accounts now id s)

module _ (float : FloatArith) (cfg : FleetConfig) where
  -- Whether an active line stays for its minimum of running time.
  unfoldable pub holds_on : List Text → ℕ → Text → ActiveLine → Bool
  holds_on eligible_ids now id line =
      line.account.enabled
      && (text_in id eligible_ids
          && (ltb now (line.started_at + cfg.rotation_minutes * minute)
              && is_running line.engine.status))

  -- The loop that fills `keep`, with the count of ids that it has.
  unfoldable pub keep_from : ℕ → ℕ → List Text → ℕ → Dict ActiveLine → List Text
  keep_from desired kept eligible_ids now [] = []
  keep_from desired kept eligible_ids now ((id, line) ∷ rest) =
      if leb desired kept
      then keep_from desired kept eligible_ids now rest
      else if holds_on eligible_ids now id line
      then id ∷ keep_from desired (kept + 1) eligible_ids now rest
      else keep_from desired kept eligible_ids now rest

  unfoldable pub priority : Totals → ℕ → ℕ → FleetAccount → Priority
  priority totals allocated started a =
      let up = totals.all_upload in
      let down = totals.all_download in
      record {
        ahead = if up == 0 then 1 else if float.ratio_below down up cfg.target_ratio then 0 else 1;
        debt = float.scale_up up cfg.target_ratio - down;
        allocated = allocated;
        started = started;
        id = a.account_id;
      }

  -- The sort key of an account. Every account has its sums, so the default is never taken.
  unfoldable pub priority_of : Controller → ℕ → FleetAccount → Priority
  priority_of s now a =
      priority
        (or_else (find_totals a.account_id (rolling cfg.rolling_days now s.store))
          (item no_amounts))
        (allocated_last24 now s.store a.account_id) (last_started s.store a.account_id) a

  unfoldable pub kept : Controller → ℕ → List Text
  kept s now = keep_from (desired_count now) 0 (ids_of (eligible s now)) now s.active

  unfoldable pub candidates : Controller → ℕ → List FleetAccount
  candidates s now =
      sort_by (priority_of s now)
        (retain (λ a. not (text_in a.account_id (kept s now))) (eligible s now))

  unfoldable pub chosen : Controller → ℕ → List FleetAccount
  chosen s now = take (desired_count now - length (kept s now)) (candidates s now)

  unfoldable pub selected : Controller → ℕ → List Text
  selected s now = kept s now ++ ids_of (chosen s now)

  unfoldable pub schedule : (FleetAccount → Engine) → ℕ → Controller → Controller
  schedule launch now s =
      if not s.manual_enabled
      then stop_all s
      else if length (enabled_accounts s) == 0
      then stop_all s
      else start_selected launch (enabled_accounts s) now (selected s now) (record s {
        account_cooldowns = unexpired now s.account_cooldowns;
        active = keep_keys (λ id. text_in id (selected s now)) s.active;
      })
