-- ===== src/Fleet/Controller/State.antt =====
-- The state of `FleetController` with `ActiveLine`, and the operations that start and stop lines:
-- `_start`, `_stop`, `_stop_all`, `_quarantine`, `set_manual_enabled`, `import_accounts_csv`.
-- Log lines are left out, and so is the attachment of addresses to the network interface.
use steam_download_pumper.Common.{
  ℕ, ◌+◌, ◌*◌, Bool, Option, none, some, List, [], ◌∷◌, ◌++◌, ltb, length, drop, if◌then◌else◌,
}
use steam_download_pumper.Common.Text.{Text}
use steam_download_pumper.Common.Result.{Result, ok, err}
use steam_download_pumper.Common.Dict.{Dict, insert, erase}
use steam_download_pumper.Fleet.Clock.{minute}
use steam_download_pumper.Fleet.Accounts.{FleetAccount, CsvError, parse_accounts_csv}
use steam_download_pumper.Fleet.Store.Rows.{
  Quality, Store, import_accounts, mark_started, save_manual_enabled,
}

-- `EngineState.status`, with the text "failed" that `_schedule` also compares it with.
pub data EngineStatus : Type 0 where
  idle starting downloading restarting stopped failed : EngineStatus

-- What the controller reads of `EngineProcess.state`.
pub record Engine : Type 0 where
  pub status : EngineStatus
  pub total_bytes : ℕ

pub record ActiveLine : Type 0 where
  pub account : FleetAccount
  pub engine : Engine
  pub started_at : ℕ
  pub last_bytes : ℕ
  pub last_progress_at : Option ℕ
  pub last_accounted_at : Option ℕ
  pub rate_samples : List (ℕ × ℕ)

-- The reason of `_line_health_failure`, with the seconds that its text names.
pub data Failure : Type 0 where
  no_progress average_below : ℕ → Failure

pub record Controller : Type 0 where
  pub store : Store
  pub manual_enabled : Bool
  pub active : Dict ActiveLine
  pub snmp_quality : Dict Quality
  pub account_cooldowns : Dict ℕ
  pub account_health_errors : Dict Failure
  pub rate_total : ℕ

-- `deque(maxlen=400).append`
unfoldable pub push_sample : ℕ × ℕ → List (ℕ × ℕ) → List (ℕ × ℕ)
push_sample sample samples =
    let longer = samples ++ sample ∷ [] in if ltb 400 (length longer) then drop 1 longer else longer

-- `engine` is the state that `EngineProcess.start` leaves.
unfoldable pub start_line : Engine → FleetAccount → ℕ → Controller → Controller
start_line engine account now s = record s {
  active =
      insert account.account_id
        (record {
          account = account;
          engine = engine;
          started_at = now;
          last_bytes = 0;
          last_progress_at = some now;
          last_accounted_at = none;
          rate_samples = (now, 0) ∷ [];
        })
        s.active;
  store = mark_started account.account_id now s.store;
}

unfoldable pub stop_line : Text → Controller → Controller
stop_line id s = record s { active = erase id s.active }

unfoldable pub stop_all : Controller → Controller
stop_all s = record s { active = [] }

unfoldable pub quarantine : ℕ → Text → ℕ → Failure → Controller → Controller
quarantine cooldown_minutes id now reason s = stop_line id (record s {
  account_cooldowns = insert id (now + cooldown_minutes * minute) s.account_cooldowns;
  account_health_errors = insert id reason s.account_health_errors;
})

unfoldable pub set_manual_enabled : Bool → Controller → Controller
set_manual_enabled enabled s =
    let saved = record s {
      manual_enabled = enabled;
      store = save_manual_enabled enabled s.store;
    } in
    if enabled then saved else stop_all saved

-- `import_accounts_csv`: a payload that does not parse raises before any line is stopped. The
-- import raises after that, and `none` stands for the database's error.
unfoldable pub import_accounts_csv :
    (Text → List (List Text)) → Text → Controller → Result CsvError (Option (Controller × ℕ))
import_accounts_csv records payload s = elim (parse_accounts_csv records payload) [
  | err e ↦ err e
  | ok accounts ↦ ok (elim (import_accounts accounts s.store) [
    | none ↦ none
    | some store ↦ some (record s { active = []; store = store }, length accounts)
  ])
]
