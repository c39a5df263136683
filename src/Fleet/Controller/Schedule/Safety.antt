-- ===== src/Fleet/Controller/Schedule/Safety.antt =====
-- `_schedule` runs no account that is unknown, disabled, cooling down or without a usable
-- interface, and `_quarantine` keeps an account from running until its cooldown is over.
use steam_download_pumper.Common.{
  ℕ, ◌+◌, ◌*◌, ◌≤◌, ◌<◌, ◌≡◌, ◌≢◌, refl, Bool, true, false, ◌&&◌, none, some, List, [], ◌∷◌, retain,
  arith, Bool-cases, inl, inr, ap, ◌∙◌, sym,
}
use mathlib.Core.List.{Memᴰ}
use steam_download_pumper.Common.Text.{Text, text_eq, text_in, text_eq_iff, text_eq_refl}
use steam_download_pumper.Common.Dict.{Dict, keys, lookup}
use steam_download_pumper.Common.Dict.Laws.{lookup-insert}
use steam_download_pumper.Fleet.Clock.{minute}
use steam_download_pumper.Fleet.Floats.{FloatArith}
use steam_download_pumper.Fleet.Config.{FleetConfig}
use steam_download_pumper.Fleet.Accounts.{FleetAccount}
use steam_download_pumper.Fleet.Store.Rows.{Quality, offline, missing, ambiguous, accounts_of}
use steam_download_pumper.Fleet.Controller.State.{
  Engine, Controller, Failure, quarantine, stop_line,
}
use steam_download_pumper.Fleet.Controller.Schedule.{
  ids_of, is_eligible, unexpired, enabled_accounts, eligible, schedule,
}
use steam_download_pumper.Fleet.Controller.Schedule.Selection.{selected-eligible}
use steam_download_pumper.Fleet.Controller.Schedule.Active.{schedule_cases}

-- What an account must be for its line to run.
pub record IsRunnable (now : ℕ) (s : Controller) (id : Text) : Type 0 where
  pub account : FleetAccount
  pub named : account.account_id ≡ id
  pub listed : Memᴰ account (accounts_of s.store)
  pub enabled : account.enabled ≡ true
  pub cooled : (until : ℕ) → lookup id s.account_cooldowns ≡ some until → until ≤ now
  pub seen :
      (q : Quality)
      → lookup id s.snmp_quality ≡ some q
      → (q ≢ offline) × (q ≢ missing) × (q ≢ ambiguous)

not_in_nil : (id : Text) → text_in id [] ≡ false
unfolding text_in
not_in_nil id = refl

-- The account behind an id that passed two selections.
account_of_id :
    (p q : FleetAccount → Bool) (id : Text) (as' : List FleetAccount)
    → text_in id (ids_of (retain p (retain q as'))) ≡ true
    → (a : FleetAccount) × Memᴰ a as' × (a.account_id ≡ id) × (q a ≡ true) × (p a ≡ true)
unfolding text_in
account_of_id p q id [] h = cc
account_of_id p q id (a ∷ as') h = elim (Bool-cases (q a && (p a && text_eq id a.account_id))) [
  | inl this ↦
      (a, Memᴰ.head refl, ground (arith, text_eq_iff id a.account_id), ground arith, ground arith)
  | inr other ↦
      let (b, member, named, qb, pb) = account_of_id p q id as' (ground arith) in
      (b, Memᴰ.tail member, named, qb, pb)
]

unexpired-none :
    (now : ℕ) (id : Text) (d : Dict ℕ) (until : ℕ)
    → lookup id (unexpired now d) ≡ none
    → lookup id d ≡ some until
    → until ≤ now
unfolding unexpired lookup
unexpired-none now id [] until gone h = cc
unexpired-none now id ((k, u) ∷ d) until gone h =
    ground (arith, text_eq_iff k id, unexpired-none now id d until)

unexpired-some :
    (now : ℕ) (id : Text) (d : Dict ℕ) (until : ℕ)
    → lookup id d ≡ some until
    → now < until
    → lookup id (unexpired now d) ≡ some until
unfolding unexpired lookup
unexpired-some now id [] until h later = h
unexpired-some now id ((k, u) ∷ d) until h later =
    ground (arith, text_eq_iff k id, unexpired-some now id d until)

is_eligible_lem :
    (cooldowns : Dict ℕ) (quality : Dict Quality) (a : FleetAccount)
    → is_eligible cooldowns quality a ≡ true
    → (lookup a.account_id cooldowns ≡ none)
      × ((q : Quality)
          → lookup a.account_id quality ≡ some q
          → (q ≢ offline) × (q ≢ missing) × (q ≢ ambiguous))
unfolding is_eligible
is_eligible_lem cooldowns quality a h =
    (ground arith, λ q e. (λ x. ground arith, λ x. ground arith, λ x. ground arith))

module _ (float : FloatArith) (cfg : FleetConfig) (launch : FleetAccount → Engine) where
  -- Every line that runs after `_schedule` belongs to an enabled account of the table whose
  -- cooldown, if it has one, is over, and whose last SNMP state is not offline, missing or
  -- ambiguous; and the operator has switched the fleet on.
  pub schedule-IsRunnable :
      (now : ℕ) (s : Controller) (id : Text)
      → text_in id (keys (schedule float cfg launch now s).active) ≡ true
      → (s.manual_enabled ≡ true) × IsRunnable now s id
  unfolding eligible enabled_accounts
  schedule-IsRunnable now s id h = elim (schedule_cases float cfg launch now s) [
    | inl nothing ↦
        let absent : text_in id (keys (schedule float cfg launch now s).active) ≡ false =
          ap (λ lines. text_in id (keys lines)) nothing ∙ not_in_nil id in
        cc
    | inr (on, (ids, _, _)) ↦
        let chosen = selected-eligible float cfg s now id (sym (ids id) ∙ h) in
        let (a, member, named, enabled, fit) = account_of_id _ _ id (accounts_of s.store) chosen in
        let (no_cooldown, state) =
          is_eligible_lem (unexpired now s.account_cooldowns) s.snmp_quality a fit in
        (
          on,
          record {
            account = a;
            named = named;
            listed = member;
            enabled = enabled;
            cooled = λ until e.
                unexpired-none now id s.account_cooldowns until (rw named at no_cooldown) e;
            seen = λ q e. state q (rw named e);
          },
        )
  ]

  -- After `_quarantine` no call of `_schedule` before the end of the cooldown runs the account,
  -- whatever else has changed in between, if the account's cooldown is the one that was set.
  pub quarantine_respected :
      (minutes at_time now : ℕ) (id : Text) (reason : Failure) (s t : Controller)
      → lookup id t.account_cooldowns
        ≡ lookup id (quarantine minutes id at_time reason s).account_cooldowns
      → now < at_time + minutes * minute
      → text_in id (keys (schedule float cfg launch now t).active) ≡ false
  unfolding quarantine stop_line
  quarantine_respected minutes at_time now id reason s t same before =
      elim (Bool-cases (text_in id (keys (schedule float cfg launch now t).active))) [
        | inr absent ↦ absent
        | inl runs ↦
            let until : ℕ = at_time + minutes * minute in
            let set : lookup id t.account_cooldowns ≡ some until =
              same
              ∙ ground (arith, lookup-insert id id until s.account_cooldowns, text_eq_refl id) in
            let runnable = (schedule-IsRunnable now t id runs).1 in
            absurd (omega (arith, runnable.cooled until set))
      ]
