-- ===== src/Fleet/Controller/Schedule/Active.antt =====
-- The lines that run after `_schedule`.
use steam_download_pumper.Common.{
  ℕ, ◌≤◌, ◌≡◌, ◌≢◌, refl, Bool, true, false, ◌||◌, not, some, List, [], ◌∷◌, retain, arith, length,
  Bool-cases, Option-cases, inl, inr, min, is_none, ap, subst, ◌∙◌, sym, ◌⊎◌,
}
use native.Mathlib.Decide.{ℕ_discrete}
use steam_download_pumper.Common.Text.{
  Text, text_eq, text_in, text_eq_iff, text_eq_refl, text_eq_sym,
}
use steam_download_pumper.Common.Dict.{Dict, keys, lookup, insert, keep_keys}
use steam_download_pumper.Common.Dict.Laws.{
  IsDistinct, Within, IsDistinct-length, Within-of_all, lookup-insert, lookup-keep_keys,
  text_in-keys-insert, keys-insert-IsDistinct, text_in-keys-keep_keys, keys-keep_keys-IsDistinct,
  length-keys, text_in-keys,
}
use steam_download_pumper.Fleet.Clock.{local_hour}
use steam_download_pumper.Fleet.Floats.{FloatArith}
use steam_download_pumper.Fleet.Config.{FleetConfig}
use steam_download_pumper.Fleet.Accounts.{FleetAccount}
use steam_download_pumper.Fleet.Store.Rows.{accounts_of}
use steam_download_pumper.Fleet.Controller.State.{
  Engine, ActiveLine, Controller, start_line, stop_all,
}
use steam_download_pumper.Fleet.Controller.Schedule.{
  desired_count, ids_of, find_account, enabled_accounts, eligible, selected, start_one,
  start_selected, schedule, unexpired,
}
use steam_download_pumper.Fleet.Controller.Schedule.Selection.{
  text_in-retain, retain-IsDistinct, selected-eligible, length-selected-le, selected-IsDistinct,
  length-selected,
}

find_account-ids :
    (id : Text) (as' : List FleetAccount)
    → (is_none (find_account id as') ≡ not (text_in id (ids_of as')))
      × ((a : FleetAccount) → find_account id as' ≡ some a → a.account_id ≡ id)
unfolding find_account text_in
find_account-ids id [] = (refl, λ a e. cc)
find_account-ids id (a ∷ as') =
    let (found, named) = find_account-ids id as' in
    (
      ground (arith, found, text_eq_sym a.account_id id),
      λ b e. ground (arith, named b, text_eq_iff a.account_id id),
    )

module _ (launch : FleetAccount → Engine) (accounts : List FleetAccount) (now : ℕ) where
  start_line-active :
      (a : FleetAccount) (s : Controller)
      → (l : ActiveLine) × ((start_line (launch a) a now s).active ≡ insert a.account_id l s.active)
  unfolding start_line
  start_line-active a s = (_, refl)

  -- One round of the last loop adds the id to the active ones, keeps them distinct, and leaves
  -- the lines that were there.
  start_one_lem :
      (id : Text) (s : Controller)
      → text_in id (ids_of accounts) ≡ true
      → let after = (start_one launch accounts now id s).active in
        ((j : Text) → text_in j (keys after) ≡ (text_eq j id || text_in j (keys s.active)))
        × (IsDistinct (keys s.active) → IsDistinct (keys after))
        × ((j : Text) (l : ActiveLine) → lookup j s.active ≡ some l → lookup j after ≡ some l)
  unfolding start_one
  start_one_lem id s known = elim (Option-cases (lookup id s.active)) [
    | inr (l, running) ↦ (
      λ j. ground (arith, running, text_in-keys id s.active, text_eq_iff j id),
      λ d. ground (arith, running),
      λ j k e. ground (arith, running),
    )
    | inl idle ↦ elim (Option-cases (find_account id accounts)) [
      | inl lost ↦ absurd (ground (arith, (find_account-ids id accounts).0))
      | inr (a, found) ↦
          let named = (find_account-ids id accounts).1 a found in
          let (l, started) = start_line-active a s in
          rw (idle, found)
            (rw started (
              λ j. ground (arith, text_in-keys-insert a.account_id j l s.active, named),
              λ d. keys-insert-IsDistinct a.account_id l s.active d,
              λ j k e. ground (
                arith,
                lookup-insert a.account_id j l s.active,
                named,
                text_eq_iff a.account_id j,
              ),
            ))
    ]
  ]

  start_selected_lem :
      (ids : List Text) (s : Controller)
      → Within ids (ids_of accounts)
      → let after = (start_selected launch accounts now ids s).active in
        ((j : Text) → text_in j (keys after) ≡ (text_in j ids || text_in j (keys s.active)))
        × (IsDistinct (keys s.active) → IsDistinct (keys after))
        × ((j : Text) (l : ActiveLine) → lookup j s.active ≡ some l → lookup j after ≡ some l)
  unfolding start_selected text_in
  start_selected_lem [] s w = (λ j. refl, λ d. d, λ j l e. e)
  start_selected_lem (id ∷ ids) s w =
      let (one, distinct, same) = start_one_lem id s w.0 in
      let (more, distinct', same') =
        start_selected_lem ids (start_one launch accounts now id s) w.1 in
      (
        λ j. ground (arith, more j, one j),
        λ d. distinct' (distinct d),
        λ j l e. same' j l (same j l e),
      )

no_keys {ℓ} : {V : Type ℓ} (d : Dict V) → ((j : Text) → text_in j (keys d) ≡ false) → d ≡ []
unfolding text_in
no_keys [] h = refl
no_keys ((k, v) ∷ d) h = ground (arith, h k, text_eq_refl k)

nothing_in : (xs : List Text) (j : Text) → length xs ≤ 0 → text_in j xs ≡ false
unfolding text_in
nothing_in [] j h = refl
nothing_in (x ∷ xs) j h = absurd (omega arith)

length-retain :
    (p : FleetAccount → Bool) (as' : List FleetAccount) → length (retain p as') ≤ length as'
length-retain p [] = omega arith
length-retain p (a ∷ as') = ground (arith, length-retain p as')

eligible-IsDistinct :
    (now : ℕ) (s : Controller)
    → IsDistinct (ids_of (accounts_of s.store))
    → IsDistinct (ids_of (eligible s now))
unfolding eligible enabled_accounts
eligible-IsDistinct now s d =
    retain-IsDistinct _ _ (retain-IsDistinct (λ a. a.enabled) (accounts_of s.store) d)

desired_count_late : (now : ℕ) → 18 ≤ local_hour now → desired_count now ≡ 0
unfolding desired_count
desired_count_late now h = ground arith

desired_count-le : (now : ℕ) → desired_count now ≤ 20
unfolding desired_count
desired_count-le now = ground arith

module _ (float : FloatArith) (cfg : FleetConfig) (launch : FleetAccount → Engine) where
  module _ (now : ℕ) (s : Controller) where
    abbrev after : Dict ActiveLine
    after = (schedule float cfg launch now s).active

    -- Either nothing runs, or exactly the selected ids do, and the lines among them that ran
    -- before are the same ones.
    abbrev pub Runs : Dict ActiveLine → Type 0
    Runs lines =
        ((j : Text) → text_in j (keys lines) ≡ text_in j (selected float cfg s now))
        × (IsDistinct (keys s.active) → IsDistinct (keys lines))
        × ((j : Text) (l : ActiveLine)
            → text_in j (selected float cfg s now) ≡ true
            → lookup j s.active ≡ some l
            → lookup j lines ≡ some l)

    selected-Within : Within (selected float cfg s now) (ids_of (enabled_accounts s))
    unfolding eligible
    selected-Within =
        Within-of_all (selected float cfg s now) (ids_of (enabled_accounts s)) (λ id m.
          text_in-retain _ id (enabled_accounts s) (selected-eligible float cfg s now id m))

    pub schedule_on : s.manual_enabled ≡ true → length (enabled_accounts s) ≢ 0 → Runs after
    unfolding schedule
    schedule_on on some_account =
        let sel = selected float cfg s now in
        let pruned = keep_keys (λ id. text_in id sel) s.active in
        let base = record s {
          account_cooldowns = unexpired now s.account_cooldowns;
          active = pruned;
        } in
        let (ids, distinct, same) =
          start_selected_lem launch (enabled_accounts s) now sel base selected-Within in
        let whole : schedule float cfg launch now s
            ≡ start_selected launch (enabled_accounts s) now sel base =
          ground arith in
        subst Runs (ap (λ (t : Controller). t.active) (sym whole)) (
          λ j. ground (arith, ids j, text_in-keys-keep_keys (λ id. text_in id sel) j s.active),
          λ d. distinct (keys-keep_keys-IsDistinct (λ id. text_in id sel) s.active d),
          λ j l m e. same j l (ground (arith, lookup-keep_keys (λ id. text_in id sel) j s.active)),
        )

    -- With no enabled account there is nothing to select.
    pub eligible_none : length (enabled_accounts s) ≡ 0 → length (eligible s now) ≡ 0
    unfolding eligible
    eligible_none h = omega (arith, length-retain _ (enabled_accounts s))

    -- Without the operator's permission, or without an enabled account, nothing runs.
    schedule_off : (s.manual_enabled ≡ false) ⊎ (length (enabled_accounts s) ≡ 0) → after ≡ []
    unfolding schedule stop_all
    schedule_off (inl off) = ground arith
    schedule_off (inr none_enabled) = ground arith

    pub schedule_cases : (after ≡ []) ⊎ ((s.manual_enabled ≡ true) × Runs after)
    schedule_cases = elim (Bool-cases s.manual_enabled) [
      | inr off ↦ inl (schedule_off (inl off))
      | inl on ↦ elim (ℕ_discrete (length (enabled_accounts s)) 0) [
        | yes none_enabled ↦ inl (schedule_off (inr none_enabled))
        | no some_account ↦ inr (on, schedule_on on some_account)
      ]
    ]

  -- For a fleet that the operator has switched on, with distinct account ids and one line for an
  -- account at most: as many lines run after `_schedule` as the hour demands, or as many as there
  -- are eligible accounts where these are fewer, and still one for an account at most.
  pub schedule_fills :
      (now : ℕ) (s : Controller)
      → s.manual_enabled ≡ true
      → IsDistinct (ids_of (accounts_of s.store))
      → IsDistinct (keys s.active)
      → let lines = (schedule float cfg launch now s).active in
        (length lines ≡ min (desired_count now) (length (eligible s now))) × IsDistinct (keys lines)
  schedule_fills now s on rows lines = elim (ℕ_discrete (length (enabled_accounts s)) 0) [
    | yes none_enabled ↦
        rw (schedule_off now s (inr none_enabled))
          (omega (arith, eligible_none now s none_enabled), tt)
    | no some_account ↦
        let (ids, distinct, same) = schedule_on now s on some_account in
        let sel = selected float cfg s now in
        let running = keys (schedule float cfg launch now s).active in
        let rows' = eligible-IsDistinct now s rows in
        (
          omega (
            arith,
            length-keys (schedule float cfg launch now s).active,
            IsDistinct-length running sel (distinct lines)
                (Within-of_all running sel (λ j m. rw (← ids j) m)),
            IsDistinct-length sel running (selected-IsDistinct float cfg s now rows' lines)
                (Within-of_all sel running (λ j m. rw (ids j) m)),
            length-selected float cfg s now rows' lines,
          ),
          distinct lines,
        )
  ]

  -- From 18:00 to 24:00 in Shanghai nothing runs after `_schedule`, whatever ran before.
  pub schedule_window :
      (now : ℕ) (s : Controller)
      → 18 ≤ local_hour now
      → (schedule float cfg launch now s).active ≡ []
  schedule_window now s late = elim (schedule_cases now s) [
    | inl nothing ↦ nothing
    | inr (on, (ids, _, _)) ↦ no_keys _ (λ j.
        ids j
        ∙ nothing_in (selected float cfg s now) j
            (omega (arith, length-selected-le float cfg s now, desired_count_late now late)))
  ]

  -- With one line for an account at most, no more lines run than the hour demands, which is never
  -- more than 20.
  schedule_bound :
      (now : ℕ) (s : Controller)
      → IsDistinct (keys s.active)
      → let lines = (schedule float cfg launch now s).active in
        (length lines ≤ desired_count now) × (desired_count now ≤ 20) × IsDistinct (keys lines)
  schedule_bound now s lines = elim (schedule_cases now s) [
    | inl nothing ↦ rw nothing (omega arith, desired_count-le now, tt)
    | inr (on, (ids, distinct, _)) ↦
        let running = keys (schedule float cfg launch now s).active in
        (
          omega (
            arith,
            length-keys (schedule float cfg launch now s).active,
            IsDistinct-length running (selected float cfg s now) (distinct lines)
                (Within-of_all running (selected float cfg s now) (λ j m. rw (← ids j) m)),
            length-selected-le float cfg s now,
          ),
          desired_count-le now,
          distinct lines,
        )
  ]
