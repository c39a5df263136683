-- ===== src/Fleet/Controller/Schedule/Keeping.antt =====
-- `_schedule` lets a healthy line run for its minimum time, and fills the rest by priority.
use steam_download_pumper.Common.{
  ℕ, zero, suc, ◌+◌, ◌-◌, ◌*◌, ◌≤◌, ◌<◌, ◌≡◌, ◌≢◌, Bool, true, false, not, some, List, [], ◌∷◌,
  take, retain, arith, length, All, All-map, Bool-cases, inl, inr, ◌∙◌, ◌⊎◌,
}
use native.Mathlib.Decide.{ℕ_discrete}
use steam_download_pumper.Common.Text.{Text, text_in, text_eq_iff, text_eq_refl}
use steam_download_pumper.Common.Dict.{Dict, keys, lookup}
use steam_download_pumper.Common.Dict.Laws.{text_in-append}
use steam_download_pumper.Fleet.Clock.{minute}
use steam_download_pumper.Fleet.Floats.{FloatArith}
use steam_download_pumper.Fleet.Config.{FleetConfig}
use steam_download_pumper.Fleet.Accounts.{FleetAccount}
use steam_download_pumper.Fleet.Controller.State.{Engine, ActiveLine, Controller}
use steam_download_pumper.Fleet.Controller.Schedule.{
  Priority, priority_leb, desired_count, ids_of, holds_on, keep_from, insert_by, sort_by, eligible,
  kept, candidates, chosen, selected, priority_of, schedule, is_running, enabled_accounts,
}
use steam_download_pumper.Fleet.Controller.Schedule.Sorting.{IsSorted, sort_by-IsSorted}
use steam_download_pumper.Fleet.Controller.Schedule.Selection.{text_in-retain}
use steam_download_pumper.Fleet.Controller.Schedule.Active.{schedule_on, eligible_none}

not_empty : (id : Text) (as' : List FleetAccount) → text_in id (ids_of as') ≡ true → length as' ≢ 0
unfolding text_in
not_empty id [] h = λ e. cc
not_empty id (a ∷ as') h = omega arith

enabled_of_eligible :
    (now : ℕ) (s : Controller) (id : Text)
    → text_in id (ids_of (eligible s now)) ≡ true
    → text_in id (ids_of (enabled_accounts s)) ≡ true
unfolding eligible
enabled_of_eligible now s id h = text_in-retain _ id (enabled_accounts s) h

module _ (float : FloatArith) (cfg : FleetConfig) (launch : FleetAccount → Engine) where
  -- A line that holds on is kept while there is room for all active lines.
  keep_from-holds_on :
      (desired count : ℕ) (ids : List Text) (now : ℕ) (active : Dict ActiveLine) (id : Text)
      (line : ActiveLine)
      → lookup id active ≡ some line
      → holds_on float cfg ids now id line ≡ true
      → count + length active ≤ desired
      → text_in id (keep_from float cfg desired count ids now active) ≡ true
  unfolding keep_from lookup text_in
  keep_from-holds_on desired count ids now [] id line h on room = cc
  keep_from-holds_on desired count ids now ((k, l) ∷ rest) id line h on room = ground (
    arith,
    text_eq_iff k id,
    text_eq_refl id,
    keep_from-holds_on desired count ids now rest id line,
    keep_from-holds_on desired (count + 1) ids now rest id line,
  )

  -- A line whose account is enabled and eligible, that is neither stopped nor failed and has run
  -- for less than the rotation time, is still the same line after `_schedule`, if the fleet is
  -- switched on and no more lines are active than the hour demands.
  pub schedule_keeps :
      (now : ℕ) (s : Controller) (id : Text) (line : ActiveLine)
      → s.manual_enabled ≡ true
      → lookup id s.active ≡ some line
      → line.account.enabled ≡ true
      → text_in id (ids_of (eligible s now)) ≡ true
      → now < line.started_at + cfg.rotation_minutes * minute
      → is_running line.engine.status ≡ true
      → length s.active ≤ desired_count now
      → lookup id (schedule float cfg launch now s).active ≡ some line
  unfolding selected kept holds_on
  schedule_keeps now s id line on found enabled fit young running room =
      let desired = desired_count now in
      let ids = ids_of (eligible s now) in
      let held : holds_on float cfg ids now id line ≡ true = ground arith in
      let stays = keep_from-holds_on desired 0 ids now s.active id line found held (omega arith) in
      let picked : text_in id (selected float cfg s now) ≡ true = ground (
        arith,
        text_in-append id (kept float cfg s now) (ids_of (chosen float cfg s now)),
        stays,
      ) in
      let some_account = not_empty id (enabled_accounts s) (enabled_of_eligible now s id fit) in
      (schedule_on float cfg launch now s on some_account).2 id line picked found

-- What holds of all after the sort held of all before.
insert_by-All_inverse {ℓ} :
    (key : FleetAccount → Priority) (P : FleetAccount → Type ℓ) (a : FleetAccount)
    (as' : List FleetAccount)
    → All P (insert_by key a as')
    → P a × All P as'
unfolding insert_by
insert_by-All_inverse key P a [] h = h
insert_by-All_inverse key P a (b ∷ bs) h = elim (Bool-cases (priority_leb (key a) (key b))) [
  | inl before ↦ rw before at h
  | inr behind ↦
      let split : P b × All P (insert_by key a bs) = rw behind at h in
      let (here, rest) = insert_by-All_inverse key P a bs split.1 in (here, (split.0, rest))
]

sort_by-All_inverse {ℓ} :
    (key : FleetAccount → Priority) (P : FleetAccount → Type ℓ) (as' : List FleetAccount)
    → All P (sort_by key as')
    → All P as'
unfolding sort_by
sort_by-All_inverse key P [] h = tt
sort_by-All_inverse key P (a ∷ as') h =
    let (here, rest) = insert_by-All_inverse key P a (sort_by key as') h in
    (here, sort_by-All_inverse key P as' rest)

-- Each account of a sorted list is among the first `n`, or none of these comes behind it.
abbrev pub Ranked : (FleetAccount → Priority) → List FleetAccount → FleetAccount → Type 0
Ranked key first a =
    (text_in a.account_id (ids_of first) ≡ true)
    ⊎ All (λ b. priority_leb (key b) (key a) ≡ true) first

Ranked-take :
    (key : FleetAccount → Priority) (n : ℕ) (as' : List FleetAccount)
    → IsSorted key as'
    → All (Ranked key (take n as')) as'
unfolding text_in
Ranked-take key zero as' h = all_ranked as'
  where
    all_ranked : (bs : List FleetAccount) → All (Ranked key []) bs
    all_ranked [] = tt
    all_ranked (b ∷ bs) = (inr tt, all_ranked bs)
Ranked-take key (suc n) [] h = tt
Ranked-take key (suc n) (a ∷ as') h =
    (inl (ground (arith, text_eq_refl a.account_id)), extend as' h.0 (Ranked-take key n as' h.1))
  where
    extend :
        (bs : List FleetAccount)
        → All (λ b. priority_leb (key a) (key b) ≡ true) bs
        → All (Ranked key (take n as')) bs
        → All (Ranked key (a ∷ take n as')) bs
    extend [] lower h' = tt
    extend (b ∷ bs) lower (inl among, rest) = (inl (ground arith), extend bs lower.1 rest)
    extend (b ∷ bs) lower (inr behind, rest) = (inr (lower.0, behind), extend bs lower.1 rest)

All-nil {ℓ} : (P : FleetAccount → Type ℓ) (as' : List FleetAccount) → length as' ≡ 0 → All P as'
All-nil P [] h = tt
All-nil P (a ∷ as') h = absurd (omega arith)

All-unretain {ℓ} :
    (P : FleetAccount → Type ℓ) (p : FleetAccount → Bool) (as' : List FleetAccount)
    → ((a : FleetAccount) → p a ≡ false → P a)
    → All P (retain p as')
    → All P as'
All-unretain P p [] dropped h = tt
All-unretain P p (a ∷ as') dropped h = elim (Bool-cases (p a)) [
  | inl stays ↦
      let split : P a × All P (retain p as') = rw stays at h in
      (split.0, All-unretain P p as' dropped split.1)
  | inr leaves ↦
      let rest : All P (retain p as') = rw leaves at h in
      (dropped a leaves, All-unretain P p as' dropped rest)
]

module _ (float : FloatArith) (cfg : FleetConfig) (launch : FleetAccount → Engine) where
  -- An account is passed over rightly.
  abbrev pub PassedOver : ℕ → Controller → FleetAccount → Type 0
  PassedOver now s a =
      All (λ b. priority_leb (priority_of float cfg s now b) (priority_of float cfg s now a) ≡ true)
        (chosen float cfg s now)

  selected_or_passed :
      (now : ℕ) (s : Controller)
      → All
          (λ a. (text_in a.account_id (selected float cfg s now) ≡ true) ⊎ PassedOver now s a)
          (eligible s now)
  unfolding selected chosen candidates
  selected_or_passed now s =
      let key = priority_of float cfg s now in
      let ks = kept float cfg s now in
      let room : ℕ = desired_count now - length ks in
      let first = take room (candidates float cfg s now) in
      let free = retain (λ a. not (text_in a.account_id ks)) (eligible s now) in
      let ranked = Ranked-take key room (sort_by key free) (sort_by-IsSorted key free) in
      All-unretain _ _ (eligible s now)
        (λ a drop_it. inl (ground (arith, text_in-append a.account_id ks (ids_of first))))
        (All-map (Ranked key first) _ free
          (λ a r. elim r [
            | inl among ↦ inl (ground (arith, text_in-append a.account_id ks (ids_of first)))
            | inr behind ↦ inr behind
          ])
          (sort_by-All_inverse key (Ranked key first) free ranked))

  -- In a fleet that is switched on, each eligible account runs after `_schedule`, or no account
  -- that was chosen beside the kept lines comes after it in the order of `_priority`.
  pub schedule_ranks :
      (now : ℕ) (s : Controller)
      → s.manual_enabled ≡ true
      → All
          (λ a.
            (text_in a.account_id (keys (schedule float cfg launch now s).active) ≡ true)
            ⊎ PassedOver now s a)
          (eligible s now)
  schedule_ranks now s on = elim (ℕ_discrete (length (enabled_accounts s)) 0) [
    | yes none_enabled ↦
        All-nil _ (eligible s now) (eligible_none float cfg launch now s none_enabled)
    | no some_account ↦
        let (ids, _, _) = schedule_on float cfg launch now s on some_account in
        All-map _ _ (eligible s now)
          (λ a r. elim r [ inl picked ↦ inl (ids a.account_id ∙ picked) | inr passed ↦ inr passed ])
          (selected_or_passed now s)
  ]
