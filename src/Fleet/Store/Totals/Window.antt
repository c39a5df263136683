-- ===== src/Fleet/Store/Totals/Window.antt =====
-- The rolling sums: every account has them, and `_prune` takes nothing from them
-- (`_totals_since`, `rolling`, `_prune`).
use steam_download_pumper.Common.{
  ℕ, ◌+◌, ◌-◌, ◌*◌, ◌≤◌, ◌≡◌, refl, Bool, true, false, ◌||◌, some, List, [], ◌∷◌, ◌++◌, map, leb,
  arith, retain, Bool-cases, inl, inr, ap,
}
use mathlib.Core.Path.{fun_ext, ap₂}
use steam_download_pumper.Common.Text.{Text, text_eq, text_in, text_eq_iff, text_eq_refl}
use steam_download_pumper.Fleet.Clock.{day, minute_of}
use steam_download_pumper.Fleet.Accounts.{FleetAccount}
use steam_download_pumper.Fleet.Store.Rows.{Traffic, Store, accounts_of, prune}
use steam_download_pumper.Fleet.Store.Rows.Sums.{booked-retain}
use steam_download_pumper.Fleet.Store.Totals.{
  Totals, totals_of, group_ids, with_accounts, find_totals, totals_since, rolling, item,
}

-- The account is one of the list.
abbrev pub account_in : Text → List FleetAccount → Bool
account_in id [] = false
account_in id (a ∷ as') = text_eq a.account_id id || account_in id as'

text_in-append :
    (a b : Text) (xs : List Text) → text_in a (xs ++ b ∷ []) ≡ (text_in a xs || text_eq a b)
unfolding text_in
text_in-append a b [] = ground arith
text_in-append a b (x ∷ xs) = ground (arith, text_in-append a b xs)

with_accounts_keeps :
    (id : Text) (as' : List FleetAccount) (ids : List Text)
    → text_in id ids ≡ true
    → text_in id (with_accounts as' ids) ≡ true
unfolding with_accounts
with_accounts_keeps id [] ids h = h
with_accounts_keeps id (a ∷ as') ids h =
    with_accounts_keeps id as' _ (ground (arith, text_in-append id a.account_id ids))

with_accounts_has :
    (id : Text) (as' : List FleetAccount) (ids : List Text)
    → account_in id as' ≡ true
    → text_in id (with_accounts as' ids) ≡ true
unfolding with_accounts
with_accounts_has id [] ids h = cc
with_accounts_has id (a ∷ as') ids h = elim (Bool-cases (text_eq a.account_id id)) [
  | inl same ↦ with_accounts_keeps id as' _ (
      ground
        (arith, text_eq_iff a.account_id id, text_in-append id a.account_id ids, text_eq_refl id))
  | inr other ↦ with_accounts_has id as' _ (ground arith)
]

find_totals-map :
    (f : Text → Totals) (id : Text) (ids : List Text)
    → text_in id ids ≡ true
    → find_totals id (map (λ k. (k, f k)) ids) ≡ some (f id)
unfolding find_totals text_in
find_totals-map f id [] h = cc
find_totals-map f id (k ∷ ids) h =
    ground (arith, text_eq_iff k id, text_eq_iff id k, find_totals-map f id ids)

-- Every account of the table has its sums, whether or not a row of it lies in the window: looking
-- them up by its id does not fail, and gives the sums of its own rows.
totals_since-account :
    (lower : ℕ) (s : Store) (id : Text)
    → account_in id (accounts_of s) ≡ true
    → find_totals id (totals_since lower s) ≡ some (totals_of lower s.traffic id)
unfolding totals_since
totals_since-account lower s id h =
    find_totals-map (totals_of lower s.traffic) id _ (with_accounts_has id (accounts_of s) _ h)

retain-retain :
    (lower from : ℕ) (rows : List Traffic)
    → lower ≤ from
    → retain (λ r. leb from r.at_minute) (retain (λ r. leb lower r.at_minute) rows)
      ≡ retain (λ r. leb from r.at_minute) rows
retain-retain lower from [] h = refl
retain-retain lower from (r ∷ rows) h = ground (arith, retain-retain lower from rows h)

totals_of-retain :
    (lower from : ℕ) (rows : List Traffic) (id : Text)
    → lower ≤ from
    → totals_of from (retain (λ r. leb lower r.at_minute) rows) id ≡ totals_of from rows id
unfolding totals_of
totals_of-retain lower from rows id h =
    ap item (fun_ext (λ c. booked-retain id c lower from rows h))

-- At the moment of pruning and at any later one, the rolling sums of all accounts are the same
-- with and without the deletion of old rows.
pub rolling-prune :
    (rolling_days now later : ℕ) (s : Store)
    → now ≤ later
    → rolling rolling_days later (prune rolling_days now s) ≡ rolling rolling_days later s
unfolding rolling prune totals_since accounts_of
rolling-prune rolling_days now later s h =
    let lower = minute_of (now - (rolling_days + 1) * day) in
    let from = minute_of (later - rolling_days * day) in
    let within : lower ≤ from = omega arith in
    let same_rows = retain-retain lower from s.traffic within in
    let same_items = fun_ext (λ id. totals_of-retain lower from s.traffic id within) in
    ap₂ (λ f rows. map (λ id. (id, f id)) (with_accounts (accounts_of s) (group_ids rows)))
      same_items same_rows
