-- ===== src/Fleet/Controller/Schedule/Selection.antt =====
-- Which accounts `_schedule` selects: at most the desired number, only eligible ones, none twice,
-- and as many as there are.
use steam_download_pumper.Common.{
  ℕ, zero, suc, ◌+◌, ◌-◌, ◌≤◌, ◌≡◌, refl, Bool, true, ◌&&◌, not, List, [], ◌∷◌, ◌++◌, take, retain,
  arith, length, length-append, length-take, length-map, min, ◌∙◌,
}
use steam_download_pumper.Common.Text.{Text, text_in, text_eq_iff}
use steam_download_pumper.Common.Dict.{Dict, keys}
use steam_download_pumper.Common.Dict.Laws.{
  IsDistinct, Within, IsDistinct-length, IsDistinct-append, text_in-append, Within-of_all,
}
use steam_download_pumper.Fleet.Floats.{FloatArith}
use steam_download_pumper.Fleet.Config.{FleetConfig}
use steam_download_pumper.Fleet.Accounts.{FleetAccount}
use steam_download_pumper.Fleet.Controller.State.{ActiveLine, Controller}
use steam_download_pumper.Fleet.Controller.Schedule.{
  desired_count, ids_of, holds_on, keep_from, eligible, kept, candidates, chosen, selected,
  priority_of,
}
use steam_download_pumper.Fleet.Controller.Schedule.Sorting.{text_in-sort_by, sort_by-IsDistinct}

-- A selection of accounts by a test keeps ids distinct, and takes none in.
pub text_in-retain :
    (p : FleetAccount → Bool) (id : Text) (as' : List FleetAccount)
    → text_in id (ids_of (retain p as')) ≡ true
    → text_in id (ids_of as') ≡ true
unfolding text_in
text_in-retain p id [] h = h
text_in-retain p id (a ∷ as') h = ground (arith, text_in-retain p id as')

pub retain-IsDistinct :
    (p : FleetAccount → Bool) (as' : List FleetAccount)
    → IsDistinct (ids_of as')
    → IsDistinct (ids_of (retain p as'))
retain-IsDistinct p [] d = tt
retain-IsDistinct p (a ∷ as') d =
    ground (arith, text_in-retain p a.account_id as', retain-IsDistinct p as' d.1)

text_in-take :
    (id : Text) (n : ℕ) (as' : List FleetAccount)
    → text_in id (ids_of (take n as')) ≡ true
    → text_in id (ids_of as') ≡ true
unfolding text_in
text_in-take id zero as' h = cc
text_in-take id (suc n) [] h = h
text_in-take id (suc n) (a ∷ as') h = ground (arith, text_in-take id n as')

take-IsDistinct :
    (n : ℕ) (as' : List FleetAccount) → IsDistinct (ids_of as') → IsDistinct (ids_of (take n as'))
take-IsDistinct zero as' d = tt
take-IsDistinct (suc n) [] d = tt
take-IsDistinct (suc n) (a ∷ as') d =
    ground (arith, text_in-take a.account_id n as', take-IsDistinct n as' d.1)

-- What the test on the kept ids leaves.
text_in-unkept :
    (ks : List Text) (id : Text) (as' : List FleetAccount)
    → text_in id (ids_of (retain (λ a. not (text_in a.account_id ks)) as'))
      ≡ (text_in id (ids_of as') && not (text_in id ks))
unfolding text_in
text_in-unkept ks id [] = refl
text_in-unkept ks id (a ∷ as') =
    ground (arith, text_eq_iff id a.account_id, text_in-unkept ks id as')

module _ (float : FloatArith) (cfg : FleetConfig) where
  length-keep_from :
      (desired count : ℕ) (ids : List Text) (now : ℕ) (active : Dict ActiveLine)
      → length (keep_from float cfg desired count ids now active) ≤ desired - count
  unfolding keep_from
  length-keep_from desired count ids now [] = omega arith
  length-keep_from desired count ids now ((id, line) ∷ rest) = ground (
    arith,
    length-keep_from desired count ids now rest,
    length-keep_from desired (count + 1) ids now rest,
  )

  keep_from-keys :
      (desired count : ℕ) (ids : List Text) (now : ℕ) (active : Dict ActiveLine) (id : Text)
      → text_in id (keep_from float cfg desired count ids now active) ≡ true
      → (text_in id (keys active) ≡ true) × (text_in id ids ≡ true)
  unfolding keep_from text_in holds_on
  keep_from-keys desired count ids now [] id h = cc
  keep_from-keys desired count ids now ((k, line) ∷ rest) id h = ground (
    arith,
    text_eq_iff id k,
    keep_from-keys desired count ids now rest id,
    keep_from-keys desired (count + 1) ids now rest id,
  )

  keep_from-IsDistinct :
      (desired count : ℕ) (ids : List Text) (now : ℕ) (active : Dict ActiveLine)
      → IsDistinct (keys active)
      → IsDistinct (keep_from float cfg desired count ids now active)
  unfolding keep_from
  keep_from-IsDistinct desired count ids now [] d = tt
  keep_from-IsDistinct desired count ids now ((k, line) ∷ rest) d = ground (
    arith,
    keep_from-keys desired (count + 1) ids now rest k,
    keep_from-IsDistinct desired count ids now rest d.1,
    keep_from-IsDistinct desired (count + 1) ids now rest d.1,
  )

  module _ (s : Controller) (now : ℕ) where
    kept-eligible :
        (id : Text)
        → text_in id (kept float cfg s now) ≡ true
        → text_in id (ids_of (eligible s now)) ≡ true
    unfolding kept
    kept-eligible id h = (keep_from-keys (desired_count now) 0 _ now s.active id h).1

    candidates-ids :
        (id : Text)
        → text_in id (ids_of (candidates float cfg s now))
          ≡ (text_in id (ids_of (eligible s now)) && not (text_in id (kept float cfg s now)))
    unfolding candidates
    candidates-ids id =
        text_in-sort_by (priority_of float cfg s now) id _
        ∙ text_in-unkept (kept float cfg s now) id (eligible s now)

    -- Only eligible accounts are selected.
    pub selected-eligible :
        (id : Text)
        → text_in id (selected float cfg s now) ≡ true
        → text_in id (ids_of (eligible s now)) ≡ true
    unfolding selected chosen
    selected-eligible id h = ground (
      arith,
      text_in-append id (kept float cfg s now) (ids_of (chosen float cfg s now)),
      kept-eligible id,
      candidates-ids id,
      text_in-take id (desired_count now - length (kept float cfg s now))
          (candidates float cfg s now),
    )

    length-kept : length (kept float cfg s now) ≤ desired_count now
    unfolding kept
    length-kept =
        omega (arith, length-keep_from (desired_count now) 0 (ids_of (eligible s now)) now s.active)

    -- The kept lines, and as many candidates as there is room for.
    selected_sum :
        length (selected float cfg s now)
        ≡ length (kept float cfg s now)
          + min
              (desired_count now - length (kept float cfg s now))
              (length (candidates float cfg s now))
    unfolding selected chosen
    selected_sum =
        let room : ℕ = desired_count now - length (kept float cfg s now) in
        let picked = take room (candidates float cfg s now) in
        omega (
          arith,
          length-append (kept float cfg s now) (ids_of picked),
          length-map (λ (a : FleetAccount). a.account_id) picked,
          length-take room (candidates float cfg s now),
        )

    pub length-selected-le : length (selected float cfg s now) ≤ desired_count now
    length-selected-le = omega (arith, length-kept, selected_sum)

    module _ (rows : IsDistinct (ids_of (eligible s now)))
        (lines : IsDistinct (keys s.active)) where
      kept-IsDistinct : IsDistinct (kept float cfg s now)
      unfolding kept
      kept-IsDistinct = keep_from-IsDistinct (desired_count now) 0 _ now s.active lines

      candidates-IsDistinct : IsDistinct (ids_of (candidates float cfg s now))
      unfolding candidates
      candidates-IsDistinct =
          sort_by-IsDistinct (priority_of float cfg s now) _
            (retain-IsDistinct _ (eligible s now) rows)

      pub selected-IsDistinct : IsDistinct (selected float cfg s now)
      unfolding selected chosen
      selected-IsDistinct =
          let room : ℕ = desired_count now - length (kept float cfg s now) in
          IsDistinct-append (kept float cfg s now) _ kept-IsDistinct
            (take-IsDistinct room (candidates float cfg s now) candidates-IsDistinct)
            (λ id m.
              ground (arith, text_in-take id room (candidates float cfg s now), candidates-ids id))

      -- The kept lines and the candidates are the eligible accounts, each once.
      length-candidates :
          length (candidates float cfg s now) + length (kept float cfg s now)
          ≡ length (eligible s now)
      length-candidates =
          let left = ids_of (candidates float cfg s now) in
          let ks = kept float cfg s now in
          let all_ids = ids_of (eligible s now) in
          let distinct : IsDistinct (left ++ ks) =
            IsDistinct-append left ks candidates-IsDistinct kept-IsDistinct
              (λ id m. ground (arith, candidates-ids id)) in
          let inside : Within (left ++ ks) all_ids = Within-of_all (left ++ ks) all_ids (λ id m.
            ground (arith, text_in-append id left ks, candidates-ids id, kept-eligible id)) in
          let onto : Within all_ids (left ++ ks) =
            Within-of_all all_ids (left ++ ks)
              (λ id m. ground (arith, text_in-append id left ks, candidates-ids id)) in
          omega (
            arith,
            IsDistinct-length (left ++ ks) all_ids distinct inside,
            IsDistinct-length all_ids (left ++ ks) rows onto,
            length-append left ks,
            length-map (λ (a : FleetAccount). a.account_id) (candidates float cfg s now),
            length-map (λ (a : FleetAccount). a.account_id) (eligible s now),
          )

      pub length-selected :
          length (selected float cfg s now) ≡ min (desired_count now) (length (eligible s now))
      length-selected = omega (arith, length-kept, selected_sum, length-candidates)
