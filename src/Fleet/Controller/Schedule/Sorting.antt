-- ===== src/Fleet/Controller/Schedule/Sorting.antt =====
-- `candidates.sort` in `_schedule`: the order of the keys, and what sorting keeps.
use steam_download_pumper.Common.{
  ◌+◌, ◌≡◌, refl, true, false, ◌||◌, List, [], ◌∷◌, arith, length, All, All-map, Bool-cases, inl,
  inr,
}
use steam_download_pumper.Common.Text.{
  Text, text_eq, text_in, text_leb_total, text_leb_trans, text_eq_sym,
}
use steam_download_pumper.Common.Dict.Laws.{IsDistinct}
use steam_download_pumper.Fleet.Accounts.{FleetAccount}
use steam_download_pumper.Fleet.Controller.Schedule.{
  Priority, priority_leb, insert_by, sort_by, ids_of,
}

pub priority_leb_total : (a b : Priority) → priority_leb a b ≡ false → priority_leb b a ≡ true
unfolding priority_leb
priority_leb_total a b h = ground (arith, text_leb_total a.id b.id)

pub priority_leb_trans :
    (a b c : Priority) → priority_leb a b ≡ true → priority_leb b c ≡ true → priority_leb a c ≡ true
unfolding priority_leb
priority_leb_trans a b c h k = ground (arith, text_leb_trans a.id b.id c.id)

-- Each element comes no later in the order of the keys than all behind it.
abbrev pub IsSorted : (FleetAccount → Priority) → List FleetAccount → Type 0
IsSorted key [] = Unit
IsSorted key (a ∷ as') = All (λ b. priority_leb (key a) (key b) ≡ true) as' × IsSorted key as'

module _ (key : FleetAccount → Priority) where
  insert_by-All {ℓ} :
      (P : FleetAccount → Type ℓ) (a : FleetAccount) (as' : List FleetAccount)
      → P a
      → All P as'
      → All P (insert_by key a as')
  unfolding insert_by
  insert_by-All P a [] p h = (p, tt)
  insert_by-All P a (b ∷ bs) p h = elim (Bool-cases (priority_leb (key a) (key b))) [
    | inl before ↦ rw before (p, h)
    | inr behind ↦ rw behind (h.0, insert_by-All P a bs p h.1)
  ]

  insert_by-IsSorted :
      (a : FleetAccount) (as' : List FleetAccount)
      → IsSorted key as'
      → IsSorted key (insert_by key a as')
  unfolding insert_by
  insert_by-IsSorted a [] h = (tt, tt)
  insert_by-IsSorted a (b ∷ bs) h = elim (Bool-cases (priority_leb (key a) (key b))) [
    | inl before ↦ rw before (
      (before, All-map _ _ bs (λ c le. priority_leb_trans (key a) (key b) (key c) before le) h.0),
      h,
    )
    | inr behind ↦ rw behind (
      insert_by-All (λ c. priority_leb (key b) (key c) ≡ true) a bs
          (priority_leb_total (key a) (key b) behind) h.0,
      insert_by-IsSorted a bs h.1,
    )
  ]

  pub sort_by-IsSorted : (as' : List FleetAccount) → IsSorted key (sort_by key as')
  unfolding sort_by
  sort_by-IsSorted [] = tt
  sort_by-IsSorted (a ∷ as') = insert_by-IsSorted a (sort_by key as') (sort_by-IsSorted as')

  pub sort_by-All {ℓ} :
      (P : FleetAccount → Type ℓ) (as' : List FleetAccount) → All P as' → All P (sort_by key as')
  unfolding sort_by
  sort_by-All P [] h = tt
  sort_by-All P (a ∷ as') h = insert_by-All P a (sort_by key as') h.0 (sort_by-All P as' h.1)

  length-insert_by :
      (a : FleetAccount) (as' : List FleetAccount) → length (insert_by key a as') ≡ length as' + 1
  unfolding insert_by
  length-insert_by a [] = omega arith
  length-insert_by a (b ∷ bs) = ground (arith, length-insert_by a bs)

  pub length-sort_by : (as' : List FleetAccount) → length (sort_by key as') ≡ length as'
  unfolding sort_by
  length-sort_by [] = refl
  length-sort_by (a ∷ as') = omega (arith, length-insert_by a (sort_by key as'), length-sort_by as')

  text_in-insert_by :
      (id : Text) (a : FleetAccount) (as' : List FleetAccount)
      → text_in id (ids_of (insert_by key a as'))
        ≡ (text_eq id a.account_id || text_in id (ids_of as'))
  unfolding insert_by text_in
  text_in-insert_by id a [] = refl
  text_in-insert_by id a (b ∷ bs) = ground (arith, text_in-insert_by id a bs)

  -- Sorting keeps the ids.
  pub text_in-sort_by :
      (id : Text) (as' : List FleetAccount)
      → text_in id (ids_of (sort_by key as')) ≡ text_in id (ids_of as')
  unfolding sort_by text_in
  text_in-sort_by id [] = refl
  text_in-sort_by id (a ∷ as') =
      ground (arith, text_in-insert_by id a (sort_by key as'), text_in-sort_by id as')

  insert_by-IsDistinct :
      (a : FleetAccount) (as' : List FleetAccount)
      → text_in a.account_id (ids_of as') ≡ false
      → IsDistinct (ids_of as')
      → IsDistinct (ids_of (insert_by key a as'))
  unfolding insert_by text_in
  insert_by-IsDistinct a [] h d = (h, tt)
  insert_by-IsDistinct a (b ∷ bs) h d = ground (
    arith,
    text_in-insert_by b.account_id a bs,
    text_eq_sym b.account_id a.account_id,
    insert_by-IsDistinct a bs,
  )

  pub sort_by-IsDistinct :
      (as' : List FleetAccount) → IsDistinct (ids_of as') → IsDistinct (ids_of (sort_by key as'))
  unfolding sort_by
  sort_by-IsDistinct [] d = tt
  sort_by-IsDistinct (a ∷ as') d =
      insert_by-IsDistinct a (sort_by key as') (rw text_in-sort_by d.0) (sort_by-IsDistinct as' d.1)
