-- ===== src/Publisher/Manifest/Sorting.antt =====
-- The sources of a payload, sorted and cut (source_publisher/manifest.py).
use steam_download_pumper.Common.{
  ℕ, suc, zero, ◌≡◌, refl, ◌∙◌, true, false, List, [], ◌∷◌, map, take, if◌then◌else◌, All, arith,
}
use steam_download_pumper.Common.Text.{Text, text_in, text_eq_iff}
use steam_download_pumper.Common.Dict.Laws.{IsDistinct}
use steam_download_pumper.Publisher.Manifest.{Source, is_before, insert_source, sort_sources}

abbrev pub urls_of : List Source → List Text
urls_of sources = map (λ s. s.url) sources

insert-All :
    (P : Source → Type 0) (a : Source) (bs : List Source)
    → P a
    → All P bs
    → All P (insert_source a bs)
unfolding insert_source
insert-All P a [] h k = (h, tt)
insert-All P a (b ∷ bs) h k =
    elim (is_before a b) as (λ c. All P (if c then a ∷ b ∷ bs else b ∷ insert_source a bs)) [
      | true ↦ (h, k)
      | false ↦ (k.0, insert-All P a bs h k.1)
    ]

pub sort-All : (P : Source → Type 0) (bs : List Source) → All P bs → All P (sort_sources bs)
unfolding sort_sources
sort-All P [] h = tt
sort-All P (b ∷ bs) h = insert-All P b (sort_sources bs) h.0 (sort-All P bs h.1)

insert-text_in :
    (u : Text) (a : Source) (bs : List Source)
    → text_in u (urls_of (insert_source a bs)) ≡ text_in u (a.url ∷ urls_of bs)
unfolding insert_source text_in
insert-text_in u a [] = refl
insert-text_in u a (b ∷ bs) = ground (arith, insert-text_in u a bs)

pub sort-text_in :
    (u : Text) (bs : List Source) → text_in u (urls_of (sort_sources bs)) ≡ text_in u (urls_of bs)
unfolding sort_sources text_in
sort-text_in u [] = refl
sort-text_in u (b ∷ bs) = ground (arith, insert-text_in u b (sort_sources bs), sort-text_in u bs)

insert-IsDistinct :
    (a : Source) (bs : List Source)
    → text_in a.url (urls_of bs) ≡ false
    → IsDistinct (urls_of bs)
    → IsDistinct (urls_of (insert_source a bs))
unfolding insert_source text_in
insert-IsDistinct a [] h k = (refl, tt)
insert-IsDistinct a (b ∷ bs) h k =
    elim (is_before a b)
      as (λ c. IsDistinct (urls_of (if c then a ∷ b ∷ bs else b ∷ insert_source a bs))) [
        | true ↦ (h, k)
        | false ↦ (
          ground
              (arith, insert-text_in b.url a bs, text_eq_iff a.url b.url, text_eq_iff b.url a.url),
          insert-IsDistinct a bs (ground arith) k.1,
        )
      ]

pub sort-IsDistinct :
    (bs : List Source) → IsDistinct (urls_of bs) → IsDistinct (urls_of (sort_sources bs))
unfolding sort_sources
sort-IsDistinct [] h = tt
sort-IsDistinct (b ∷ bs) h =
    insert-IsDistinct b (sort_sources bs) (sort-text_in b.url bs ∙ h.0) (sort-IsDistinct bs h.1)

take-text_in :
    (n : ℕ) (u : Text) (bs : List Source)
    → text_in u (urls_of bs) ≡ false
    → text_in u (urls_of (take n bs)) ≡ false
unfolding text_in
take-text_in zero u bs h = refl
take-text_in (suc n) u [] h = refl
take-text_in (suc n) u (b ∷ bs) h = ground (arith, take-text_in n u bs)

pub take-IsDistinct :
    (n : ℕ) (bs : List Source) → IsDistinct (urls_of bs) → IsDistinct (urls_of (take n bs))
take-IsDistinct zero bs h = tt
take-IsDistinct (suc n) [] h = tt
take-IsDistinct (suc n) (b ∷ bs) h = (take-text_in n b.url bs h.0, take-IsDistinct n bs h.1)
