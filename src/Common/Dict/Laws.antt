-- ===== src/Common/Dict/Laws.antt =====
-- Laws of the dict operations, and of lists of texts without repetition.
use mathlib.Core.Path.{◌≡◌, refl, ap}
use mathlib.Core.Logic.{◌≢◌}
use Prim.Native.Nat.{suc, ◌≤◌}
use mathlib.Core.Bool.{Bool, true, false, ◌&&◌, ◌||◌, not}
use mathlib.Core.Option.{none, some}
use mathlib.Core.List.{List, [], ◌∷◌, ◌++◌}
use native.Mathlib.Omega.{arith}
use steam_download_pumper.Common.Tests.{if◌then◌else◌, is_none}
use steam_download_pumper.Common.Lists.{length}
use steam_download_pumper.Common.Text.{
  Text, text_eq, text_in, text_eq_iff, text_eq_refl, text_eq_sym,
}
use steam_download_pumper.Common.Dict.{Dict, lookup, insert, erase, keys, keep_keys}

-- No text of the list occurs twice.
abbrev pub IsDistinct : List Text → Type 0
IsDistinct [] = Unit
IsDistinct (x ∷ xs) = (text_in x xs ≡ false) × IsDistinct xs

-- Every text of the first list is in the second.
abbrev pub Within : List Text → List Text → Type 0
Within [] ys = Unit
Within (x ∷ xs) ys = (text_in x ys ≡ true) × Within xs ys

remove : Text → List Text → List Text
remove a [] = []
remove a (x ∷ xs) = if text_eq x a then xs else x ∷ remove a xs

length-remove :
    (a : Text) (xs : List Text) → text_in a xs ≡ true → suc (length (remove a xs)) ≡ length xs
unfolding remove text_in
length-remove a [] h = cc
length-remove a (x ∷ xs) h = ground (arith, text_eq_iff x a, text_eq_iff a x, length-remove a xs)

text_in-remove :
    (a b : Text) (xs : List Text) → a ≢ b → text_in b xs ≡ true → text_in b (remove a xs) ≡ true
unfolding remove text_in
text_in-remove a b [] ne h = cc
text_in-remove a b (x ∷ xs) ne h =
    ground (arith, text_eq_iff x a, text_eq_iff b x, text_in-remove a b xs ne)

Within-remove :
    (a : Text) (xs ys : List Text) → text_in a xs ≡ false → Within xs ys → Within xs (remove a ys)
unfolding text_in
Within-remove a [] ys h w = tt
Within-remove a (x ∷ xs) ys h w = (
  text_in-remove a x ys (λ e. ground (arith, text_eq_iff a x)) w.0,
  Within-remove a xs ys (ground arith) w.1,
)

-- A list without repetition is no longer than a list that holds all its texts.
pub IsDistinct-length : (xs ys : List Text) → IsDistinct xs → Within xs ys → length xs ≤ length ys
IsDistinct-length [] ys d w = omega arith
IsDistinct-length (x ∷ xs) ys d w = omega (
  arith,
  length-remove x ys w.0,
  IsDistinct-length xs (remove x ys) d.1 (Within-remove x xs ys d.0 w.1),
)

pub text_in-Within :
    (a : Text) (xs ys : List Text) → Within xs ys → text_in a xs ≡ true → text_in a ys ≡ true
unfolding text_in
text_in-Within a [] ys w h = cc
text_in-Within a (x ∷ xs) ys w h = ground (arith, text_eq_iff a x, text_in-Within a xs ys w.1)

pub Within-of_all :
    (xs ys : List Text) → ((a : Text) → text_in a xs ≡ true → text_in a ys ≡ true) → Within xs ys
unfolding text_in
Within-of_all [] ys h = tt
Within-of_all (x ∷ xs) ys h =
    (h x (ground (arith, text_eq_refl x)), Within-of_all xs ys (λ a m. h a (ground arith)))

pub text_in-append :
    (a : Text) (xs ys : List Text) → text_in a (xs ++ ys) ≡ (text_in a xs || text_in a ys)
unfolding text_in
text_in-append a [] ys = refl
text_in-append a (x ∷ xs) ys = ground (arith, text_in-append a xs ys)

pub IsDistinct-append :
    (xs ys : List Text)
    → IsDistinct xs
    → IsDistinct ys
    → ((a : Text) → text_in a xs ≡ true → text_in a ys ≡ false)
    → IsDistinct (xs ++ ys)
unfolding text_in
IsDistinct-append [] ys d e apart = e
IsDistinct-append (x ∷ xs) ys d e apart = (
  rw (text_in-append x xs ys) (ground (arith, d.0, apart x, text_eq_refl x)),
  IsDistinct-append xs ys d.1 e (λ a m. apart a (ground arith)),
)

module _ {ℓ} {V : Type ℓ} where
  pub lookup-insert :
      (k j : Text) (v : V) (d : Dict V)
      → lookup j (insert k v d) ≡ (if text_eq k j then some v else lookup j d)
  unfolding lookup insert
  lookup-insert k j v [] = refl
  lookup-insert k j v ((i, w) ∷ d) =
      ground (arith, text_eq_iff k j, text_eq_iff i k, text_eq_iff i j, lookup-insert k j v d)

  pub lookup-keep_keys :
      (p : Text → Bool) (j : Text) (d : Dict V)
      → lookup j (keep_keys p d) ≡ (if p j then lookup j d else none)
  unfolding lookup keep_keys
  lookup-keep_keys p j [] = ground arith
  lookup-keep_keys p j ((i, w) ∷ d) = ground (arith, text_eq_iff i j, lookup-keep_keys p j d)

  pub text_in-keys-insert :
      (k j : Text) (v : V) (d : Dict V)
      → text_in j (keys (insert k v d)) ≡ (text_eq j k || text_in j (keys d))
  unfolding insert text_in
  text_in-keys-insert k j v [] = ground arith
  text_in-keys-insert k j v ((i, w) ∷ d) =
      ground (arith, text_eq_iff i k, text_in-keys-insert k j v d)

  pub keys-insert-IsDistinct :
      (k : Text) (v : V) (d : Dict V) → IsDistinct (keys d) → IsDistinct (keys (insert k v d))
  unfolding insert text_in
  keys-insert-IsDistinct k v [] h = (refl, tt)
  keys-insert-IsDistinct k v ((i, w) ∷ d) h =
      ground (arith, text_eq_iff i k, text_in-keys-insert k i v d, keys-insert-IsDistinct k v d h.1)

  pub text_in-keys-keep_keys :
      (p : Text → Bool) (j : Text) (d : Dict V)
      → text_in j (keys (keep_keys p d)) ≡ (text_in j (keys d) && p j)
  unfolding keep_keys text_in
  text_in-keys-keep_keys p j [] = refl
  text_in-keys-keep_keys p j ((i, w) ∷ d) =
      ground (arith, text_eq_iff j i, text_in-keys-keep_keys p j d)

  pub keys-keep_keys-IsDistinct :
      (p : Text → Bool) (d : Dict V) → IsDistinct (keys d) → IsDistinct (keys (keep_keys p d))
  unfolding keep_keys
  keys-keep_keys-IsDistinct p [] h = tt
  keys-keep_keys-IsDistinct p ((i, w) ∷ d) h =
      ground (arith, text_in-keys-keep_keys p i d, keys-keep_keys-IsDistinct p d h.1)

  pub length-keys : (d : Dict V) → length (keys d) ≡ length d
  length-keys [] = refl
  length-keys ((i, w) ∷ d) = ap suc (length-keys d)

  -- A key is listed exactly when the lookup finds something.
  pub text_in-keys : (k : Text) (d : Dict V) → text_in k (keys d) ≡ not (is_none (lookup k d))
  unfolding text_in lookup
  text_in-keys k [] = refl
  text_in-keys k ((i, w) ∷ d) = ground (arith, text_eq_iff i k, text_eq_iff k i, text_in-keys k d)

module _ {ℓ} {V : Type ℓ} where
  pub text_in-keys-erase :
      (k j : Text) (d : Dict V)
      → IsDistinct (keys d)
      → text_in j (keys (erase k d)) ≡ (text_in j (keys d) && not (text_eq k j))
  unfolding erase text_in
  text_in-keys-erase k j [] h = refl
  text_in-keys-erase k j ((i, w) ∷ d) h =
      ground
        (arith, text_eq_iff i k, text_eq_iff j i, text_eq_iff k j, text_in-keys-erase k j d h.1)

  pub keys-erase-IsDistinct :
      (k : Text) (d : Dict V) → IsDistinct (keys d) → IsDistinct (keys (erase k d))
  unfolding erase
  keys-erase-IsDistinct k [] h = tt
  keys-erase-IsDistinct k ((i, w) ∷ d) h =
      ground (arith, text_in-keys-erase k i d h.1, keys-erase-IsDistinct k d h.1)

  lookup-absent : (k : Text) (d : Dict V) → text_in k (keys d) ≡ false → lookup k d ≡ none
  unfolding lookup text_in
  lookup-absent k [] h = refl
  lookup-absent k ((i, w) ∷ d) h =
      ground (arith, text_eq_iff i k, text_eq_iff k i, lookup-absent k d)

  pub lookup-erase :
      (k j : Text) (d : Dict V)
      → IsDistinct (keys d)
      → lookup j (erase k d) ≡ (if text_eq k j then none else lookup j d)
  unfolding erase lookup
  lookup-erase k j [] h = ground arith
  lookup-erase k j ((i, w) ∷ d) h = ground (
    arith,
    text_eq_iff i k,
    text_eq_iff i j,
    text_eq_iff k j,
    lookup-absent i d h.0,
    lookup-erase k j d h.1,
  )

  pub text_in-keys_of_lookup :
      (k : Text) (d : Dict V) (v : V) → lookup k d ≡ some v → text_in k (keys d) ≡ true
  unfolding lookup text_in
  text_in-keys_of_lookup k [] v h = cc
  text_in-keys_of_lookup k ((i, w) ∷ d) v h =
      ground (arith, text_eq_sym k i, text_in-keys_of_lookup k d v)
