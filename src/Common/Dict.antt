-- ===== src/Common/Dict.antt =====
-- Python's dict with text keys, in the order of insertion: the operations. Their laws are in
-- `Laws`.
pub mod Laws
use mathlib.Core.Bool.{Bool, true, false, ◌||◌}
use mathlib.Core.Option.{Option, none, some}
use mathlib.Core.List.{List, [], ◌∷◌}
use steam_download_pumper.Common.Tests.{if◌then◌else◌}
use steam_download_pumper.Common.Text.{Text, text_eq}

abbrev pub Dict {ℓ} : Type ℓ → Type ℓ
Dict V = List (Text × V)

module _ {ℓ} {V : Type ℓ} where
  -- `d.get(k)`
  unfoldable pub lookup : Text → Dict V → Option V
  lookup k [] = none
  lookup k ((j, v) ∷ d) = if text_eq j k then some v else lookup k d

  -- `d[k] = v`
  unfoldable pub insert : Text → V → Dict V → Dict V
  insert k v [] = (k, v) ∷ []
  insert k v ((j, w) ∷ d) = if text_eq j k then (j, v) ∷ d else (j, w) ∷ insert k v d

  -- `d.pop(k, None)`
  unfoldable pub erase : Text → Dict V → Dict V
  erase k [] = []
  erase k ((j, w) ∷ d) = if text_eq j k then d else (j, w) ∷ erase k d

  -- `list(d)`
  abbrev pub keys : Dict V → List Text
  keys [] = []
  keys ((j, w) ∷ d) = j ∷ keys d

  -- The entries whose keys pass a test: the others are popped one by one.
  unfoldable pub keep_keys : (Text → Bool) → Dict V → Dict V
  keep_keys p [] = []
  keep_keys p ((j, w) ∷ d) = if p j then (j, w) ∷ keep_keys p d else keep_keys p d
