-- ===== src/Lines/Staging.antt =====
-- `set_sources` and `stage_sources` of steam_pumper/engine.py. Whether the sources file could be
-- written, whether the process lives and whether the signal could be sent are arguments.
pub mod Confirm
use steam_download_pumper.Common.{
  ℕ, Bool, true, false, ◌&&◌, ◌||◌, not, Option, none, some, is_none, List, [], ◌∷◌, ◌==◌, length,
  if◌then◌else◌,
}
use steam_download_pumper.Common.Text.{Text, text_eq}
use steam_download_pumper.Lines.Engine.{EngineProcess, tail_500, confirm_generation}

-- How a call ends: it returns a flag, or raises an error of its own or of the system.
pub data Ended : Type 0 where
  returned : Bool → Ended
  empty_list empty_generation system_error : Ended

abbrev pub same_list : List Text → List Text → Bool
same_list [] [] = true
same_list (x ∷ xs) (y ∷ ys) = text_eq x y && same_list xs ys
same_list _ _ = false

-- `set_sources`; a signal that fails is only logged.
unfoldable pub set_sources : List Text → (writes : Bool) → EngineProcess → EngineProcess × Ended
set_sources new_sources writes e =
    if length new_sources == 0
    then (e, empty_list)
    else if not writes
    then (e, system_error)
    else (record e { sources = new_sources }, returned (not (same_list new_sources e.sources)))

-- `stage_sources`: `write_error` and `signal_error` are the texts of the exceptions.
unfoldable pub stage_sources :
    List Text
    → Text
    → (write_error : Option Text) → (alive : Bool) → (signal_error : Option Text) → EngineProcess
    → EngineProcess × Ended
stage_sources new_sources generation write_error alive signal_error e =
    if length new_sources == 0
    then (e, empty_list)
    else if length generation == 0
    then (e, empty_generation)
    else (let pending = record e {
      pending_sources = new_sources;
      pending_generation = generation;
      reload_error = [];
    } in
        elim write_error [
          | some error ↦ (record pending { reload_error = tail_500 error }, system_error)
          | none ↦
              let staged = record pending { sources = new_sources } in
              if is_none staged.process || not alive
              then (confirm_generation generation staged, returned true)
              else elim signal_error [
                | some error ↦ (record staged { reload_error = tail_500 error }, system_error)
                | none ↦ (staged, returned true)
              ]
        ])

-- `source_generation_confirmed`
unfoldable pub generation_confirmed : Text → EngineProcess → Bool
generation_confirmed generation e = text_eq e.confirmed_generation generation
