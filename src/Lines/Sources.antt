-- ===== src/Lines/Sources.antt =====
-- How `PumperController` of steam_pumper/controller.py takes a refreshed list of sources:
-- `_consume_source_refresh_result`, `_stage_pending_source_update`, `_advance_pending_source_update`.
pub mod Applied
mod Tests
use steam_download_pumper.Common.{
  ℕ, suc, ◌+◌, ◌*◌, Bool, true, false, ◌&&◌, ◌||◌, not, Option, none, some, List, [], ◌∷◌, leb,
  ◌==◌, length, if◌then◌else◌,
}
use steam_download_pumper.Common.Text.{Text}
use steam_download_pumper.Fleet.Clock.{second}
use steam_download_pumper.Lines.Engine.{EngineProcess}
use steam_download_pumper.Lines.Staging.{Ended, returned, stage_sources, generation_confirmed}
use steam_download_pumper.Remote.Manager.{Status, is_error, is_stale, SourceListSnapshot}

-- How staging ends at an engine: the exceptions of the write and of the signal, and whether its
-- process lives.
pub record StageEnd : Type 0 where
  pub write_error : Option Text
  pub alive : Bool
  pub signal_error : Option Text

pub data Origin : Type 0 where
  local_fallback last_known_good remote : Origin

-- The sources of the controller: the pool in use, the pending one, and the engines of the lines. The
-- texts of `source_apply_error` are not joined; instants of the monotonic clock are microseconds.
pub record PumperSources : Type 0 where
  pub remote_source_snapshot : SourceListSnapshot
  pub effective_source_pool : List Text
  pub effective_source_origin : Origin
  pub active_source_revision : ℕ
  pub pending_source_pool : List Text
  pub pending_source_revision : ℕ
  pub pending_source_generation : Text
  pub source_apply_attempts : ℕ
  pub source_apply_error : List Text
  pub source_apply_retry_at : ℕ
  pub engines : List EngineProcess

-- The exception's text, where the call raised.
abbrev pub error_of : Ended → Text → List Text → List Text
error_of (returned changed) error errors = errors
error_of ended error errors = error ∷ errors

-- The loop over the lines; `describe` is the text for an engine whose staging raises.
unfoldable pub stage_engines :
    (EngineProcess → StageEnd)
    → (EngineProcess → Text)
    → List Text
    → Text
    → List EngineProcess
    → List EngineProcess × List Text
stage_engines ends describe pool generation [] = ([], [])
stage_engines ends describe pool generation (e ∷ es) =
    let end = ends e in
    let staged = stage_sources pool generation end.write_error end.alive end.signal_error e in
    let rest = stage_engines ends describe pool generation es in
    (staged.0 ∷ rest.0, error_of staged.1 (describe e) rest.1)

unfoldable pub all_confirmed : Text → List EngineProcess → Bool
all_confirmed generation [] = true
all_confirmed generation (e ∷ es) =
    let rest = all_confirmed generation es in generation_confirmed generation e && rest

unfoldable pub reload_errors : List EngineProcess → List Text
reload_errors [] = []
reload_errors (e ∷ es) =
    let rest = reload_errors es in
    if length e.reload_error == 0 then rest else e.reload_error ∷ rest

-- What a refresh gave: an exception, or whether the list changed, the list, and the snapshot.
pub data RefreshResult : Type 0 where
  refresh_raised : RefreshResult
  refreshed : (changed : Bool) (sources : List Text) (snapshot : SourceListSnapshot) → RefreshResult

unfoldable pub has_failed : SourceListSnapshot → Bool
has_failed snapshot = is_bad snapshot.status && not (length snapshot.last_error == 0)
  where
    is_bad : Status → Bool
    is_bad is_error = true
    is_bad is_stale = true
    is_bad s = false

abbrev pub fall_back : Origin → Origin
fall_back remote = last_known_good
fall_back origin = origin

module _ (ends : EngineProcess → StageEnd) (describe : EngineProcess → Text) (str : ℕ → Text) where
  unfoldable pub stage_pending : ℕ → PumperSources → PumperSources
  stage_pending now s =
      if length s.pending_source_generation == 0
      then s
      else (let staged =
            stage_engines ends describe s.pending_source_pool s.pending_source_generation
              s.engines in
          record s {
            engines = staged.0;
            source_apply_attempts = s.source_apply_attempts + 1;
            source_apply_error = staged.1;
            source_apply_retry_at = now + 5 * second;
          })

  unfoldable pub consume_result : RefreshResult → ℕ → PumperSources → PumperSources
  consume_result refresh_raised now s = s
  consume_result (refreshed changed sources snapshot) now s =
      let seen = record s { remote_source_snapshot = snapshot } in
      if has_failed snapshot
      then record seen { effective_source_origin = fall_back s.effective_source_origin }
      else if length sources == 0
      then seen
      else if changed
      then stage_pending now (record seen {
        pending_source_pool = sources;
        pending_source_revision = snapshot.revision;
        pending_source_generation = str snapshot.revision;
        source_apply_attempts = 0;
        source_apply_error = [];
      })
      else if length s.pending_source_generation == 0
      then record seen {
        effective_source_origin = remote;
        active_source_revision = snapshot.revision;
      }
      else seen

  -- The block under the lock, once every engine has confirmed.
  abbrev pub applied : PumperSources → PumperSources
  applied s = record s {
    effective_source_pool = s.pending_source_pool;
    effective_source_origin = remote;
    active_source_revision = s.pending_source_revision;
    pending_source_pool = [];
    pending_source_revision = 0;
    pending_source_generation = [];
    source_apply_error = [];
  }

  -- Not all have: the errors of the engines are shown, and the list is staged again when its time
  -- has come.
  unfoldable pub retried : ℕ → PumperSources → PumperSources
  retried now s =
      let errors = reload_errors s.engines in
      let shown = record s {
        source_apply_error = if length errors == 0 then s.source_apply_error else errors;
      } in
      if leb s.source_apply_retry_at now then stage_pending now shown else shown

  unfoldable pub advance_pending : ℕ → PumperSources → PumperSources
  advance_pending now s =
      if length s.pending_source_generation == 0
      then s
      else if all_confirmed s.pending_source_generation s.engines
      then applied s
      else retried now s
