-- ===== src/Lines/Sources/Tests.antt =====
-- A list for a line without a process: it is staged, and in use after the next step.
use steam_download_pumper.Common.{ℕ, ◌≡◌, ◌⊎◌, refl, true, false, length, ◌==◌, All, none, [], ◌∷◌}
use steam_download_pumper.Common.Text.{Text, codes, text_eq}
use steam_download_pumper.Lines.Engine.{EngineProcess, new_engine, confirm_generation}
use steam_download_pumper.Lines.Staging.{stage_sources, generation_confirmed}
use steam_download_pumper.Remote.Manager.{is_ok, SourceListSnapshot}
use steam_download_pumper.Lines.Sources.{
  StageEnd, local_fallback, PumperSources, stage_engines, all_confirmed, refreshed, has_failed,
  stage_pending, consume_result, advance_pending,
}
use steam_download_pumper.Lines.Sources.Applied.{
  RunsWith, IsWaiting, IsApplied, advance_pending_lem,
}

abbrev snapshot : SourceListSnapshot
snapshot = record {
  enabled = true;
  status = is_ok;
  revision = 7;
  generated_at = [];
  expires_at = [];
  source_count = 1;
  last_checked_at = [];
  last_success_at = [];
  next_refresh_at = [];
  etag = [];
  last_error = [];
  stale = false;
}

abbrev before : PumperSources
before = record {
  remote_source_snapshot = snapshot;
  effective_source_pool = codes "old" ∷ [];
  effective_source_origin = local_fallback;
  active_source_revision = 0;
  pending_source_pool = [];
  pending_source_revision = 0;
  pending_source_generation = [];
  source_apply_attempts = 0;
  source_apply_error = [];
  source_apply_retry_at = 0;
  engines = new_engine 4 (codes "old" ∷ []) [] ∷ [];
}

abbrev ends : EngineProcess → StageEnd
ends e = record { write_error = none; alive = false; signal_error = none }

abbrev describe : EngineProcess → Text
describe e = codes "line"

abbrev str : ℕ → Text
str n = n ∷ []

abbrev staged : PumperSources
staged =
    consume_result ends describe str (refreshed true (codes "new" ∷ []) snapshot) 1000000 before

taken : (advance_pending ends describe str 2000000 staged).effective_source_pool ≡ codes "new" ∷ []
unfolding consume_result has_failed stage_pending stage_engines stage_sources confirm_generation
    advance_pending all_confirmed generation_confirmed text_eq
taken = refl

advance_pending_lem_example :
    let after = advance_pending ends describe str 2000000 staged in
    (IsWaiting staged after ⊎ IsApplied staged after)
    × ((length staged.pending_source_generation == 0) ≡ false
        → All (RunsWith staged.pending_source_generation) staged.engines
        → IsApplied staged after)
advance_pending_lem_example = advance_pending_lem ends describe str 2000000 staged
