-- ===== src/Remote/Manager/Load.antt =====
-- `load_last_known_good` of steam_pumper/remote_sources.py.
use steam_download_pumper.Common.{
  ℕ, Bool, true, false, ◌&&◌, not, Option, none, some, [], ◌∷◌, ◌==◌, length, if◌then◌else◌,
}
use steam_download_pumper.Common.Text.{Text}
use steam_download_pumper.Common.Result.{Result, ok, err, ◌>>=◌}
use steam_download_pumper.Remote.Payload.{RemoteSourceManifest, urls}
use steam_download_pumper.Remote.Envelope.{
  RemoteSourceSettings, unreadable, refresh_cancelled, Raised, interrupted, failed, uncaught,
  Process, verify_envelope,
}
use steam_download_pumper.Remote.Manager.{
  is_disabled, is_pending, is_error, SourceListSnapshot, EnvelopeFile, missing_envelope,
  unreadable_envelope, bytes, Manager, World, Write, Outside, pending_snapshot, state_text, State,
  save_state, read_state, parse_payload, snapshot_for_manifest,
}

-- `manifest` with `envelope`, or the `envelope_error`.
pub data LoadedEnvelope : Type 0 where
  accepted : RemoteSourceManifest → Text → LoadedEnvelope
  refused : Text → LoadedEnvelope

-- Whether the state is the one of that list.
abbrev pub is_saved_for : RemoteSourceManifest → Option State → Bool
is_saved_for m none = false
is_saved_for m (some s) = s.revision == m.revision

abbrev pub failures_of : Option State → ℕ
failures_of none = 0
failures_of (some s) = s.failure_count

abbrev pub empty_manager : SourceListSnapshot → ℕ → Bool → Manager
empty_manager snapshot failure_count startup_refresh_pending = record {
  current_urls = [];
  manifest = none;
  envelope_bytes = none;
  snapshot = snapshot;
  failure_count = failure_count;
  startup_refresh_pending = startup_refresh_pending;
}

-- The state that says that there was no list: its failures and its next refresh go on.
unfoldable pub resume : State → Manager
resume s =
    let last_error = state_text s.fields.last_error in
    let next_refresh_at = state_text s.fields.next_refresh_at in
    empty_manager
      (record (pending_snapshot true is_pending last_error) {
        status = if not (length last_error == 0) then is_error else is_pending;
        last_checked_at = state_text s.fields.last_checked_at;
        last_success_at = state_text s.fields.last_success_at;
        next_refresh_at = next_refresh_at;
        etag = state_text s.fields.etag;
      })
      s.failure_count (not (not (s.failure_count == 0) && not (length next_refresh_at == 0)))

-- No list: `error` is `envelope_error or state_error`.
unfoldable pub load_no_manifest : Text → Option State → Manager
load_no_manifest error none = empty_manager (pending_snapshot true is_pending error) 0 true
load_no_manifest error (some s) =
    if s.revision == 0
    then resume s
    else empty_manager (pending_snapshot true is_pending error) 0 true

abbrev pub or_state_error : Text → Text → Text
or_state_error [] error = error
or_state_error (c ∷ cs) error = c ∷ cs

module _ (out : Outside) (settings : RemoteSourceSettings) where
  -- The `except` of the envelope: `InterruptedError` is an `OSError`.
  abbrev pub refuse : Raised → Result Raised LoadedEnvelope
  refuse interrupted = ok (refused (out.describe refresh_cancelled))
  refuse (failed e) = ok (refused (out.describe e))
  refuse uncaught = err uncaught

  -- The verifier's answer and the parser's on the bytes of the file.
  unfoldable pub open_envelope : ℕ → Process → Text → Result Raised RemoteSourceManifest
  open_envelope now process envelope = do
    payload ← verify_envelope out.signing settings false process envelope
    parse_payload out settings now true payload

  unfoldable pub load_envelope : ℕ → Process → EnvelopeFile → Result Raised LoadedEnvelope
  load_envelope now process missing_envelope = ok (refused [])
  load_envelope now process unreadable_envelope = ok (refused (out.describe unreadable))
  load_envelope now process (bytes envelope) = elim (open_envelope now process envelope) [
    | ok m ↦ ok (accepted m envelope)
    | err e ↦ refuse e
  ]

  -- An accepted list, with the state that was saved with it; another state is written anew.
  unfoldable pub load_manifest_with :
      ℕ → Write → RemoteSourceManifest → Text → Option State → World → World
  load_manifest_with now write m envelope state w =
      let same = is_saved_for m state in
      let snapshot = snapshot_for_manifest out settings m now (if same then state else none) in
      record {
        manager = record {
          current_urls = urls m;
          manifest = some m;
          envelope_bytes = some envelope;
          snapshot = snapshot;
          failure_count = if same then failures_of state else 0;
          startup_refresh_pending = true;
        };
        disk = if same then w.disk else save_state write snapshot 0 w.disk;
      }

  abbrev pub with_state : ℕ → Write → LoadedEnvelope → Option State → Text → World → World
  with_state now write (accepted m envelope) state state_error w =
      load_manifest_with now write m envelope state w
  with_state now write (refused envelope_error) state state_error w = record w {
    manager = load_no_manifest (or_state_error envelope_error state_error) state;
  }

  -- The state file decides what is kept with the list, or without one.
  unfoldable pub load_with : ℕ → Write → World → LoadedEnvelope → World
  load_with now write w loaded = elim (read_state out settings w.disk.state_path) [
    | ok state ↦ with_state now write loaded state [] w
    | err e ↦ with_state now write loaded none (out.describe e) w
  ]

  unfoldable pub load_enabled : ℕ → Process → Write → World → Result Raised World
  load_enabled now process write w = do
    loaded ← load_envelope now process w.disk.envelope_path
    ok (load_with now write w loaded)

  unfoldable pub load_last_known_good : ℕ → Process → Write → World → Result Raised World
  load_last_known_good now process write w =
      if not settings.enabled
      then ok (record w {
        manager = record w.manager { snapshot = pending_snapshot false is_disabled [] };
      })
      else load_enabled now process write w
