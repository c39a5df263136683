-- ===== src/Remote/Manager.antt =====
-- `RemoteSourceManager` of steam_pumper/remote_sources.py: its state, its two files, and what it
-- does when it starts (`Load`) and when it asks for the list (`Refresh`). The locale's instants are those of the Python library.
pub mod Load
pub mod Refresh
pub mod Accepted
pub mod Safe
pub mod Kept
pub mod Restarts
pub mod Run
pub mod Failures
pub mod Retry
use steam_download_pumper.Common.{
  ℕ, ◌+◌, ◌*◌, Bool, true, false, ◌&&◌, not, Option, none, some, List, [], leb, ltb, ◌==◌, length,
  if◌then◌else◌,
}
use steam_download_pumper.Common.Text.{Text}
use steam_download_pumper.Common.Result.{Result, ok, err, ◌>>=◌}
use steam_download_pumper.Fleet.Clock.{second, minute, hour, day}
use steam_download_pumper.Remote.Document.{Value, text, whole, Document, Library}
use steam_download_pumper.Remote.Payload.{
  RemoteSourceManifest, PayloadError, urls, parse_timestamp, parse_manifest,
}
use steam_download_pumper.Remote.Envelope.{
  RemoteSourceSettings, RefreshFailure, unreadable, bad_state, Raised, interrupted, failed,
  uncaught, Process, Signing, verify_envelope, raised_by,
}

pub data Status : Type 0 where
  is_disabled is_pending is_ok is_stale is_error : Status

-- An instant is its text, an empty one where there is none.
pub record SourceListSnapshot : Type 0 where
  pub enabled : Bool
  pub status : Status
  pub revision : ℕ
  pub generated_at : Text
  pub expires_at : Text
  pub source_count : ℕ
  pub last_checked_at : Text
  pub last_success_at : Text
  pub next_refresh_at : Text
  pub etag : Text
  pub last_error : Text
  pub stale : Bool

-- The fields of the state file that are read again.
pub record Stored : Type 0 where
  pub revision : Value
  pub failure_count : Value
  pub last_checked_at : Value
  pub last_success_at : Value
  pub next_refresh_at : Value
  pub etag : Value
  pub last_error : Value

-- `unreadable_state` is an `OSError`, `no_state` no JSON object.
pub data SourceStateFile : Type 0 where
  missing_state unreadable_state no_state : SourceStateFile
  stored : Stored → SourceStateFile

pub data EnvelopeFile : Type 0 where
  missing_envelope unreadable_envelope : EnvelopeFile
  bytes : Text → EnvelopeFile

pub record Disk : Type 0 where
  pub envelope_path : EnvelopeFile
  pub state_path : SourceStateFile

pub record Manager : Type 0 where
  pub current_urls : List Text
  pub manifest : Option RemoteSourceManifest
  pub envelope_bytes : Option Text
  pub snapshot : SourceListSnapshot
  pub failure_count : ℕ
  pub startup_refresh_pending : Bool

pub record World : Type 0 where
  pub manager : Manager
  pub disk : Disk

-- How `_atomic_write` ends: done, raised with the file as it was, or raised after `os.replace`.
pub data Write : Type 0 where
  written not_written written_raised : Write

abbrev pub replaces : Write → Bool
replaces written = true
replaces not_written = false
replaces written_raised = true

abbrev pub raises : Write → Bool
raises written = false
raises not_written = true
raises written_raised = true

-- What the manager uses of the library and of the signing program: the JSON
-- of a payload, `isoformat`, the start of the
-- local day of an instant, the text of an exception, and the size of a state as JSON.
pub record Outside : Type 0 where
  pub lib : Library
  pub signing : Signing
  pub load_manifest : Text → Document
  pub isoformat : ℕ → Text
  pub midnight : ℕ → ℕ
  pub describe : RefreshFailure → Text
  pub state_size : Stored → ℕ

abbrev pub pending_snapshot : Bool → Status → Text → SourceListSnapshot
pending_snapshot enabled status last_error = record {
  enabled = enabled;
  status = status;
  revision = 0;
  generated_at = [];
  expires_at = [];
  source_count = 0;
  last_checked_at = [];
  last_success_at = [];
  next_refresh_at = [];
  etag = [];
  last_error = last_error;
  stale = false;
}

abbrev pub initial : RemoteSourceSettings → Manager
initial settings = record {
  current_urls = [];
  manifest = none;
  envelope_bytes = none;
  snapshot = pending_snapshot settings.enabled is_pending [];
  failure_count = 0;
  startup_refresh_pending = settings.enabled;
}

-- `_state_text`
unfoldable pub state_text : Value → Text
state_text (text t) = t
state_text v = []

-- What `_read_state` returns of the state.
pub record State : Type 0 where
  pub revision : ℕ
  pub failure_count : ℕ
  pub fields : Stored

unfoldable pub read_numbers : Stored → Value → Value → Result RefreshFailure State
read_numbers s (whole revision) (whole failure_count) =
    ok (record { revision = revision; failure_count = failure_count; fields = s })
read_numbers s v w = err bad_state

abbrev pub stored_of : SourceListSnapshot → ℕ → Stored
stored_of snapshot failure_count = record {
  revision = whole snapshot.revision;
  failure_count = whole failure_count;
  last_checked_at = text snapshot.last_checked_at;
  last_success_at = text snapshot.last_success_at;
  next_refresh_at = text snapshot.next_refresh_at;
  etag = text snapshot.etag;
  last_error = text snapshot.last_error;
}

-- `_save_state`, and whether it raised.
unfoldable pub save_state : Write → SourceListSnapshot → ℕ → Disk → Disk
save_state write snapshot failure_count disk =
    if replaces write
    then record {
      envelope_path = disk.envelope_path;
      state_path = stored (stored_of snapshot failure_count);
    }
    else disk

unfoldable pub save_envelope : Write → Text → Disk → Disk
save_envelope write envelope disk =
    if replaces write
    then record { envelope_path = bytes envelope; state_path = disk.state_path }
    else disk

-- `_state_text` of a field of `metadata`.
abbrev pub metadata : Option State → (Stored → Value) → Text
metadata none pick = []
metadata (some s) pick = state_text (pick s.fields)

module _ (out : Outside) (settings : RemoteSourceSettings) where
  -- The state with the text of the error: a file that is missing is no error.
  unfoldable pub read_state : SourceStateFile → Result RefreshFailure (Option State)
  read_state missing_state = ok none
  read_state unreadable_state = err unreadable
  read_state no_state = err bad_state
  read_state (stored s) =
      if ltb settings.max_bytes (out.state_size s)
      then err bad_state
      else (do state ← read_numbers s s.revision s.failure_count; ok (some state))

  abbrev pub parse_payload : ℕ → Bool → Text → Result Raised RemoteSourceManifest
  parse_payload now allow_expired payload =
      elim (parse_manifest out.lib settings.min_sources now false allow_expired
        (out.load_manifest payload)) [ ok m ↦ ok m | err e ↦ err (raised_by e) ]

  -- `_snapshot_for_manifest`, from the fields of the state.
  unfoldable pub snapshot_for_manifest :
      RemoteSourceManifest → ℕ → Option State → SourceListSnapshot
  snapshot_for_manifest m now state =
      let stale = leb m.expires_at now in
      let last_error = metadata state (λ s. s.last_error) in
      record {
        enabled = true;
        status =
            if stale then is_stale else if not (length last_error == 0) then is_error else is_ok;
        revision = m.revision;
        generated_at = out.isoformat m.generated_at;
        expires_at = out.isoformat m.expires_at;
        source_count = length (urls m);
        last_checked_at = metadata state (λ s. s.last_checked_at);
        last_success_at = metadata state (λ s. s.last_success_at);
        next_refresh_at = metadata state (λ s. s.next_refresh_at);
        etag = metadata state (λ s. s.etag);
        last_error = last_error;
        stale = stale;
      }

  -- `_next_daily_refresh`
  unfoldable pub next_daily_refresh : ℕ → ℕ
  next_daily_refresh now =
      let scheduled =
        out.midnight now
        + settings.refresh_hour * hour
        + settings.refresh_minute * minute
        + settings.stable_jitter_seconds * second in
      if ltb now scheduled then scheduled else scheduled + day

  unfoldable pub due : Manager → ℕ → Bool
  due m now =
      if not settings.enabled
      then false
      else if m.startup_refresh_pending
      then true
      else if length m.snapshot.next_refresh_at == 0
      then true
      else elim (parse_timestamp out.lib (text m.snapshot.next_refresh_at)) [
        | ok at ↦ leb at now
        | err e ↦ true
      ]
