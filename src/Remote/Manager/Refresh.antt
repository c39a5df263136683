-- ===== src/Remote/Manager/Refresh.antt =====
-- `refresh` of `RemoteSourceManager` in steam_pumper/remote_sources.py.
use steam_download_pumper.Common.{
  ℕ, ◌+◌, ◌-◌, ◌*◌, Bool, true, false, ◌&&◌, not, Option, none, some, List, [], ◌∷◌, leb, ltb, ◌==◌,
  length, min, if◌then◌else◌,
}
use steam_download_pumper.Common.Text.{Text, text_eq}
use steam_download_pumper.Common.Result.{Result, ok, err, ◌>>=◌, ◌>>◌, raise_if}
use steam_download_pumper.Fleet.Clock.{second}
use steam_download_pumper.Remote.Payload.{RemoteSourceManifest, urls}
use steam_download_pumper.Remote.Envelope.{
  RemoteSourceSettings, RefreshFailure, no_known_list, rollback, not_identical, write_failed,
  Raised, interrupted, failed, uncaught, Fetched, Answer, Process, fetch_envelope, verify_envelope,
}
use steam_download_pumper.Remote.Manager.{
  is_disabled, is_ok, is_stale, is_error, SourceListSnapshot, Disk, Manager, World, Write, raises,
  Outside, pending_snapshot, save_state, save_envelope, parse_payload, next_daily_refresh,
}

-- `RETRY_DELAYS_SECONDS`
unfoldable pub refresh_delay : ℕ → ℕ
refresh_delay failure_count =
    let index = min (failure_count - 1) 3 in
    if index == 0 then 300 else if index == 1 then 1800 else if index == 2 then 7200 else 21600

-- One call: the clock, whether the event is set at the first check and before the verifier, how
-- the fetch and the verifier end, and how the writes end: of the state, of the envelope, and of
-- the state of a failure.
pub record Attempt : Type 0 where
  pub now : ℕ
  pub cancelled_start : Bool
  pub fetched : Fetched
  pub cancelled_verify : Bool
  pub process : Process
  pub state_write : Write
  pub envelope_write : Write
  pub error_write : Write

pub record Candidate : Type 0 where
  pub manifest : RemoteSourceManifest
  pub answer : Answer

-- What the caller sees: `changed`, or the exception that is raised again.
pub data RefreshOutcome : Type 0 where
  returned : Bool → RefreshOutcome
  raised : Raised → RefreshOutcome

abbrev pub known : Option RemoteSourceManifest → Result Raised RemoteSourceManifest
known none = err (failed no_known_list)
known (some m) = ok m

abbrev pub is_same : Option Text → Text → Bool
is_same none envelope = false
is_same (some previous) envelope = text_eq envelope previous

-- A manifest older than the one in use, or another one of the same revision, is refused.
unfoldable pub check_newer :
    Option RemoteSourceManifest
    → Option Text
    → RemoteSourceManifest
    → Text
    → Result Raised (Unit {0})
check_newer none previous_envelope m envelope = ok tt
check_newer (some previous) previous_envelope m envelope = do
  raise_if (ltb m.revision previous.revision) (failed rollback)
  raise_if (m.revision == previous.revision && not (is_same previous_envelope envelope))
      (failed not_identical)

unfoldable pub texts_eq : List Text → List Text → Bool
texts_eq [] [] = true
texts_eq [] (y ∷ ys) = false
texts_eq (x ∷ xs) [] = false
texts_eq (x ∷ xs) (y ∷ ys) = text_eq x y && texts_eq xs ys

abbrev pub is_changed : Option RemoteSourceManifest → RemoteSourceManifest → Bool
is_changed none m = true
is_changed (some previous) m = not (texts_eq (urls m) (urls previous))

abbrev pub has_other_revision : Option RemoteSourceManifest → RemoteSourceManifest → Bool
has_other_revision none m = true
has_other_revision (some previous) m = not (m.revision == previous.revision)

abbrev pub has_expired : Option RemoteSourceManifest → ℕ → Bool
has_expired none now = false
has_expired (some m) now = leb m.expires_at now

abbrev pub or_old : Text → Text → Text
or_old [] old = old
or_old (c ∷ cs) old = c ∷ cs

module _ (out : Outside) (settings : RemoteSourceSettings) where
  -- The envelope of an answer that is no 304, checked against the list in use.
  unfoldable pub open_answer : Manager → Attempt → Text → Result Raised RemoteSourceManifest
  open_answer m a envelope = do
    payload ← verify_envelope out.signing settings a.cancelled_verify a.process envelope
    manifest ← parse_payload out settings a.now false payload
    check_newer m.manifest m.envelope_bytes manifest envelope
    ok manifest

  -- The `try` block up to the writes.
  unfoldable pub accept : Manager → Attempt → Result Raised Candidate
  accept m a = do
    raise_if a.cancelled_start interrupted
    answer ← fetch_envelope settings m.snapshot.etag a.fetched
    manifest ← (if answer.not_modified then known m.manifest else open_answer m a answer.envelope)
    ok (record { manifest = manifest; answer = answer })

  unfoldable pub candidate_snapshot : Manager → ℕ → Candidate → SourceListSnapshot
  candidate_snapshot m now c =
      let stale = leb c.manifest.expires_at now in
      record {
        enabled = true;
        status = if stale then is_stale else is_ok;
        revision = c.manifest.revision;
        generated_at = out.isoformat c.manifest.generated_at;
        expires_at = out.isoformat c.manifest.expires_at;
        source_count = length (urls c.manifest);
        last_checked_at = out.isoformat now;
        last_success_at = out.isoformat now;
        next_refresh_at = out.isoformat (next_daily_refresh out settings now);
        etag = or_old c.answer.etag m.snapshot.etag;
        last_error = [];
        stale = stale;
      }

  -- The branch of a failure: the list in use stays.
  unfoldable pub on_failure : Attempt → RefreshFailure → Manager → Disk → World
  on_failure a e m disk =
      let count = m.failure_count + 1 in
      let stale = has_expired m.manifest a.now in
      let snapshot = record m.snapshot {
        enabled = true;
        status = if stale then is_stale else is_error;
        last_checked_at = out.isoformat a.now;
        next_refresh_at = out.isoformat (a.now + refresh_delay count * second);
        last_error = out.describe e;
        stale = stale;
      } in
      record {
        manager = record m { failure_count = count; snapshot = snapshot };
        disk = save_state a.error_write snapshot count disk;
      }

  -- After the writes.
  unfoldable pub accepted_manager : Manager → ℕ → Candidate → Manager
  accepted_manager m now c = record {
    current_urls = urls c.manifest;
    manifest = some c.manifest;
    envelope_bytes = if c.answer.not_modified then m.envelope_bytes else some c.answer.envelope;
    snapshot = candidate_snapshot m now c;
    failure_count = 0;
    startup_refresh_pending = m.startup_refresh_pending;
  }

  -- The write of the envelope, where there is a new one, and whether it raises.
  unfoldable pub finish_with :
      Manager → Attempt → Candidate → Disk → (writes raising : Bool) → World × RefreshOutcome
  finish_with m a c disk false raising = (
    record { manager = accepted_manager m a.now c; disk = disk },
    returned (is_changed m.manifest c.manifest),
  )
  finish_with m a c disk true true = (
    on_failure a write_failed m (save_envelope a.envelope_write c.answer.envelope disk),
    returned false,
  )
  finish_with m a c disk true false = (
    record {
      manager = accepted_manager m a.now c;
      disk = save_envelope a.envelope_write c.answer.envelope disk;
    },
    returned (is_changed m.manifest c.manifest),
  )

  unfoldable pub finish : Manager → Attempt → Candidate → Disk → World × RefreshOutcome
  finish m a c disk =
      finish_with m a c disk (not c.answer.not_modified && has_other_revision m.manifest c.manifest)
        (raises a.envelope_write)

  -- The writes and the `except` clauses; `m` is the manager before the `try`.
  unfoldable pub conclude :
      Manager → Attempt → Result Raised Candidate → Disk → World × RefreshOutcome
  conclude m a (ok c) disk =
      let saved = save_state a.state_write (candidate_snapshot m a.now c) 0 disk in
      if raises a.state_write
      then (on_failure a write_failed m saved, returned false)
      else finish m a c saved
  conclude m a (err (failed e)) disk = (on_failure a e m disk, returned false)
  conclude m a (err interrupted) disk = (record { manager = m; disk = disk }, raised interrupted)
  conclude m a (err uncaught) disk = (record { manager = m; disk = disk }, raised uncaught)

  unfoldable pub refresh : Attempt → World → World × RefreshOutcome
  refresh a w =
      if not settings.enabled
      then (
        record w {
          manager = record w.manager { snapshot = pending_snapshot false is_disabled [] };
        },
        returned false,
      )
      else (let m = record w.manager { startup_refresh_pending = false } in
          conclude m a (accept m a) w.disk)
