-- ===== src/Remote/Envelope.antt =====
-- `_fetch_envelope` and `_verify_envelope` of steam_pumper/remote_sources.py, with
-- `RemoteSourceSettings`. The server, `base64` and the verifier program are parameters.
pub mod Accepted
use steam_download_pumper.Common.{
  ℕ, ◌+◌, Bool, true, false, not, Option, none, some, List, [], ◌∷◌, ltb, ◌==◌, length, take,
  if◌then◌else◌,
}
use steam_download_pumper.Common.Text.{Text, codes, text_eq}
use steam_download_pumper.Common.Result.{Result, ok, err, ◌>>=◌, ◌>>◌, raise_if}
use steam_download_pumper.Remote.Document.{Value, text}
use steam_download_pumper.Remote.Payload.{PayloadError, overflow, recursion}

-- The settings: `refresh_hour` and `refresh_minute` are the numbers of `refresh_time`, and
-- `stable_jitter_seconds` is the manager's, from the name of the host.
pub record RemoteSourceSettings : Type 0 where
  pub enabled : Bool
  pub key_id : Text
  pub refresh_hour : ℕ
  pub refresh_minute : ℕ
  pub stable_jitter_seconds : ℕ
  pub max_bytes : ℕ
  pub min_sources : ℕ

-- What `refresh` catches as a failure.
pub data RefreshFailure : Type 0 where
  fetch_failed envelope_too_large bad_envelope wrong_key wrong_algorithm bad_base64 : RefreshFailure
  bad_signature_length payload_too_large rejected stdout_too_large different_payload :
      RefreshFailure
  verifier_timeout verifier_not_run no_known_list rollback not_identical write_failed :
      RefreshFailure
  bad_payload : PayloadError → RefreshFailure
  unreadable bad_state refresh_cancelled : RefreshFailure

-- What is raised: `uncaught` is neither an `OSError` nor a `ValueError` nor a
-- `SubprocessError`: an `HTTPException`, a `RecursionError` or an `OverflowError`.
pub data Raised : Type 0 where
  interrupted : Raised
  failed : RefreshFailure → Raised
  uncaught : Raised

-- What opening the URL gives: an answer, an `HTTPError` with its code, an `OSError` (`URLError` is
-- one) or a `ValueError`, or an `HTTPException` (an answer that is no HTTP). `content_length` is
-- the header, its inner `none` where `int` raises; the flags say whether the event is set at the
-- two checks.
pub data Fetched : Type 0 where
  response :
      (status : ℕ) (content_length : Option (Option ℕ)) (body etag : Text)
      (cancelled_open cancelled_read : Bool)
      → Fetched
  http_error : ℕ → Fetched
  url_error : Fetched
  protocol_error : Fetched

-- `envelope, etag, not_modified`
pub record Answer : Type 0 where
  pub envelope : Text
  pub etag : Text
  pub not_modified : Bool

abbrev pub over_length : RemoteSourceSettings → Option (Option ℕ) → Result Raised (Unit {0})
over_length settings none = ok tt
over_length settings (some none) = err (failed fetch_failed)
over_length settings (some (some n)) =
    raise_if (ltb settings.max_bytes n) (failed envelope_too_large)

-- The body of an answer that is no 304.
unfoldable pub read_body :
    RemoteSourceSettings → Option (Option ℕ) → Text → Text → Bool → Result Raised Answer
read_body settings content_length sent etag cancelled_read = do
  over_length settings content_length
  raise_if cancelled_read interrupted
  raise_if (ltb settings.max_bytes (length (take (settings.max_bytes + 1) sent)))
      (failed envelope_too_large)
  ok (record { envelope = take (settings.max_bytes + 1) sent; etag = etag; not_modified = false })

-- `b"", self.snapshot.etag, True`, where `old_etag` is the one of the snapshot.
abbrev pub unchanged : Text → Answer
unchanged old_etag = record { envelope = []; etag = old_etag; not_modified = true }

unfoldable pub fetch_envelope : RemoteSourceSettings → Text → Fetched → Result Raised Answer
fetch_envelope settings old_etag
      (response status content_length sent etag cancelled_open cancelled_read) =
    do
      raise_if cancelled_open interrupted
      (if status == 304
          then ok (unchanged old_etag)
          else read_body settings content_length sent etag cancelled_read)
fetch_envelope settings old_etag (http_error code) =
    if code == 304 then ok (unchanged old_etag) else err (failed fetch_failed)
fetch_envelope settings old_etag url_error = err (failed fetch_failed)
fetch_envelope settings old_etag protocol_error = err uncaught

-- What `json.loads` makes of an envelope: an object with the four fields, or anything else.
pub data RawEnvelope : Type 0 where
  envelope : (key_id algorithm payload signature : Value) → RawEnvelope
  no_envelope : RawEnvelope
  nested_envelope : RawEnvelope

-- How the verifier program ended: `Popen` may raise, the wait may run into the deadline or be
-- cancelled, and a run that ends has an exit code and an output.
pub data Process : Type 0 where
  ran : Process
  timed_out : Process
  cancelled : Process
  not_started : Process

-- Bytes are numbers below 256; `verifier` is what `manifestctl verify`, given the public key, the
-- key id and the size, answers on an envelope.
pub record Signing : Type 0 where
  pub load : Text → RawEnvelope
  pub b64decode : Text → Option Text
  pub verifier : Text → ℕ × Text

-- `document[field] != wanted`
abbrev pub is_text : Value → Text → Bool
is_text (text t) wanted = text_eq t wanted
is_text v wanted = false

abbrev pub run_of : Process → ℕ × Text → Result Raised (ℕ × Text)
run_of ran verdict = ok verdict
run_of timed_out verdict = err (failed verifier_timeout)
run_of cancelled verdict = err interrupted
run_of not_started verdict = err (failed verifier_not_run)

module _ (signing : Signing) (settings : RemoteSourceSettings) where
  unfoldable pub decode_field : Value → Result Raised Text
  decode_field (text t) = elim (signing.b64decode t) [
    | none ↦ err (failed bad_base64)
    | some bytes ↦ ok bytes
  ]
  decode_field v = err (failed bad_base64)

  -- The checks of the fields; the result is `expected_payload`.
  unfoldable pub check_fields : RawEnvelope → Result Raised Text
  check_fields no_envelope = err (failed bad_envelope)
  check_fields nested_envelope = err uncaught
  check_fields (envelope key_id algorithm payload signature) = do
    raise_if (not (is_text key_id settings.key_id)) (failed wrong_key)
    raise_if (not (is_text algorithm (codes "Ed25519"))) (failed wrong_algorithm)
    expected_payload ← decode_field payload
    signed ← decode_field signature
    raise_if (not (length signed == 64)) (failed bad_signature_length)
    raise_if (ltb settings.max_bytes (length expected_payload)) (failed payload_too_large)
    ok expected_payload

  -- The checks of what the verifier answers.
  unfoldable pub check_run : Text → ℕ × Text → Result Raised Text
  check_run expected_payload (returncode, stdout) = do
    raise_if (not (returncode == 0)) (failed rejected)
    raise_if (ltb settings.max_bytes (length stdout)) (failed stdout_too_large)
    raise_if (not (text_eq stdout expected_payload)) (failed different_payload)
    ok stdout

  unfoldable pub verify_envelope : Bool → Process → Text → Result Raised Text
  verify_envelope is_cancelled process bytes = do
    raise_if is_cancelled interrupted
    raise_if (ltb settings.max_bytes (length bytes)) (failed envelope_too_large)
    expected_payload ← check_fields (signing.load bytes)
    verdict ← run_of process (signing.verifier bytes)
    check_run expected_payload verdict

-- A `ValueError` of `parse_manifest_payload`, or what is not caught.
unfoldable pub raised_by : PayloadError → Raised
raised_by overflow = uncaught
raised_by recursion = uncaught
raised_by e = failed (bad_payload e)
