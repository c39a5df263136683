-- ===== src/Publisher/Service.antt =====
-- `PublicationService.run` of source_publisher/service.py, with the bucket that its OSS client
-- writes and reads. The probe, the signing program and the outcome of each call are parameters.
pub mod Committed
pub mod Ending
pub mod Planned
pub mod Published
mod Tests
use steam_download_pumper.Common.{
  ℕ, ◌*◌, Bool, true, false, ◌&&◌, ◌||◌, not, Option, none, some, List, [], ◌∷◌, leb, ltb, ◌==◌,
  length, max, if◌then◌else◌,
}
use steam_download_pumper.Common.Text.{Text, text_eq}
use steam_download_pumper.Common.Result.{Result, ok, err, ◌>>=◌, ◌>>◌, raise_if}
use steam_download_pumper.Remote.Document.{Value, text, whole, real, truth, Document}
use steam_download_pumper.Remote.Payload.{has_14_digits}
use steam_download_pumper.Publisher.Bucket.{
  PublishError, publication_interrupted, publication_deadline, state_invalid, candidates_invalid,
  insufficient_sources, payload_invalid, sign_failed, verify_failed, manifest_differs, read_failed,
  object_not_found, upload_failed, latest_invalid, write_failed, Bucket, UploadEnd, uploaded,
  not_uploaded, uploaded_unseen, put_in, put_release, upload_release, upload_latest,
}
use steam_download_pumper.Publisher.Candidates.{is_schema_one}
use steam_download_pumper.Publisher.Manifest.{ProbeResult, Formats, build_payload}

-- The bucket, and the last revision of state.json, `none` where it is no number.
pub record World : Type 0 where
  pub bucket : Bucket
  pub last_revision : Option ℕ

-- What `json.loads` makes of a payload: its four fields, `other` where one is missing, and the
-- number of sources where that is a list.
pub record LatestDocument : Type 0 where
  pub schema : Value
  pub revision : Value
  pub generated_at : Value
  pub sources : Option ℕ

-- How the write of state.json ends: `atomic_write` may raise before it replaces the file, and after.
pub data StateEnd : Type 0 where
  written not_written written_raised : StateEnd

-- What the run meets: the n-th call of `_ensure_active`, whether the n-th read gets through, the
-- ends of the two uploads and of the write of state.json, and whether the other files are written; `sign`, `verify` and `probed` are
-- what the programs and the probe answer. `local_date` is a date in the configured time zone.
pub record Circumstances : Type 0 where
  pub active : ℕ → Option PublishError
  pub reachable : ℕ → Bool
  pub release_upload : UploadEnd
  pub latest_upload : UploadEnd
  pub files_written : Bool
  pub state_end : StateEnd
  pub probed : Option (List ProbeResult)
  pub sign : Text → Option Text
  pub verify : Text → Option Text
  pub dump : Document → Text
  pub load : Text → Option LatestDocument
  pub int_of : Value → Option ℕ
  pub fromisoformat : Value → Option ℕ
  pub local_date : ℕ → ℕ
  pub formats : Formats

pub record PublisherConfig : Type 0 where
  pub min_healthy_sources : ℕ
  pub max_healthy_sources : ℕ
  pub min_probe_mbps : ℕ

pub record PublicationResult : Type 0 where
  pub revision : ℕ
  pub source_count : ℕ
  pub payload : Text
  pub envelope : Option Text

abbrev pub get : {A : Type 0} → Option A → PublishError → Result PublishError A
get none e = err e
get (some a) e = ok a

abbrev pub ensure : Option PublishError → Result PublishError (Unit {0})
ensure none = ok tt
ensure (some e) = err e

-- `result.success and result.probe_mbps >= min_probe_mbps`; `_probe_once` raises on a speed that
-- is not finite, so that no source with success has an infinite one.
unfoldable pub is_fast : ℕ → ProbeResult → Bool
is_fast min_mbps r =
    r.success
    && elim r.probe_mbps [ none ↦ false | some m ↦ leb (min_mbps * m.denominator) m.numerator ]

unfoldable pub keep_fast : ℕ → List ProbeResult → List ProbeResult
keep_fast min_mbps [] = []
keep_fast min_mbps (r ∷ rs) =
    let rest = keep_fast min_mbps rs in if is_fast min_mbps r then r ∷ rest else rest

-- A step on the world, and the rest after it unless it raised.
abbrev pub Step : Type 0 → Type 0
Step A = World × Result PublishError A

unfoldable pub next : {A B : Type 0} → Step A → (World → A → Step B) → Step B
next (w, ok a) rest = rest w a
next (w, err e) rest = (w, err e)

-- What `run` has decided before it writes to the bucket: to leave today's list as it is, to return
-- the payload only, or to publish.
pub data Plan : Type 0 where
  recovered_today : PublicationResult → Plan
  validated : PublicationResult → Plan
  publish : (revision count : ℕ) (payload envelope : Text) → Plan

module _ (c : Circumstances) (config : PublisherConfig) where
  -- A read of the public object.
  abbrev pub read_public : ℕ → Option Text → Result PublishError Text
  read_public n object = do raise_if (not (c.reachable n)) read_failed; get object object_not_found

  unfoldable pub verify_public : ℕ → Text → Text → Text → Result PublishError (Unit {0})
  verify_public n fetched expected_envelope expected_payload = do
    ensure (c.active n)
    raise_if (not (text_eq fetched expected_envelope)) manifest_differs
    verified ← get (c.verify fetched) verify_failed
    raise_if (not (text_eq verified expected_payload)) manifest_differs

  unfoldable pub check_latest : LatestDocument → Result PublishError (ℕ × (ℕ × ℕ))
  check_latest d = do
    revision ← get (c.int_of d.revision) latest_invalid
    generated ← get (c.fromisoformat d.generated_at) latest_invalid
    raise_if (not (is_schema_one d.schema)) latest_invalid
    raise_if (not (has_14_digits revision)) latest_invalid
    count ← get d.sources latest_invalid
    ok (revision, (generated, count))

  -- `_recover_remote_commit` of a latest.json that was read: the result with the date of its list.
  unfoldable pub recover_latest : Bucket → Text → Result PublishError (PublicationResult × ℕ)
  recover_latest b latest = do
    payload ← get (c.verify latest) verify_failed
    document ← get (c.load payload) latest_invalid
    (revision, (generated, count)) ← check_latest document
    ensure (c.active 2)
    release ← read_public 1 (b.releases revision)
    verify_public 3 release latest payload
    ok (
      record {
        revision = revision;
        source_count = count;
        payload = payload;
        envelope = some latest;
      },
      c.local_date generated,
    )

  -- `_recover_remote_commit`
  unfoldable pub recover_remote_commit :
      Bucket → Result PublishError (Option (PublicationResult × ℕ))
  recover_remote_commit b = do
    ensure (c.active 1)
    raise_if (not (c.reachable 0)) read_failed
    elim b.latest [
      | none ↦ ok none
      | some latest ↦ do found ← recover_latest b latest; ok (some found)
    ]

  -- The payload of the healthy candidates, its revision and their number.
  unfoldable pub make_payload : ℕ → ℕ → Result PublishError (Document × (ℕ × ℕ))
  make_payload previous_revision now = do
    results ← get c.probed candidates_invalid
    ensure (c.active 4)
    raise_if (ltb (length (keep_fast config.min_probe_mbps results)) config.min_healthy_sources)
        insufficient_sources
    (payload, revision) ←
        get
          (build_payload c.formats (keep_fast config.min_probe_mbps results) now
            config.max_healthy_sources previous_revision)
          payload_invalid
    ok (payload, (revision, length (keep_fast config.min_probe_mbps results)))

  -- The signed payload, verified and staged.
  unfoldable pub make_envelope : Text → Result PublishError Text
  make_envelope payload = do
    envelope ← get (c.sign payload) sign_failed
    ensure (c.active 5)
    verified ← get (c.verify envelope) verify_failed
    raise_if (not (text_eq verified payload)) verify_failed
    raise_if (not c.files_written) write_failed
    ensure (c.active 6)
    ok envelope

  unfoldable pub plan_validation : ℕ → ℕ → Result PublishError Plan
  plan_validation previous_revision now = do
    (payload, (revision, count)) ← make_payload previous_revision now
    ok (
        validated (record {
          revision = revision;
          source_count = count;
          payload = c.dump payload;
          envelope = none;
        }))

  unfoldable pub plan_publication : ℕ → ℕ → Result PublishError Plan
  plan_publication previous_revision now = do
    (payload, (revision, count)) ← make_payload previous_revision now
    envelope ← make_envelope (c.dump payload)
    ok (publish revision count (c.dump payload) envelope)

  -- With a remote list that is not older than the state: today's is left as it is.
  unfoldable pub plan_recovered : ℕ → ℕ → PublicationResult → ℕ → Result PublishError Plan
  plan_recovered previous_revision now found date =
      if leb previous_revision found.revision && date == c.local_date now
      then ok (recovered_today found)
      else plan_publication (max previous_revision found.revision) now

  unfoldable pub plan : ℕ → Bool → World → Result PublishError Plan
  plan now validate_only w = do
    ensure (c.active 0)
    previous_revision ← get w.last_revision state_invalid
    elim validate_only [
      | true ↦ plan_validation previous_revision now
      | false ↦ do
        recovered ← recover_remote_commit w.bucket
        elim recovered [
          | none ↦ plan_publication previous_revision now
          | some found ↦ plan_recovered previous_revision now found.0 found.1
        ]
    ]

  abbrev pub on_bucket : World → Bucket × Result PublishError (Unit {0}) → Step (Unit {0})
  on_bucket w (b, r) = (record w { bucket = b }, r)

  -- The release, unless it is there already and equal.
  unfoldable pub release_step : ℕ → Text → Text → World → Step (Unit {0})
  release_step revision payload envelope w = elim (c.reachable 2) [
    | false ↦ (w, err read_failed)
    | true ↦ elim (w.bucket.releases revision) [
      | some existing ↦ (w, verify_public 8 existing envelope payload)
      | none ↦ elim (c.active 7) [
        | some e ↦ (w, err e)
        | none ↦ on_bucket w (upload_release c.release_upload revision envelope w.bucket)
      ]
    ]
  ]

  unfoldable pub check_release : ℕ → Text → Text → World → Result PublishError (Unit {0})
  check_release revision payload envelope w = do
    ensure (c.active 9)
    fetched ← read_public 3 (w.bucket.releases revision)
    verify_public 10 fetched envelope payload
    ensure (c.active 11)

  unfoldable pub check_uploaded_latest : Text → Text → World → Result PublishError (Unit {0})
  check_uploaded_latest payload envelope w = do
    ensure (c.active 12)
    fetched ← read_public 4 w.bucket.latest
    verify_public 13 fetched envelope payload
    ensure (c.active 14)

  -- `_write_success_state`
  unfoldable pub write_success_state : PublicationResult → World → Step PublicationResult
  write_success_state result w = elim c.state_end [
    | written ↦ (record w { last_revision = some result.revision }, ok result)
    | not_written ↦ (w, err write_failed)
    | written_raised ↦ (record w { last_revision = some result.revision }, err write_failed)
  ]

  unfoldable pub publish_step : ℕ → ℕ → Text → Text → World → Step PublicationResult
  publish_step revision count payload envelope w =
      next (release_step revision payload envelope w) (λ w _.
        next (w, check_release revision payload envelope w)
          (λ w _. next (on_bucket w (upload_latest c.latest_upload envelope w.bucket)) (λ w _.
            next (w, check_uploaded_latest payload envelope w)
              (λ w _.
                write_success_state
                  (record {
                    revision = revision;
                    source_count = count;
                    payload = payload;
                    envelope = some envelope;
                  })
                  w))))

  unfoldable pub run_plan : Plan → World → Step PublicationResult
  run_plan (recovered_today result) w = write_success_state result w
  run_plan (validated result) w = (w, ok result)
  run_plan (publish revision count payload envelope) w =
      publish_step revision count payload envelope w

  unfoldable pub run : ℕ → Bool → World → Step PublicationResult
  run now validate_only w = next (w, plan now validate_only w) (λ w chosen. run_plan chosen w)
