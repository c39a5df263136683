-- ===== src/Publisher/Bucket.antt =====
-- The bucket of source_publisher/service.py, and what `upload` of source_publisher/oss.py does to it.
use steam_download_pumper.Common.{ℕ, Option, none, some, ◌==◌, if◌then◌else◌}
use steam_download_pumper.Common.Text.{Text}
use steam_download_pumper.Common.Result.{Result, ok, err}

-- Why `run` raises.
pub data PublishError : Type 0 where
  publication_interrupted publication_deadline state_invalid candidates_invalid : PublishError
  insufficient_sources payload_invalid sign_failed verify_failed manifest_differs : PublishError
  read_failed object_not_found upload_failed latest_invalid write_failed : PublishError

-- The objects below pumper/v1/: latest.json and releases/<revision>.json.
pub record Bucket : Type 0 where
  pub latest : Option Text
  pub releases : ℕ → Option Text

-- How an upload ends: done, failed without effect, or failed (by its timeout) after its effect.
pub data UploadEnd : Type 0 where
  uploaded : UploadEnd
  not_uploaded : UploadEnd
  uploaded_unseen : UploadEnd

-- The release of a revision, put there unless one is found.
unfoldable pub put_in : Option Text → ℕ → Text → Bucket → Bucket
put_in (some old) revision envelope b = b
put_in none revision envelope b = record b {
  releases = λ r. if r == revision then some envelope else b.releases r;
}

abbrev pub put_release : ℕ → Text → Bucket → Bucket
put_release revision envelope b = put_in (b.releases revision) revision envelope b

-- `upload` with `--forbid-overwrite`, and of latest.json without.
unfoldable pub upload_release :
    UploadEnd → ℕ → Text → Bucket → Bucket × Result PublishError (Unit {0})
upload_release uploaded revision envelope b = (
  put_release revision envelope b,
  elim (b.releases revision) [ some old ↦ err upload_failed | none ↦ ok tt ],
)
upload_release not_uploaded revision envelope b = (b, err upload_failed)
upload_release uploaded_unseen revision envelope b =
    (put_release revision envelope b, err upload_failed)

unfoldable pub upload_latest : UploadEnd → Text → Bucket → Bucket × Result PublishError (Unit {0})
upload_latest uploaded envelope b = (record b { latest = some envelope }, ok tt)
upload_latest not_uploaded envelope b = (b, err upload_failed)
upload_latest uploaded_unseen envelope b = (record b { latest = some envelope }, err upload_failed)
