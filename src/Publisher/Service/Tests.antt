-- ===== src/Publisher/Service/Tests.antt =====
-- The theorems on source_publisher/service.py at concrete inputs: a bucket that is empty, a signer
-- that returns the payload, and calls that all get through.
use steam_download_pumper.Common.{ℕ, ◌≤◌, ◌≡◌, refl, true, false, none, some, [], ◌∷◌}
use steam_download_pumper.Common.Text.{Text, codes, text_eq}
use steam_download_pumper.Common.Result.{ok}
use steam_download_pumper.Publisher.Manifest.{ProbeResult, Formats, build_payload, revision_for}
use steam_download_pumper.Publisher.Bucket.{
  uploaded, uploaded_unseen, put_in, upload_release, upload_latest,
}
use steam_download_pumper.Publisher.Service.{
  World, Circumstances, PublisherConfig, PublicationResult, written, is_fast, keep_fast,
  verify_public, recover_remote_commit, make_payload, make_envelope, plan_publication, plan, next,
  release_step, check_release, check_uploaded_latest, write_success_state, publish_step, run_plan,
  run,
}
use steam_download_pumper.Publisher.Service.Committed.{IsSound}
use steam_download_pumper.Publisher.Service.Ending.{run-IsSound}
use steam_download_pumper.Publisher.Service.Planned.{IsThere, HoldsRevision}
use steam_download_pumper.Publisher.Service.Published.{run_published}

abbrev probe : ProbeResult
probe = record {
  url = codes "http://a/";
  checked_at = 1000000;
  probe_mbps = some (record { numerator = 90; denominator = 1 });
  success = true;
}

abbrev formats : Formats
formats = record {
  strftime = λ t. 20260102110405;
  isoformat_seconds = λ t. t ∷ [];
  round_3 = λ r. r;
  payload_length = λ d. 1000;
}

abbrev circumstances : Circumstances
circumstances = record {
  active = λ n. none;
  reachable = λ n. true;
  release_upload = uploaded;
  latest_upload = uploaded;
  files_written = true;
  state_end = written;
  probed = some (probe ∷ []);
  sign = λ payload. some payload;
  verify = λ envelope. some envelope;
  dump = λ d. codes "list";
  load = λ payload. none;
  int_of = λ v. none;
  fromisoformat = λ v. none;
  local_date = λ t. 0;
  formats = formats;
}

abbrev config : PublisherConfig
config = record { min_healthy_sources = 1; max_healthy_sources = 100; min_probe_mbps = 10 }

abbrev cold : World
cold = record {
  bucket = record { latest = none; releases = λ r. none };
  last_revision = some 20260101110405;
}

abbrev result : PublicationResult
result = record {
  revision = 20260102110405;
  source_count = 1;
  payload = codes "list";
  envelope = some (codes "list");
}

abbrev done : World
done = (run circumstances config 1000000 false cold).0

published_now : run circumstances config 1000000 false cold ≡ (done, ok result)
unfolding run plan recover_remote_commit plan_publication make_payload make_envelope build_payload
    revision_for keep_fast is_fast run_plan publish_step next release_step check_release
    check_uploaded_latest write_success_state upload_release upload_latest put_in verify_public
    text_eq
published_now = refl

run_published_example :
    IsThere (λ envelope. some envelope) done.bucket result
    × (done.last_revision ≡ some 20260102110405)
    × ((previous : ℕ) → some 20260101110405 ≡ some previous → previous ≤ 20260102110405)
    × ((r : ℕ) → HoldsRevision circumstances cold.bucket r → r ≤ 20260102110405)
run_published_example = run_published circumstances config 1000000 cold done result published_now

-- The upload of latest.json takes effect, and its end is not seen.
run-IsSound_example :
    IsSound cold.bucket
      (run
        (record circumstances { latest_upload = uploaded_unseen })
        config
        1000000
        false
        cold).0.bucket
run-IsSound_example =
    run-IsSound (record circumstances { latest_upload = uploaded_unseen }) config 1000000 false cold
      no_latest
  where
    no_latest : (l : Text) → none ≡ some l → (r : ℕ) × (none ≡ some l)
    no_latest l h = (0, h)
