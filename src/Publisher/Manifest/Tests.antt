-- ===== src/Publisher/Manifest/Tests.antt =====
-- The theorems on source_publisher/manifest.py at concrete inputs: a clock that shows one revision,
-- and URLs that are host names.
use steam_download_pumper.Common.{
  ℕ, ◌*◌, ◌/◌, ◌≡◌, refl, true, false, Option, none, some, List, [], ◌∷◌, arith,
}
use steam_download_pumper.Common.Text.{Text, codes, text_leb}
use steam_download_pumper.Common.Result.{err}
use steam_download_pumper.Fleet.Clock.{second}
use steam_download_pumper.Remote.Document.{Document, Library}
use steam_download_pumper.Remote.Payload.{bad_revision, parse_manifest}
use steam_download_pumper.Publisher.Manifest.{
  ProbeResult, Formats, healthy_of, is_before, insert_source, sort_sources, published, revision_for,
  payload_document, build_payload,
}
use steam_download_pumper.Publisher.Manifest.Accepted.{build_payload-refused}

abbrev read_instant : Text → Option ℕ
read_instant [] = none
read_instant (t ∷ ts) = some t

abbrev lib : Library
lib = record {
  urlsplit = λ t. some (record {
    scheme = codes "http";
    hostname = some t;
    username = none;
    password = none;
    port = some none;
    path = [];
    query = [];
    fragment = [];
  });
  urlunsplit = λ scheme netloc path query. netloc;
  netloc = λ host port. host;
  ip_address = λ t. none;
  resolver = λ host port. none;
  fromisoformat = read_instant;
}

abbrev showing : ℕ → Formats
showing revision = record {
  strftime = λ t. revision;
  isoformat_seconds = λ t. (t / second * second) ∷ [];
  round_3 = λ r. r;
  payload_length = λ d. 1000;
}

-- 2026-01-02 03:04:05.5 UTC
abbrev this_day : ℕ
this_day = 1767323045500000

abbrev probe : Text → ℕ → ProbeResult
probe url mbps = record {
  url = url;
  checked_at = this_day;
  probe_mbps = some (record { numerator = mbps; denominator = 1 });
  success = true;
}

abbrev results : List ProbeResult
results =
    probe (codes "slow") 5
    ∷ record (probe (codes "down") 9) { success = false }
    ∷ probe (codes "fast") 80
    ∷ probe (codes "good") 40
    ∷ []

abbrev clock : Formats
clock = showing 20260102110405

abbrev payload_today : Document
payload_today = payload_document clock (published 100 results) this_day 20260102110405

fast_first :
    build_payload clock results this_day 100 20260101110405
    ≡ some (
      payload_document clock
          (record {
            url = codes "fast";
            checked_at = this_day;
            probe_mbps = record { numerator = 80; denominator = 1 };
          }
            ∷ record {
              url = codes "good";
              checked_at = this_day;
              probe_mbps = record { numerator = 40; denominator = 1 };
            }
            ∷ record {
              url = codes "slow";
              checked_at = this_day;
              probe_mbps = record { numerator = 5; denominator = 1 };
            }
            ∷ [])
          this_day
          20260102110405,
      20260102110405,
    )
unfolding build_payload revision_for healthy_of sort_sources insert_source is_before text_leb
fast_first = refl

abbrev late_clock : Formats
late_clock = showing 20260102110459

built_late :
    build_payload late_clock results this_day 100 20260102110459
    ≡ some (
      payload_document late_clock (published 100 results) this_day 20260102110460,
      20260102110460,
    )
unfolding build_payload revision_for
built_late = refl

build_payload-refused_example :
    parse_manifest lib 3 this_day false false
      (payload_document late_clock (published 100 results) this_day 20260102110460)
    ≡ err bad_revision
build_payload-refused_example =
    build_payload-refused late_clock lib results this_day 100 20260102110459 (omega arith) refl
      built_late 3 this_day false false
