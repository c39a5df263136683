-- ===== src/Remote/Tests.antt =====
-- The theorems on steam_pumper/remote_sources.py at concrete inputs: a library that reads a text of
-- one number as that instant and knows no literal address, and a verifier that returns the payload
-- of the envelope.
use steam_download_pumper.Common.{
  ℕ, ◌+◌, ◌*◌, ◌/◌, ◌≤◌, ◌≡◌, refl, true, false, Option, none, some, [], ◌∷◌, ◌++◌, arith,
}
use steam_download_pumper.Common.Text.{Text, codes, text_in, text_eq}
use steam_download_pumper.Common.Result.{ok}
use steam_download_pumper.Fleet.Clock.{minute, hour, day}
use steam_download_pumper.Remote.Document.{
  text, whole, RawEntry, entry, Document, document, SplitUrl, Library,
}
use steam_download_pumper.Remote.Payload.{
  RemoteSourceManifest, parse_timestamp, parse_manifest, parse_entries, parse_entry, parse_revision,
  parse_probe, check_times, check_length, is_schema_1, is_timestamp, days_in_month,
}
use steam_download_pumper.Remote.Url.{
  normalize_source_url, normalize_parts, addresses_of, check_addresses,
}
use steam_download_pumper.Fleet.Strings.{lower}
use steam_download_pumper.Remote.Payload.Accepted.{IsManifest, parse_manifest-IsManifest}
use steam_download_pumper.Remote.Envelope.{
  RemoteSourceSettings, envelope, ran, Signing, response, url_error, protocol_error, uncaught,
  Fetched, fetch_envelope, read_body, verify_envelope, check_fields, decode_field, check_run,
  raised_by,
}
use steam_download_pumper.Remote.Manager.{
  missing_envelope, missing_state, World, written, Outside, initial, due, save_state, save_envelope,
  next_daily_refresh,
}
use steam_download_pumper.Remote.Manager.Load.{
  accepted, open_envelope, load_envelope, load_with, load_enabled, load_last_known_good,
}
use steam_download_pumper.Remote.Manager.Refresh.{
  Attempt, returned, raised, accept, refresh, conclude, finish, finish_with, accepted_manager,
  candidate_snapshot, open_answer, check_newer, texts_eq, on_failure,
}
use steam_download_pumper.Remote.Manager.Safe.{IsSafe, initial-IsSafe, revision_of}
use steam_download_pumper.Remote.Manager.Run.{
  Run, started, refreshed, restarted, RunsVerifier, run-IsSafe,
}
use steam_download_pumper.Remote.Manager.Failures.{IsEnded, refresh-IsEnded, refresh-protocol_error}
use steam_download_pumper.Remote.Worker
use steam_download_pumper.Remote.Worker.{request, request_in, poll_result, begin, begin_in}
use steam_download_pumper.Remote.Worker.Orderly
use steam_download_pumper.Remote.Worker.Orderly.{
  taken, History, requested, polled, began, finished, IsOrderly, History-IsOrderly,
}
use steam_download_pumper.Remote.Manager.Retry.{IsClock, IsNext, refresh-IsNext}

abbrev parts_of : Text → SplitUrl
parts_of host = record {
  scheme = codes "http";
  hostname = some host;
  username = none;
  password = none;
  port = some none;
  path = [];
  query = [];
  fragment = [];
}

abbrev read_instant : Text → Option ℕ
read_instant [] = none
read_instant (t ∷ ts) = some t

abbrev lib : Library
lib = record {
  urlsplit = λ t. some (parts_of t);
  urlunsplit = λ scheme netloc path query. netloc ++ path;
  netloc = λ host port. host;
  ip_address = λ t. none;
  resolver = λ host port. none;
  fromisoformat = read_instant;
}

-- 2026-01-02 03:04:05 UTC
abbrev day_one : ℕ
day_one = 1767323045000000

abbrev source : Text → RawEntry
source name = entry (text name) (text (day_one ∷ [])) (whole 50)

abbrev payload_one : Document
payload_one =
    document (whole 1) (whole 20260102110405) (text (day_one ∷ []))
      (text ((day_one + 72 * hour) ∷ []))
      (some (source (codes "a") ∷ source (codes "b") ∷ source (codes "c") ∷ []))

abbrev list_one : RemoteSourceManifest
list_one = record {
  revision = 20260102110405;
  generated_at = day_one;
  expires_at = day_one + 72 * hour;
  sources =
      record {
        url = codes "a/";
        checked_at = day_one;
        probe_mbps = record { numerator = 50; denominator = 1 };
      }
      ∷ record {
        url = codes "b/";
        checked_at = day_one;
        probe_mbps = record { numerator = 50; denominator = 1 };
      }
      ∷ record {
        url = codes "c/";
        checked_at = day_one;
        probe_mbps = record { numerator = 50; denominator = 1 };
      }
      ∷ [];
}

parsed_one : parse_manifest lib 3 day_one false false payload_one ≡ ok list_one
unfolding parse_manifest parse_entries parse_entry parse_revision parse_probe check_times
    check_length parse_timestamp is_schema_1 is_timestamp days_in_month normalize_source_url
    normalize_parts addresses_of check_addresses lower text_in text_eq
parsed_one = refl

parse_manifest-IsManifest_example : IsManifest lib 3 day_one false false list_one
parse_manifest-IsManifest_example =
    parse_manifest-IsManifest lib 3 day_one false false payload_one parsed_one

abbrev settings : RemoteSourceSettings
settings = record {
  enabled = true;
  key_id = codes "k";
  refresh_hour = 4;
  refresh_minute = 0;
  stable_jitter_seconds = 60;
  max_bytes = 2000;
  min_sources = 3;
}

abbrev signature : Text
signature = codes "0123456789012345678901234567890123456789012345678901234567890123"

abbrev signing : Signing
signing = record {
  load = λ t. envelope (text (codes "k")) (text (codes "Ed25519")) (text t) (text signature);
  b64decode = λ t. some t;
  verifier = λ t. (0, t);
}

abbrev out : Outside
out = record {
  lib = lib;
  signing = signing;
  load_manifest = λ t. payload_one;
  isoformat = λ t. t ∷ [];
  midnight = λ t. t / day * day;
  describe = λ e. codes "error";
  state_size = λ s. 100;
}

abbrev cold : World
cold = record {
  manager = initial settings;
  disk = record { envelope_path = missing_envelope; state_path = missing_state };
}

abbrev attempt : ℕ → Fetched → Attempt
attempt now fetched = record {
  now = now;
  cancelled_start = false;
  fetched = fetched;
  cancelled_verify = false;
  process = ran;
  state_write = written;
  envelope_write = written;
  error_write = written;
}

abbrev first : Attempt
first = attempt day_one (response 200 none (codes "list") [] false false)

abbrev warm : World
warm = (refresh out settings first cold).0

warm_list : warm.manager.manifest ≡ some list_one
unfolding refresh conclude finish finish_with accepted_manager candidate_snapshot save_state
    save_envelope accept open_answer fetch_envelope read_body verify_envelope check_fields
    decode_field check_run check_newer raised_by next_daily_refresh texts_eq parse_manifest
    parse_entries parse_entry parse_revision parse_probe check_times check_length parse_timestamp
    is_schema_1 is_timestamp days_in_month normalize_source_url normalize_parts addresses_of
    check_addresses lower text_in text_eq
warm_list = refl

-- Ten minutes later the server does not answer, and the program is started again after an hour.
abbrev second_call : Attempt
second_call = attempt (day_one + 10 * minute) url_error

abbrev left : World
left = (refresh out settings second_call warm).0

abbrev restart : World
restart = record { manager = initial settings; disk = left.disk }

abbrev reloaded : World
reloaded =
    load_with out settings (day_one + hour) written restart (accepted list_one (codes "list"))

restart_run : load_last_known_good out settings (day_one + hour) ran written restart ≡ ok reloaded
unfolding load_last_known_good load_enabled load_envelope open_envelope refresh conclude on_failure
    finish finish_with accepted_manager candidate_snapshot save_state save_envelope accept
    open_answer fetch_envelope read_body verify_envelope check_fields decode_field check_run
    check_newer raised_by next_daily_refresh texts_eq parse_manifest parse_entries parse_entry
    parse_revision parse_probe check_times check_length parse_timestamp is_schema_1 is_timestamp
    days_in_month normalize_source_url normalize_parts addresses_of check_addresses lower text_in
    text_eq
restart_run = refl

history : Run out settings day_one cold (day_one + hour) reloaded
history =
    restarted (refreshed (refreshed started first (omega arith)) second_call (omega arith))
      (day_one + hour) (omega arith) ran written reloaded restart_run

run-IsSafe_example :
    IsSafe out settings (day_one + hour) reloaded
    × (RunsVerifier out settings history → revision_of cold.manager ≤ revision_of reloaded.manager)
run-IsSafe_example =
    run-IsSafe out settings day_one cold refl (initial-IsSafe out settings day_one cold.disk)
      history

clock : IsClock out settings
unfolding parse_timestamp
clock = record {
  hour_bound = omega arith;
  minute_bound = omega arith;
  jitter_bound = omega arith;
  begun = λ t. omega arith;
  lasting = λ t. omega arith;
  read_back = λ t. refl;
}

first_returned : (refresh out settings first cold).1 ≡ returned true
unfolding refresh conclude on_failure finish finish_with accepted_manager candidate_snapshot
    save_state save_envelope accept open_answer fetch_envelope read_body verify_envelope
    check_fields decode_field check_run check_newer raised_by next_daily_refresh texts_eq
    parse_manifest parse_entries parse_entry parse_revision parse_probe check_times check_length
    parse_timestamp is_schema_1 is_timestamp days_in_month normalize_source_url normalize_parts
    addresses_of check_addresses lower text_in text_eq
first_returned = refl

refresh-IsNext_example : IsNext out settings clock day_one warm.manager
refresh-IsNext_example = refresh-IsNext out settings clock first cold true refl first_returned

refresh-IsEnded_example :
    IsEnded out settings second_call warm (refresh out settings second_call warm)
refresh-IsEnded_example = refresh-IsEnded out settings second_call warm refl

abbrev no_http : Attempt
no_http = attempt day_one protocol_error

cold_due : due out settings (record cold.manager { startup_refresh_pending = false }) day_one ≡ true
unfolding due
cold_due = refl

refresh-protocol_error_example :
    ((refresh out settings no_http cold).1 ≡ raised uncaught)
    × ((refresh out settings no_http cold).0.manager.failure_count ≡ 0)
    × ((refresh out settings no_http cold).0.manager.snapshot ≡ cold.manager.snapshot)
    × (due out settings (refresh out settings no_http cold).0.manager day_one ≡ true)
refresh-protocol_error_example =
    refresh-protocol_error out settings no_http cold day_one refl refl refl cold_due

-- The worker takes a request, refreshes once, and its answer is fetched.
orderly_history :
    History {Answer = ℕ}
      (poll_result (Worker.finish (begin (request Worker.initial 7).0) 42)).0
      (record { accepted = 7 ∷ []; begun = 7 ∷ []; answered = 42 ∷ []; fetched = 42 ∷ [] })
unfolding request request_in taken begin begin_in Worker.finish
orderly_history =
    polled (finished (began (requested Orderly.started 7) 7 refl refl refl refl) (some 7) 42 refl)

History-IsOrderly_example :
    IsOrderly {Answer = ℕ}
      (poll_result (Worker.finish (begin (request Worker.initial 7).0) 42)).0
      (record { accepted = 7 ∷ []; begun = 7 ∷ []; answered = 42 ∷ []; fetched = 42 ∷ [] })
History-IsOrderly_example = History-IsOrderly orderly_history
