-- ===== src/Publisher/Candidates/Tests.antt =====
-- The theorems on source_publisher/candidates.py at a file with an enabled and a disabled source.
use steam_download_pumper.Common.{
  ◌≤◌, ◌≡◌, refl, true, false, Option, none, some, [], ◌∷◌, length, All,
}
use steam_download_pumper.Common.Text.{Text, codes, text_in, text_eq}
use steam_download_pumper.Common.Dict.Laws.{IsDistinct}
use steam_download_pumper.Common.Result.{ok}
use steam_download_pumper.Fleet.Strings.{is_space}
use steam_download_pumper.Remote.Document.{text, whole, truth, Library}
use steam_download_pumper.Publisher.Candidates.{
  candidate, CandidateFile, candidate_file, has_space, is_schema_one, check_parts,
  validate_source_url, load_candidate, load_entries, load_document, load_candidates,
}
use steam_download_pumper.Publisher.Candidates.Accepted.{IsCandidate, load_candidates-IsCandidates}

abbrev lib : Library
lib = record {
  urlsplit = λ t. some (record {
    scheme = codes "http";
    hostname = some t;
    username = none;
    password = none;
    port = some (some 80);
    path = [];
    query = [];
    fragment = [];
  });
  urlunsplit = λ scheme netloc path query. netloc;
  netloc = λ host port. host;
  ip_address = λ t. none;
  resolver = λ host port. none;
  fromisoformat = λ t. none;
}

abbrev loads : Text → Option CandidateFile
loads raw = some (
    candidate_file (whole 1) (
      some (
        candidate (text (codes "a")) (truth true)
        ∷ candidate (text (codes "b")) (truth false)
        ∷ [])))

loaded : load_candidates lib (some (codes "file")) loads ≡ ok (codes "a" ∷ [])
unfolding load_candidates load_document is_schema_one load_entries load_candidate
    validate_source_url check_parts has_space is_space text_in text_eq
loaded = refl

load_candidates-IsCandidates_example :
    All (IsCandidate lib) (codes "a" ∷ [])
    × IsDistinct (codes "a" ∷ [])
    × (length (codes "a" ∷ []) ≤ 200)
load_candidates-IsCandidates_example =
    load_candidates-IsCandidates lib (some (codes "file")) loads loaded
