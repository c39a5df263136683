-- ===== src/Publisher/Candidates.antt =====
-- `validate_source_url`, `load_candidates` and `resolve_public_ipv4` of
-- source_publisher/candidates.py.
pub mod Accepted
mod Tests
use steam_download_pumper.Common.{
  ℕ, ◌*◌, Bool, true, false, ◌&&◌, ◌||◌, not, Option, none, some, is_none, List, [], ◌∷◌, ◌++◌, leb,
  ltb, ◌==◌, length, if◌then◌else◌,
}
use steam_download_pumper.Common.Text.{Text, text_eq, text_in}
use steam_download_pumper.Common.Result.{Result, ok, err, ◌>>=◌, ◌>>◌, raise_if}
use steam_download_pumper.Fleet.Strings.{is_space}
use steam_download_pumper.Remote.Document.{
  Value, text, whole, real, truth, SplitUrl, Address, is_public, Library,
}
use steam_download_pumper.Remote.Url.{schemes}

-- The reason of the `ValueError`.
pub data CandidateError : Type 0 where
  no_text bad_port bad_scheme has_credentials has_fragment has_query : CandidateError
  bad_file bad_document bad_schema too_many bad_entry repeated : CandidateError
  unresolved not_public no_address : CandidateError

-- An element of `sources`: an object with the two fields, or anything else.
pub data RawCandidate : Type 0 where
  candidate : (url enabled : Value) → RawCandidate
  no_candidate : RawCandidate

-- What `json.loads` makes of the file: an object with the two fields, or anything else. `sources` is
-- `none` where it is no list.
pub data CandidateFile : Type 0 where
  candidate_file : (schema : Value) (sources : Option (List RawCandidate)) → CandidateFile
  no_candidate_file : CandidateFile

-- An element that `getaddrinfo` gives: whether it is of `AF_INET`, and its address.
pub record AddressInfo : Type 0 where
  pub is_inet : Bool
  pub address : Text

unfoldable pub has_space : Text → Bool
has_space [] = false
has_space (c ∷ cs) = is_space c || has_space cs

-- `port is not None and not 1 <= port <= 65535`
abbrev pub is_bad_port : Option ℕ → Bool
is_bad_port none = false
is_bad_port (some port) = not (leb 1 port && leb port 65535)

-- `not parsed.hostname`
abbrev pub has_no_host : Option Text → Bool
has_no_host none = true
has_no_host (some host) = length host == 0

-- `document["schema"] == 1`, which `True` is as well.
unfoldable pub is_schema_one : Value → Bool
is_schema_one (whole n) = n == 1
is_schema_one (real r) = r.numerator == r.denominator
is_schema_one (truth b) = b
is_schema_one v = false

abbrev pub obtain : {A : Type 0} → Option A → CandidateError → Result CandidateError A
obtain none e = err e
obtain (some a) e = ok a

module _ (lib : Library) where
  -- After `urlsplit`, with the port that was read.
  unfoldable pub check_parts : SplitUrl → Option ℕ → Result CandidateError (Unit {0})
  check_parts parsed port = do
    raise_if (not (text_in parsed.scheme schemes) || has_no_host parsed.hostname) bad_scheme
    raise_if (not (is_none parsed.username) || not (is_none parsed.password)) has_credentials
    raise_if (not (length parsed.fragment == 0)) has_fragment
    raise_if (not (length parsed.query == 0)) has_query
    raise_if (is_bad_port port) bad_port

  unfoldable pub validate_source_url : Value → Result CandidateError Text
  validate_source_url (text []) = err no_text
  validate_source_url (text (c ∷ cs)) = do
    raise_if (has_space (c ∷ cs)) no_text
    parsed ← obtain (lib.urlsplit (c ∷ cs)) bad_port
    port ← obtain parsed.port bad_port
    check_parts parsed port
    ok (c ∷ cs)
  validate_source_url v = err no_text

  -- One round of the loop: the URL, and whether it is enabled.
  unfoldable pub load_candidate : List Text → RawCandidate → Result CandidateError (Text × Bool)
  load_candidate seen (candidate raw (truth enabled)) = do
    url ← validate_source_url raw
    raise_if (text_in url seen) repeated
    ok (url, enabled)
  load_candidate seen raw = err bad_entry

  unfoldable pub load_entries : List Text → List RawCandidate → Result CandidateError (List Text)
  load_entries seen [] = ok []
  load_entries seen (raw ∷ rest) = do
    (url, enabled) ← load_candidate seen raw
    urls ← load_entries (url ∷ seen) rest
    ok (if enabled then url ∷ urls else urls)

  unfoldable pub load_document : CandidateFile → Result CandidateError (List Text)
  load_document no_candidate_file = err bad_document
  load_document (candidate_file schema sources) = do
    raise_if (not (is_schema_one schema)) bad_schema
    raw ← obtain sources bad_schema
    raise_if (ltb 200 (length raw)) too_many
    load_entries [] raw

  -- `load_candidates`: the bytes of the file, `none` where it cannot be read, and what `json.loads`
  -- makes of them, `none` where it raises.
  unfoldable pub load_candidates :
      Option Text → (Text → Option CandidateFile) → Result CandidateError (List Text)
  load_candidates file loads = do
    raw ← obtain file bad_file
    raise_if (length raw == 0 || ltb (256 * 1024) (length raw)) bad_file
    document ← obtain (loads raw) bad_document
    load_document document

  -- The loop over the answers; `normalized` is `str(address)`.
  unfoldable pub public_addresses :
      (Text → Text) → List Text → List AddressInfo → Result CandidateError (List Text)
  public_addresses normalized found [] = ok found
  public_addresses normalized found (a ∷ as') =
      if not a.is_inet then public_addresses normalized found as' else (do
        address ← obtain (lib.ip_address a.address) not_public
        raise_if (not (is_public address)) not_public
        public_addresses normalized
            (if text_in (normalized a.address) found
              then found
              else found ++ (normalized a.address ∷ []))
            as')

  unfoldable pub resolve_public_ipv4 :
      (Text → Text) → Option (List AddressInfo) → Result CandidateError (List Text)
  resolve_public_ipv4 normalized answers = do
    as' ← obtain answers unresolved
    found ← public_addresses normalized [] as'
    raise_if (length found == 0) no_address
    ok found
