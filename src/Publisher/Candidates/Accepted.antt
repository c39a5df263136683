-- ===== src/Publisher/Candidates/Accepted.antt =====
-- What source_publisher/candidates.py accepts.
use steam_download_pumper.Common.{
  ℕ, suc, ◌*◌, ◌≤◌, ◌≡◌, refl, subst, Bool, true, false, ◌||◌, not, Option, none, some, is_none,
  List, [], ◌∷◌, ◌++◌, ltb, ◌==◌, length, if◌then◌else◌, All, All-append, arith,
}
use steam_download_pumper.Common.Text.{Text, text_in, text_eq_iff, text_eq_refl}
use steam_download_pumper.Common.Dict.Laws.{IsDistinct}
use steam_download_pumper.Common.Result.{
  ok, ◌>>=◌, ◌>>◌, raise_if, >>=-eq-ok, >>-eq-ok, >>-eq-ok_first, raise_if-eq-ok, ok-injective,
}
use steam_download_pumper.Remote.Document.{
  Value, text, truth, whole, real, other, SplitUrl, Address, is_public, Library,
}
use steam_download_pumper.Remote.Url.{schemes}
use steam_download_pumper.Publisher.Candidates.{
  CandidateError, no_text, bad_port, bad_file, bad_document, bad_schema, too_many, repeated,
  not_public, no_address, unresolved, RawCandidate, candidate, no_candidate, CandidateFile,
  candidate_file, no_candidate_file, AddressInfo, has_space, is_bad_port, has_no_host,
  is_schema_one, obtain, check_parts, validate_source_url, load_candidate, load_entries,
  load_document, load_candidates, public_addresses, resolve_public_ipv4,
}

obtain-eq-ok :
    {A : Type 0} (found : Option A) (e : CandidateError) {a : A}
    → obtain found e ≡ ok a
    → found ≡ some a
obtain-eq-ok none e h = cc
obtain-eq-ok (some a) e h = cc

module _ (lib : Library) where
  -- The text of an address that the library reads as a public one.
  pub record IsPublicName (normalized : Text → Text) (name : Text) : Type 0 where
    pub written : Text
    pub address : Address
    pub read : lib.ip_address written ≡ some address
    pub is_public_address : is_public address ≡ true
    pub same : name ≡ normalized written

  -- The parts of an accepted URL.
  pub record IsCandidate (url : Text) : Type 0 where
    pub parts : SplitUrl
    pub port : Option ℕ
    pub no_space : has_space url ≡ false
    pub split : lib.urlsplit url ≡ some parts
    pub has_port : parts.port ≡ some port
    pub has_scheme : text_in parts.scheme schemes ≡ true
    pub has_host : has_no_host parts.hostname ≡ false
    pub no_username : is_none parts.username ≡ true
    pub no_password : is_none parts.password ≡ true
    pub no_fragment : length parts.fragment ≡ 0
    pub no_query : length parts.query ≡ 0
    pub port_range : is_bad_port port ≡ false

  check_parts_lem :
      (p : SplitUrl) (port : Option ℕ)
      → check_parts lib p port ≡ ok tt
      → (text_in p.scheme schemes ≡ true)
        × (has_no_host p.hostname ≡ false)
        × (is_none p.username ≡ true)
        × (is_none p.password ≡ true)
        × (length p.fragment ≡ 0)
        × (length p.query ≡ 0)
        × (is_bad_port port ≡ false)
  unfolding check_parts
  check_parts_lem p port h = ground arith

  validate_source_url-IsCandidate :
      (v : Value) {url : Text} → validate_source_url lib v ≡ ok url → IsCandidate url
  unfolding validate_source_url
  validate_source_url-IsCandidate (text []) h = cc
  validate_source_url-IsCandidate (text (c ∷ cs)) h =
      let spaced = raise_if (has_space (c ∷ cs)) no_text in
      let h1 = >>-eq-ok spaced _ h in
      let (parsed, found, h2) = >>=-eq-ok (obtain (lib.urlsplit (c ∷ cs)) bad_port) _ h1 in
      let (port, found_port, h3) = >>=-eq-ok (obtain parsed.port bad_port) _ h2 in
      let (scheme, host, user, password, no_frag, no_query, range) =
        check_parts_lem parsed port (>>-eq-ok_first (check_parts lib parsed port) _ h3) in
      subst IsCandidate (ok-injective (>>-eq-ok (check_parts lib parsed port) _ h3)) (record {
        parts = parsed;
        port = port;
        no_space = raise_if-eq-ok _ _ (>>-eq-ok_first spaced _ h);
        split = obtain-eq-ok _ _ found;
        has_port = obtain-eq-ok _ _ found_port;
        has_scheme = scheme;
        has_host = host;
        no_username = user;
        no_password = password;
        no_fragment = no_frag;
        no_query = no_query;
        port_range = range;
      })
  validate_source_url-IsCandidate v h = ground arith

  load_candidate_lem :
      (seen : List Text) (raw : RawCandidate) {found : Text × Bool}
      → load_candidate lib seen raw ≡ ok found
      → IsCandidate found.0 × (text_in found.0 seen ≡ false)
  unfolding load_candidate
  load_candidate_lem seen (candidate raw (truth enabled)) h =
      let (url, valid, h1) = >>=-eq-ok (validate_source_url lib raw) _ h in
      let seen_wrong = raise_if (text_in url seen) repeated in
      subst (λ (f : Text × Bool). IsCandidate f.0 × (text_in f.0 seen ≡ false))
        (ok-injective (>>-eq-ok seen_wrong _ h1))
        (
          validate_source_url-IsCandidate raw valid,
          raise_if-eq-ok _ _ (>>-eq-ok_first seen_wrong _ h1),
        )
  load_candidate_lem seen (candidate raw (text t)) h = cc
  load_candidate_lem seen (candidate raw (whole n)) h = cc
  load_candidate_lem seen (candidate raw (real r)) h = cc
  load_candidate_lem seen (candidate raw other) h = cc
  load_candidate_lem seen no_candidate h = cc

  -- The URLs that an accepted file enables.
  abbrev pub IsCandidates : List Text → List Text → Type 0
  IsCandidates seen urls =
      All IsCandidate urls
      × IsDistinct urls
      × ((a : Text) → text_in a seen ≡ true → text_in a urls ≡ false)

  listed-IsCandidates :
      (enabled : Bool) (url : Text) (seen urls : List Text)
      → IsCandidate url
      → text_in url seen ≡ false
      → IsCandidates (url ∷ seen) urls
      → IsCandidates seen (if enabled then url ∷ urls else urls)
  unfolding text_in
  listed-IsCandidates true url seen urls valid new (all, distinct, apart) = (
    (valid, all),
    (apart url (ground (arith, text_eq_refl url)), distinct),
    λ a h. ground (arith, apart a (ground arith), text_eq_iff a url),
  )
  listed-IsCandidates false url seen urls valid new (all, distinct, apart) =
      (all, distinct, λ a h. apart a (ground arith))

  load_entries-IsCandidates :
      (seen : List Text) (raw : List RawCandidate) {urls : List Text}
      → load_entries lib seen raw ≡ ok urls
      → IsCandidates seen urls × (length urls ≤ length raw)
  unfolding load_entries text_in
  load_entries-IsCandidates seen [] h =
      subst (λ urls. IsCandidates seen urls × (length urls ≤ 0)) (ok-injective h)
        ((tt, tt, λ a was. refl), omega arith)
  load_entries-IsCandidates seen (raw ∷ rest) h =
      let (found, loaded, h1) = >>=-eq-ok (load_candidate lib seen raw) _ h in
      let (urls, loaded_rest, h2) = >>=-eq-ok (load_entries lib (found.0 ∷ seen) rest) _ h1 in
      let (valid, new) = load_candidate_lem seen raw loaded in
      let (fine, few) = load_entries-IsCandidates (found.0 ∷ seen) rest loaded_rest in
      subst (λ urls. IsCandidates seen urls × (length urls ≤ suc (length rest))) (ok-injective h2)
        (listed-IsCandidates found.1 found.0 seen urls valid new fine, ground arith)

  load_document_lem :
      (d : CandidateFile) {urls : List Text}
      → load_document lib d ≡ ok urls
      → All IsCandidate urls × IsDistinct urls × (length urls ≤ 200)
  unfolding load_document
  load_document_lem no_candidate_file h = cc
  load_document_lem (candidate_file schema sources) h =
      let h1 = >>-eq-ok (raise_if (not (is_schema_one schema)) bad_schema) _ h in
      let (raw, array, h2) = >>=-eq-ok (obtain sources bad_schema) _ h1 in
      let long = raise_if (ltb 200 (length raw)) too_many in
      let few = raise_if-eq-ok _ _ (>>-eq-ok_first long _ h2) in
      let ((all, distinct, apart), short) = load_entries-IsCandidates [] raw (>>-eq-ok long _ h2) in
      (all, distinct, ground arith)

  -- The candidates of an accepted file are at most 200 HTTP URLs, none twice, each with a host and
  -- without white space, credentials, a fragment or a query, on a port from 1 to 65535 if it names
  -- one.
  pub load_candidates-IsCandidates :
      (file : Option Text) (loads : Text → Option CandidateFile) {urls : List Text}
      → load_candidates lib file loads ≡ ok urls
      → All IsCandidate urls × IsDistinct urls × (length urls ≤ 200)
  unfolding load_candidates
  load_candidates-IsCandidates file loads h =
      let (raw, read, h1) = >>=-eq-ok (obtain file bad_file) _ h in
      let (d, loaded, h2) =
        >>=-eq-ok (obtain (loads raw) bad_document) _
          (>>-eq-ok (raise_if (length raw == 0 || ltb (256 * 1024) (length raw)) bad_file) _ h1) in
      load_document_lem d h2

  more-All :
      (normalized : Text → Text) (found : List Text) (name : Text) (seen : Bool)
      → IsPublicName normalized name
      → All (IsPublicName normalized) found
      → All (IsPublicName normalized) (if seen then found else found ++ (name ∷ []))
  more-All normalized found name true h k = k
  more-All normalized found name false h k =
      All-append (IsPublicName normalized) found (name ∷ []) k (h, tt)

  public_addresses-All :
      (normalized : Text → Text) (found : List Text) (infos : List AddressInfo) {all : List Text}
      → public_addresses lib normalized found infos ≡ ok all
      → All (IsPublicName normalized) found
      → All (IsPublicName normalized) all
  unfolding public_addresses
  public_addresses-All normalized found [] h k =
      subst (All (IsPublicName normalized)) (ok-injective h) k
  public_addresses-All normalized found (a ∷ as') {all = all} h k =
      by_family (λ found' h k. public_addresses-All normalized found' as' h k) a.is_inet h
    where
      by_family :
          ((found' : List Text)
            → public_addresses lib normalized found' as' ≡ ok all
            → All (IsPublicName normalized) found'
            → All (IsPublicName normalized) all)
          → (inet : Bool)
          → (if not inet
              then public_addresses lib normalized found as'
              else obtain (lib.ip_address a.address) not_public >>= λ address.
                  raise_if (not (is_public address)) not_public
                  >> public_addresses lib normalized
                      (if text_in (normalized a.address) found
                        then found
                        else found ++ (normalized a.address ∷ []))
                      as')
            ≡ ok all
          → All (IsPublicName normalized) all
      by_family later false h = later found h k
      by_family later true h =
          let (address, read, h1) = >>=-eq-ok (obtain (lib.ip_address a.address) not_public) _ h in
          let refused = raise_if (not (is_public address)) not_public in
          later _ (>>-eq-ok refused _ h1) (
            more-All normalized found (normalized a.address) (text_in (normalized a.address) found)
              (record {
                written = a.address;
                address = address;
                read = obtain-eq-ok _ _ read;
                is_public_address =
                    ground (arith, raise_if-eq-ok _ _ (>>-eq-ok_first refused _ h1));
                same = refl;
              })
              k)

  -- Every address that a probe may connect to is public, and there is one.
  resolve_public_ipv4-All :
      (normalized : Text → Text) (answers : Option (List AddressInfo)) {all : List Text}
      → resolve_public_ipv4 lib normalized answers ≡ ok all
      → All (IsPublicName normalized) all × (1 ≤ length all)
  unfolding resolve_public_ipv4
  resolve_public_ipv4-All normalized answers h =
      let (infos, resolved, h1) = >>=-eq-ok (obtain answers unresolved) _ h in
      let (found, read, h2) = >>=-eq-ok (public_addresses lib normalized [] infos) _ h1 in
      let none_left = raise_if (length found == 0) no_address in
      let some_left = raise_if-eq-ok _ _ (>>-eq-ok_first none_left _ h2) in
      subst (λ all. All (IsPublicName normalized) all × (1 ≤ length all))
        (ok-injective (>>-eq-ok none_left _ h2))
        (public_addresses-All normalized [] infos read tt, ground arith)
