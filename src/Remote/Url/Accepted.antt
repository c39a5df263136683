-- ===== src/Remote/Url/Accepted.antt =====
-- What a URL that `_normalize_source_url` of steam_pumper/remote_sources.py accepts satisfies.
use steam_download_pumper.Common.{
  ℕ, ◌≡◌, refl, sym, Bool, true, ◌||◌, not, Option, none, some, is_none, List, [], ◌∷◌, ◌==◌,
  length, if◌then◌else◌, All, arith,
}
use steam_download_pumper.Common.Text.{Text, codes, text_in}
use steam_download_pumper.Common.Result.{
  ok, raise_if, >>=-eq-ok, >>-eq-ok, >>-eq-ok_first, raise_if-eq-ok, ok-injective,
}
use steam_download_pumper.Fleet.Strings.{lower}
use steam_download_pumper.Remote.Document.{Value, text, SplitUrl, Address, is_public, Library}
use steam_download_pumper.Remote.Url.{
  UrlError, bad_url, bad_scheme, no_hostname, credentials, fragment, bad_port, bad_address,
  not_public, schemes, need, check_addresses, addresses_of, host_of, normalize_parts,
  normalize_source_url,
}

pub need-eq-ok :
    {A : Type 0} (found : Option A) (e : UrlError) {a : A} → need found e ≡ ok a → found ≡ some a
need-eq-ok none e h = cc
need-eq-ok (some a) e h = cc

module _ (lib : Library) where
  -- The text is an address that the library reads as a public one.
  unfoldable pub IsPublicAddress : Text → Type 0
  IsPublicAddress a =
      (address : Address) × (lib.ip_address a ≡ some address) × (is_public address ≡ true)

  -- The parts that an accepted URL is put together from, and what they satisfy.
  pub record IsSource (resolve_dns : Bool) (url : Text) : Type 0 where
    pub parts : SplitUrl
    pub host : Text
    pub port : Option ℕ
    pub addresses : List Text
    pub has_scheme : text_in (lower parts.scheme) schemes ≡ true
    pub has_host : parts.hostname ≡ some host
    pub has_port : parts.port ≡ some port
    pub no_username : parts.username ≡ none
    pub no_password : parts.password ≡ none
    pub no_fragment : length parts.fragment ≡ 0
    pub has_addresses : addresses_of lib resolve_dns (lower host) port ≡ ok addresses
    pub all_public : All IsPublicAddress addresses
    pub same :
        url
        ≡ lib.urlunsplit
            (lower parts.scheme)
            (host_of lib (lower host) port)
            (if length parts.path == 0 then codes "/" else parts.path)
            parts.query

  check_addresses-All :
      (as' : List Text) → check_addresses lib as' ≡ ok tt → All IsPublicAddress as'
  unfolding check_addresses IsPublicAddress
  check_addresses-All [] h = tt
  check_addresses-All (a ∷ as') h =
      let (address, found, more) = >>=-eq-ok (need (lib.ip_address a) bad_address) _ h in
      let public =
        raise_if-eq-ok _ _
          (>>-eq-ok_first (raise_if (not (is_public address)) not_public) _ more) in
      (
        (address, need-eq-ok (lib.ip_address a) _ found, ground (arith)),
        check_addresses-All as' (>>-eq-ok (raise_if (not (is_public address)) not_public) _ more),
      )

  is_none-none : {A : Type 0} (o : Option A) → is_none o ≡ true → o ≡ none
  is_none-none none h = refl
  is_none-none (some a) h = cc

  normalize_parts-IsSource :
      (resolve_dns : Bool) (parsed : SplitUrl) {url : Text}
      → normalize_parts lib resolve_dns parsed ≡ ok url
      → IsSource resolve_dns url
  unfolding normalize_parts
  normalize_parts-IsSource resolve_dns parsed h =
      let scheme_wrong = raise_if (not (text_in (lower parsed.scheme) schemes)) bad_scheme in
      let credentials_wrong =
        raise_if (not (is_none parsed.username) || not (is_none parsed.password)) credentials in
      let fragment_wrong = raise_if (not (length parsed.fragment == 0)) fragment in
      let h1 = >>-eq-ok scheme_wrong _ h in
      let (host, found_host, h2) = >>=-eq-ok (need parsed.hostname no_hostname) _ h1 in
      let h3 = >>-eq-ok credentials_wrong _ h2 in
      let h4 = >>-eq-ok fragment_wrong _ h3 in
      let (port, found_port, h5) = >>=-eq-ok (need parsed.port bad_port) _ h4 in
      let (addresses, found, h6) =
        >>=-eq-ok (addresses_of lib resolve_dns (lower host) port) _ h5 in
      let no_credentials = raise_if-eq-ok _ _ (>>-eq-ok_first credentials_wrong _ h2) in
      record {
        parts = parsed;
        host = host;
        port = port;
        addresses = addresses;
        has_scheme = ground (arith, raise_if-eq-ok _ _ (>>-eq-ok_first scheme_wrong _ h));
        has_host = need-eq-ok _ _ found_host;
        has_port = need-eq-ok _ _ found_port;
        no_username = is_none-none _ (ground arith);
        no_password = is_none-none _ (ground arith);
        no_fragment = ground (arith, raise_if-eq-ok _ _ (>>-eq-ok_first fragment_wrong _ h3));
        has_addresses = found;
        all_public =
            check_addresses-All addresses (>>-eq-ok_first (check_addresses lib addresses) _ h6);
        same = sym (ok-injective (>>-eq-ok (check_addresses lib addresses) _ h6));
      }

  pub normalize_source_url-IsSource :
      (resolve_dns : Bool) (v : Value) {url : Text}
      → normalize_source_url lib resolve_dns v ≡ ok url
      → IsSource resolve_dns url
  unfolding normalize_source_url
  normalize_source_url-IsSource resolve_dns (text []) h = cc
  normalize_source_url-IsSource resolve_dns (text (c ∷ cs)) h =
      let (parsed, found, more) = >>=-eq-ok (need (lib.urlsplit (c ∷ cs)) bad_url) _ h in
      normalize_parts-IsSource resolve_dns parsed more
  normalize_source_url-IsSource resolve_dns v h = ground arith
