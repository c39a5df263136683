-- ===== src/Remote/Url.antt =====
-- `_normalize_source_url` of steam_pumper/remote_sources.py.
pub mod Accepted
use steam_download_pumper.Common.{
  ℕ, Bool, true, false, ◌&&◌, ◌||◌, not, Option, none, some, is_none, List, [], ◌∷◌, ◌==◌, length,
  if◌then◌else◌,
}
use steam_download_pumper.Common.Text.{Text, codes, text_in}
use steam_download_pumper.Common.Result.{Result, ok, err, ◌>>=◌, ◌>>◌, raise_if}
use steam_download_pumper.Fleet.Strings.{lower}
use steam_download_pumper.Remote.Document.{Value, text, SplitUrl, Address, is_public, Library}

-- The reason of the `ValueError`.
pub data UrlError : Type 0 where
  no_text bad_url bad_scheme no_hostname credentials fragment bad_port : UrlError
  unresolved no_address bad_address not_public : UrlError

abbrev pub schemes : List Text
schemes = codes "http" ∷ codes "https" ∷ []

-- The value or the error.
abbrev pub need : {A : Type 0} → Option A → UrlError → Result UrlError A
need none e = err e
need (some a) e = ok a

module _ (lib : Library) where
  -- The loop over the addresses.
  unfoldable pub check_addresses : List Text → Result UrlError (Unit {0})
  check_addresses [] = ok tt
  check_addresses (a ∷ as') = do
    address ← need (lib.ip_address a) bad_address
    raise_if (not (is_public address)) not_public
    check_addresses as'

  -- The set `addresses`: a literal address itself, or else what the name resolves to, if it is to
  -- be resolved.
  unfoldable pub addresses_of : Bool → Text → Option ℕ → Result UrlError (List Text)
  addresses_of resolve_dns hostname port = elim (lib.ip_address hostname) [
    | some address ↦ ok (hostname ∷ [])
    | none ↦
        if resolve_dns
        then (do
          found ← need (lib.resolver hostname port) unresolved
          raise_if (length found == 0) no_address
          ok found)
        else ok []
  ]

  -- `host` of the result.
  abbrev pub host_of : Text → Option ℕ → Text
  host_of hostname port = elim port [ none ↦ hostname | some p ↦ lib.netloc hostname p ]

  -- After `urlsplit`.
  unfoldable pub normalize_parts : Bool → SplitUrl → Result UrlError Text
  normalize_parts resolve_dns parsed = do
    raise_if (not (text_in (lower parsed.scheme) schemes)) bad_scheme
    host ← need parsed.hostname no_hostname
    raise_if (not (is_none parsed.username) || not (is_none parsed.password)) credentials
    raise_if (not (length parsed.fragment == 0)) fragment
    port ← need parsed.port bad_port
    addresses ← addresses_of resolve_dns (lower host) port
    check_addresses addresses
    ok (
        lib.urlunsplit (lower parsed.scheme) (host_of (lower host) port)
          (if length parsed.path == 0 then codes "/" else parsed.path) parsed.query)

  unfoldable pub normalize_source_url : Bool → Value → Result UrlError Text
  normalize_source_url resolve_dns (text []) = err no_text
  normalize_source_url resolve_dns (text (c ∷ cs)) = do
    parsed ← need (lib.urlsplit (c ∷ cs)) bad_url
    normalize_parts resolve_dns parsed
  normalize_source_url resolve_dns v = err no_text
