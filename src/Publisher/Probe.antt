-- ===== src/Publisher/Probe.antt =====
-- `_validated_addresses`, `pinned_request` and `_probe_once` of source_publisher/probe.py. The
-- resolver, the connections and the clock are parameters.
pub mod Safe
mod Tests
use steam_download_pumper.Common.{
  ℕ, zero, suc, ◌*◌, Bool, true, false, ◌&&◌, ◌||◌, not, Option, none, some, List, [], ◌∷◌, ◌++◌,
  ltb, ◌==◌, length, if◌then◌else◌,
}
use steam_download_pumper.Common.Text.{Text, codes, text_eq, text_in}
use steam_download_pumper.Common.Result.{Result, ok, err, ◌>>=◌, ◌>>◌, raise_if}
use steam_download_pumper.Remote.Document.{text, SplitUrl, is_public, Library}
use steam_download_pumper.Publisher.Candidates.{CandidateError, validate_source_url}

pub data ProbeError : Type 0 where
  url_refused : CandidateError → ProbeError
  url_unsplit not_resolved invalid_address not_public no_address : ProbeError
  deadline_exceeded connection_failed too_many_redirects unexpected_status too_short : ProbeError

-- What `connection_factory` and the request get: the address that is connected to is pinned.
pub record Connection : Type 0 where
  pub scheme : Text
  pub connect_ip : Text
  pub server_hostname : Text
  pub port : ℕ
  pub target : Text

-- A response: `location` is empty where there is no such header, and `body_length` counts what is
-- read of the body, at most 8 MiB.
pub record Response : Type 0 where
  pub status : ℕ
  pub location : Text
  pub body_length : ℕ

-- The world outside: `normalized` is `str` of the address of a text, `respond` is `none` where the
-- connection, the request or its deadline raises, `is_over` says that the round may not begin.
pub record Network : Type 0 where
  pub resolver : Text → ℕ → Option (List Text)
  pub normalized : Text → Text
  pub urljoin : Text → Text → Text
  pub target_of : SplitUrl → Text
  pub respond : Connection → Option Response
  pub is_over : ℕ → Bool

abbrev pub need : {A : Type 0} → Option A → ProbeError → Result ProbeError A
need none e = err e
need (some a) e = ok a

abbrev pub checked_url : Result CandidateError Text → Result ProbeError Text
checked_url (ok url) = ok url
checked_url (err e) = err (url_refused e)

-- `parsed.hostname or ""`
abbrev pub hostname_of : SplitUrl → Text
hostname_of parsed = elim parsed.hostname [ none ↦ [] | some host ↦ host ]

-- `parsed.port or (443 if parsed.scheme == "https" else 80)`
unfoldable pub port_or_default : Option ℕ → Text → ℕ
port_or_default (some (suc port)) scheme = suc port
port_or_default port scheme = if text_eq scheme (codes "https") then 443 else 80

unfoldable pub is_redirect : ℕ → Bool
is_redirect status =
    status == 301 || status == 302 || status == 303 || status == 307 || status == 308

-- How a round ends: with a result, after a connection or none, or with a URL to go on with.
pub data Round : Type 0 where
  over : Option Connection → Result ProbeError ℕ → Round
  again : Connection → Text → Round

abbrev pub list_of : Option Connection → List Connection
list_of none = []
list_of (some made) = made ∷ []

-- After the last round the loop is left.
abbrev pub last_round : Round → List Connection × Result ProbeError ℕ
last_round (over made result) = (list_of made, result)
last_round (again made redirected) = (made ∷ [], err too_many_redirects)

module _ (lib : Library) (net : Network) where
  -- The loop over the addresses of the resolver.
  unfoldable pub checked_addresses : List Text → List Text → Result ProbeError (List Text)
  checked_addresses found [] = ok found
  checked_addresses found (raw ∷ rest) = do
    address ← need (lib.ip_address raw) invalid_address
    raise_if (not (is_public address)) not_public
    checked_addresses
        (if text_in (net.normalized raw) found then found else found ++ (net.normalized raw ∷ []))
        rest

  -- The connection of `pinned_request`: to the first of the addresses.
  unfoldable pub first_connection : SplitUrl → ℕ → List Text → Result ProbeError Connection
  first_connection parsed port [] = err no_address
  first_connection parsed port (address ∷ rest) = ok (record {
    scheme = parsed.scheme;
    connect_ip = address;
    server_hostname = hostname_of parsed;
    port = port;
    target = net.target_of parsed;
  })

  -- `_validated_addresses` with the connection that is made of it.
  unfoldable pub validated_connection : Text → Result ProbeError Connection
  validated_connection url = do
    checked ← checked_url (validate_source_url lib (text url))
    parsed ← need (lib.urlsplit checked) url_unsplit
    port ← need parsed.port url_unsplit
    raw ← need (net.resolver (hostname_of parsed) (port_or_default port parsed.scheme)) not_resolved
    addresses ← checked_addresses [] raw
    first_connection parsed (port_or_default port parsed.scheme) addresses

  unfoldable pub finish : Response → Result ProbeError ℕ
  finish r = do
    raise_if (not (r.status == 200 || r.status == 206)) unexpected_status
    raise_if (ltb r.body_length (2 * 1024 * 1024)) too_short
    ok r.body_length

  -- What follows a redirect: another round at that URL.
  unfoldable pub follow : Bool → Text → Connection → Response → Round
  follow is_last url made r =
      if is_last || length r.location == 0
      then over (some made) (err too_many_redirects)
      else elim (checked_url (validate_source_url lib (text (net.urljoin url r.location)))) [
        | err e ↦ over (some made) (err e)
        | ok redirected ↦ again made redirected
      ]

  unfoldable pub answered : Bool → Text → Connection → Option Response → Round
  answered is_last url made none = over (some made) (err connection_failed)
  answered is_last url made (some r) =
      if is_redirect r.status then follow is_last url made r else over (some made) (finish r)

  -- One round of the loop.
  unfoldable pub probe_round : Bool → ℕ → Text → Round
  probe_round is_last redirect_count url =
      if net.is_over redirect_count
      then over none (err deadline_exceeded)
      else elim (validated_connection url) [
        | err e ↦ over none (err e)
        | ok made ↦ answered is_last url made (net.respond made)
      ]

  -- The loop with that many redirects left: the connections that were made, and the bytes read.
  unfoldable pub probe_rounds : ℕ → ℕ → Text → List Connection × Result ProbeError ℕ
  probe_rounds zero redirect_count url = last_round (probe_round true redirect_count url)
  probe_rounds (suc left) redirect_count url = elim (probe_round false redirect_count url) [
    | over made result ↦ (list_of made, result)
    | again made redirected ↦
        let rest = probe_rounds left (suc redirect_count) redirected in (made ∷ rest.0, rest.1)
  ]

  -- `MAX_REDIRECTS` is 3.
  abbrev pub probe_once : Text → List Connection × Result ProbeError ℕ
  probe_once url = probe_rounds 3 0 url
