-- ===== src/Remote/Document.antt =====
-- What `json.loads` makes of a manifest payload, as far as steam_pumper/remote_sources.py
-- distinguishes it, and the parts of the Python library that the module calls.
use steam_download_pumper.Common.{ℕ, Bool, ◌&&◌, not, Option, List}
use steam_download_pumper.Common.Text.{Text}
use steam_download_pumper.Fleet.Floats.{Ratio}

-- A JSON value: a text, an integer from 0 on, a float that is finite and not negative, a Boolean,
-- or anything else, which the source accepts nowhere.
pub data Value : Type 0 where
  text : Text → Value
  whole : ℕ → Value
  real : Ratio → Value
  truth : Bool → Value
  other : Value

-- An element of `sources`: an object with the three fields, or anything else.
pub data RawEntry : Type 0 where
  entry : (url checked_at probe_mbps : Value) → RawEntry
  bad_entry : RawEntry

-- The payload: `sources` is `none` where it is no array; no object with the five fields at all, no
-- JSON, or a field that stands twice; on a text that is nested too deep `json.loads` raises
-- `RecursionError`.
pub data Document : Type 0 where
  document :
      (schema revision generated_at expires_at : Value) (sources : Option (List RawEntry))
      → Document
  malformed : Document
  too_nested : Document

-- What `urlsplit` gives; `port` is `none` where reading it raises, and an empty host is no host.
pub record SplitUrl : Type 0 where
  pub scheme : Text
  pub hostname : Option Text
  pub username : Option Text
  pub password : Option Text
  pub port : Option (Option ℕ)
  pub path : Text
  pub query : Text
  pub fragment : Text

-- What the source asks of an `ipaddress.ip_address`.
pub record Address : Type 0 where
  pub is_version_4 : Bool
  pub is_global : Bool
  pub is_multicast : Bool
  pub is_loopback : Bool
  pub is_private : Bool
  pub is_link_local : Bool
  pub is_reserved : Bool
  pub is_unspecified : Bool

unfoldable pub is_public : Address → Bool
is_public a =
    a.is_version_4
    && a.is_global
    && not a.is_multicast
    && not a.is_loopback
    && not a.is_private
    && not a.is_link_local
    && not a.is_reserved
    && not a.is_unspecified

-- The library: `none` where a call raises. `netloc` stands for the host with its port as a text,
-- and `resolver` for the addresses that `getaddrinfo` finds.
pub record Library : Type 0 where
  pub urlsplit : Text → Option SplitUrl
  pub urlunsplit : (scheme netloc path query : Text) → Text
  pub netloc : Text → ℕ → Text
  pub ip_address : Text → Option Address
  pub resolver : Text → Option ℕ → Option (List Text)
  pub fromisoformat : Text → Option ℕ
