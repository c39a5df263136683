-- ===== src/Publisher/Probe/Tests.antt =====
-- A probe of source_publisher/probe.py that is redirected once: every name resolves to one public
-- address, and the second response has three MiB.
use steam_download_pumper.Common.{ℕ, ◌≡◌, refl, true, false, none, some, [], ◌∷◌, if◌then◌else◌}
use steam_download_pumper.Common.Text.{codes, text_eq, text_in}
use steam_download_pumper.Common.Result.{ok}
use steam_download_pumper.Fleet.Strings.{is_space}
use steam_download_pumper.Remote.Document.{is_public, Library}
use steam_download_pumper.Publisher.Candidates.{has_space, check_parts, validate_source_url}
use steam_download_pumper.Publisher.Probe.{
  Connection, Network, port_or_default, is_redirect, checked_addresses, first_connection,
  validated_connection, finish, follow, answered, probe_round, probe_rounds, probe_once,
}
use steam_download_pumper.Publisher.Probe.Safe.{IsProbed, probe_once-IsProbed}

abbrev lib : Library
lib = record {
  urlsplit = λ t. some (record {
    scheme = codes "http";
    hostname = some t;
    username = none;
    password = none;
    port = some none;
    path = [];
    query = [];
    fragment = [];
  });
  urlunsplit = λ scheme netloc path query. netloc;
  netloc = λ host port. host;
  ip_address = λ t. some (record {
    is_version_4 = true;
    is_global = true;
    is_multicast = false;
    is_loopback = false;
    is_private = false;
    is_link_local = false;
    is_reserved = false;
    is_unspecified = false;
  });
  resolver = λ host port. none;
  fromisoformat = λ t. none;
}

abbrev net : Network
net = record {
  resolver = λ host port. some (host ∷ []);
  normalized = λ address. address;
  urljoin = λ base location. location;
  target_of = λ parsed. codes "/";
  respond = λ made. some (
      if text_eq made.connect_ip (codes "a")
      then record { status = 302; location = codes "b"; body_length = 0 }
      else record { status = 206; location = []; body_length = 3145728 });
  is_over = λ round. false;
}

abbrev connection_to : ℕ → Connection
connection_to name = record {
  scheme = codes "http";
  connect_ip = name ∷ [];
  server_hostname = name ∷ [];
  port = 80;
  target = codes "/";
}

redirected_once :
    probe_once lib net (codes "a") ≡ (connection_to 97 ∷ connection_to 98 ∷ [], ok 3145728)
unfolding probe_rounds probe_round answered follow finish validated_connection first_connection
    checked_addresses is_redirect port_or_default validate_source_url check_parts has_space is_space
    is_public text_eq text_in
redirected_once = refl

probe_once-IsProbed_example : IsProbed lib net 3 (probe_once lib net (codes "a"))
probe_once-IsProbed_example = probe_once-IsProbed lib net (codes "a")
