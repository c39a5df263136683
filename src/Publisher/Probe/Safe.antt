-- ===== src/Publisher/Probe/Safe.antt =====
-- The connections that a probe of source_publisher/probe.py makes.
use steam_download_pumper.Common.{
  ℕ, zero, suc, ◌+◌, ◌*◌, ◌≤◌, ◌≡◌, refl, subst, Bool, true, false, ◌||◌, not, Option, none, some,
  List, [], ◌∷◌, ◌++◌, ltb, ◌==◌, length, if◌then◌else◌, All, All-append, arith,
}
use steam_download_pumper.Common.Text.{Text, text_eq_refl, text_in}
use steam_download_pumper.Common.Result.{
  Result, ok, err, raise_if, >>=-eq-ok, >>-eq-ok, >>-eq-ok_first, raise_if-eq-ok, ok-injective,
}
use steam_download_pumper.Remote.Document.{text, SplitUrl, Address, is_public, Library}
use steam_download_pumper.Publisher.Candidates.{validate_source_url}
use steam_download_pumper.Publisher.Probe.{
  ProbeError, url_unsplit, not_resolved, invalid_address, not_public, deadline_exceeded,
  too_many_redirects, unexpected_status, too_short, Connection, Response, Network, need,
  checked_url, hostname_of, port_or_default, is_redirect, checked_addresses, first_connection,
  validated_connection, Round, over, again, list_of, last_round, finish, follow, answered,
  probe_round, probe_rounds, probe_once,
}

need-eq-ok :
    {A : Type 0} (found : Option A) (e : ProbeError) {a : A} → need found e ≡ ok a → found ≡ some a
need-eq-ok none e h = cc
need-eq-ok (some a) e h = cc

module _ (lib : Library) (net : Network) where
  -- The text of an address, one of those given, that the library reads as a public one.
  pub record IsPublicText (given : List Text) (name : Text) : Type 0 where
    pub written : Text
    pub is_given : text_in written given ≡ true
    pub address : Address
    pub read : lib.ip_address written ≡ some address
    pub is_public_address : is_public address ≡ true
    pub same : name ≡ net.normalized written

  -- The connection goes to a public address that the resolver gave for its host and port.
  pub record IsPinned (made : Connection) : Type 0 where
    pub given : List Text
    pub resolved : net.resolver made.server_hostname made.port ≡ some given
    pub public : IsPublicText given made.connect_ip

  more-All :
      (given found : List Text) (name : Text) (seen : Bool)
      → IsPublicText given name
      → All (IsPublicText given) found
      → All (IsPublicText given) (if seen then found else found ++ (name ∷ []))
  more-All given found name true h k = k
  more-All given found name false h k = All-append (IsPublicText given) found (name ∷ []) k (h, tt)

  checked_addresses-All :
      (given found raw : List Text) {all : List Text}
      → checked_addresses lib net found raw ≡ ok all
      → ((a : Text) → text_in a raw ≡ true → text_in a given ≡ true)
      → All (IsPublicText given) found
      → All (IsPublicText given) all
  unfolding checked_addresses text_in
  checked_addresses-All given found [] h inside k =
      subst (All (IsPublicText given)) (ok-injective h) k
  checked_addresses-All given found (a ∷ rest) h inside k =
      let (address, read, h1) = >>=-eq-ok (need (lib.ip_address a) invalid_address) _ h in
      let refused = raise_if (not (is_public address)) not_public in
      checked_addresses-All given
        (if text_in (net.normalized a) found then found else found ++ (net.normalized a ∷ [])) rest
        (>>-eq-ok refused _ h1) (λ b later. inside b (ground (arith, later)))
        (more-All given found (net.normalized a) (text_in (net.normalized a) found)
          (record {
            written = a;
            is_given = inside a (ground (arith, text_eq_refl a));
            address = address;
            read = need-eq-ok _ _ read;
            is_public_address = ground (arith, raise_if-eq-ok _ _ (>>-eq-ok_first refused _ h1));
            same = refl;
          })
          k)

  first_connection-IsPinned :
      (parsed : SplitUrl) (port : ℕ) (given addresses : List Text) {made : Connection}
      → first_connection lib net parsed port addresses ≡ ok made
      → net.resolver (hostname_of parsed) port ≡ some given
      → All (IsPublicText given) addresses
      → IsPinned made
  unfolding first_connection
  first_connection-IsPinned parsed port given [] h resolved k = cc
  first_connection-IsPinned parsed port given (a ∷ rest) h resolved k =
      subst IsPinned (ok-injective h) (record { given = given; resolved = resolved; public = k.0 })

  validated_connection-IsPinned :
      (url : Text) {made : Connection} → validated_connection lib net url ≡ ok made → IsPinned made
  unfolding validated_connection
  validated_connection-IsPinned url h =
      let (checked, valid, h1) = >>=-eq-ok (checked_url (validate_source_url lib (text url))) _ h in
      let (parsed, split, h2) = >>=-eq-ok (need (lib.urlsplit checked) url_unsplit) _ h1 in
      let (port, found_port, h3) = >>=-eq-ok (need parsed.port url_unsplit) _ h2 in
      let (raw, resolved, h4) =
        >>=-eq-ok
          (need (net.resolver (hostname_of parsed) (port_or_default port parsed.scheme))
            not_resolved)
          _ h3 in
      let (addresses, good, h5) = >>=-eq-ok (checked_addresses lib net [] raw) _ h4 in
      first_connection-IsPinned parsed (port_or_default port parsed.scheme) raw addresses h5
        (need-eq-ok _ _ resolved) (checked_addresses-All raw [] raw good (λ a h. h) tt)

  -- What a round may end in: a connection to a public address, or none without a result, and a
  -- result of two MiB at least.
  IsRound : Round → Type 0
  IsRound (over none result) = (n : ℕ) → result ≡ ok n → (2 * 1024 * 1024) ≤ n
  IsRound (over (some made) result) =
      IsPinned made × ((n : ℕ) → result ≡ ok n → (2 * 1024 * 1024) ≤ n)
  IsRound (again made redirected) = IsPinned made

  finish_lem : (r : Response) (n : ℕ) → finish lib net r ≡ ok n → (2 * 1024 * 1024) ≤ n
  unfolding finish
  finish_lem r n h =
      let status = raise_if (not (r.status == 200 || r.status == 206)) unexpected_status in
      let short = raise_if (ltb r.body_length (2 * 1024 * 1024)) too_short in
      let h1 = >>-eq-ok status _ h in
      let long = raise_if-eq-ok _ _ (>>-eq-ok_first short _ h1) in
      let same = ok-injective (>>-eq-ok short _ h1) in ground (arith, same, long)

  follow-IsRound :
      (is_last : Bool) (url : Text) (made : Connection) (r : Response)
      → IsPinned made
      → IsRound (follow lib net is_last url made r)
  unfolding follow IsRound
  follow-IsRound is_last url made r public =
      by_end (is_last || length r.location == 0)
        (checked_url (validate_source_url lib (text (net.urljoin url r.location))))
    where
      by_end :
          (ended : Bool) (checked : Result ProbeError Text)
          → IsRound (
              if ended
              then over (some made) (err too_many_redirects)
              else elim checked as (λ _. Round) [
                | err e ↦ over (some made) (err e)
                | ok redirected ↦ again made redirected
              ])
      by_end true checked = (public, λ n h. cc)
      by_end false (err e) = (public, λ n h. cc)
      by_end false (ok next) = public

  answered-IsRound :
      (is_last : Bool) (url : Text) (made : Connection) (response : Option Response)
      → IsPinned made
      → IsRound (answered lib net is_last url made response)
  unfolding answered IsRound
  answered-IsRound is_last url made none public = (public, λ n h. cc)
  answered-IsRound is_last url made (some r) public =
      elim (is_redirect r.status)
        as (λ b.
          IsRound (
            if b then follow lib net is_last url made r else over (some made) (finish lib net r))) [
              | true ↦ follow-IsRound is_last url made r public
              | false ↦ (public, finish_lem r)
            ]

  probe_round-IsRound :
      (is_last : Bool) (redirect_count : ℕ) (url : Text)
      → IsRound (probe_round lib net is_last redirect_count url)
  unfolding probe_round IsRound
  probe_round-IsRound is_last redirect_count url =
      by_connection (net.is_over redirect_count) (validated_connection lib net url) refl
    where
      by_connection :
          (stopped : Bool) (r : Result ProbeError Connection)
          → validated_connection lib net url ≡ r
          → IsRound (
              if stopped then over none (err deadline_exceeded) else elim r as (λ _. Round) [
                | err e ↦ over none (err e)
                | ok made ↦ answered lib net is_last url made (net.respond made)
              ])
      by_connection true r h = λ n k. cc
      by_connection false (err e) h = λ n k. cc
      by_connection false (ok made) h =
          answered-IsRound is_last url made (net.respond made) (validated_connection-IsPinned url h)

  -- What the rounds promise, with that many redirects left.
  pub record IsProbed (left : ℕ) (run : List Connection × Result ProbeError ℕ) : Type 0 where
    pub pinned : All (λ made. IsPinned made) run.0
    pub bounded : length run.0 ≤ left + 1
    pub enough : (n : ℕ) → run.1 ≡ ok n → (2 * 1024 * 1024) ≤ n

  over-IsProbed :
      (left : ℕ) (made : Option Connection) (result : Result ProbeError ℕ)
      → IsRound (over made result)
      → IsProbed left (list_of made, result)
  unfolding IsRound
  over-IsProbed left none result h = record { pinned = tt; bounded = omega arith; enough = h }
  over-IsProbed left (some made) result h = record {
    pinned = (h.0, tt);
    bounded = omega arith;
    enough = h.1;
  }

  again-IsProbed :
      (left : ℕ) (made : Connection) (rest : List Connection × Result ProbeError ℕ)
      → IsPinned made
      → IsProbed left rest
      → IsProbed (suc left) (made ∷ rest.0, rest.1)
  again-IsProbed left made rest public h = record {
    pinned = (public, h.pinned);
    bounded = ground (arith, h.bounded);
    enough = h.enough;
  }

  last-IsProbed : (r : Round) → IsRound r → IsProbed zero (last_round r)
  unfolding IsRound
  last-IsProbed (over made result) h = over-IsProbed zero made result h
  last-IsProbed (again made redirected) h = record {
    pinned = (h, tt);
    bounded = omega arith;
    enough = λ n k. cc;
  }

  probe_rounds-IsProbed :
      (left redirect_count : ℕ) (url : Text)
      → IsProbed left (probe_rounds lib net left redirect_count url)
  unfolding probe_rounds IsRound
  probe_rounds-IsProbed zero redirect_count url =
      last-IsProbed (probe_round lib net true redirect_count url)
        (probe_round-IsRound true redirect_count url)
  probe_rounds-IsProbed (suc left) redirect_count url =
      by_round (probe_round lib net false redirect_count url)
        (probe_round-IsRound false redirect_count url)
        (λ redirected. probe_rounds-IsProbed left (suc redirect_count) redirected)
    where
      by_round :
          (r : Round)
          → IsRound r
          → ((redirected : Text)
              → IsProbed left (probe_rounds lib net left (suc redirect_count) redirected))
          → IsProbed (suc left) (elim r as (λ _. List Connection × Result ProbeError ℕ) [
            | over made result ↦ (list_of made, result)
            | again made redirected ↦
                let rest = probe_rounds lib net left (suc redirect_count) redirected in
                (made ∷ rest.0, rest.1)
          ])
      by_round (over made result) h later = over-IsProbed (suc left) made result h
      by_round (again made redirected) h later =
          again-IsProbed left made (probe_rounds lib net left (suc redirect_count) redirected) h
            (later redirected)

  -- A probe ends after at most four connections, each of them to a public address that the resolver
  -- gave for the host and port of that connection, redirects included; where it succeeds it has read two MiB at least.
  pub probe_once-IsProbed : (url : Text) → IsProbed 3 (probe_once lib net url)
  probe_once-IsProbed url = probe_rounds-IsProbed 3 0 url
