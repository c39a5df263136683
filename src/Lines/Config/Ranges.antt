-- ===== src/Lines/Config/Ranges.antt =====
-- What an accepted configuration satisfies (`validate`, `validate_source_pool`,
-- `validate_unique_ipv4`).
use steam_download_pumper.Common.{
  ℕ, ◌⊎◌, inl, inr, Bool-cases, none, some, is_none, ◌||◌, any_of, ◌+◌, ◌≤◌, ◌≡◌, refl, true, false,
  ◌&&◌, not, Option, List, [], ◌∷◌, leb, ◌==◌, length, map, All, arith, subst, sym, ap, ◌∙◌,
}
use steam_download_pumper.Common.Text.{
  Text, codes, text_eq, text_eq→eq, text_in, text_eq_iff, text_eq_refl,
}
use steam_download_pumper.Common.Dict.Laws.{IsDistinct}
use steam_download_pumper.Common.Result.{
  Result, ok, err, ◌>>◌, raise_if, >>=-eq-ok, >>-eq-ok, >>-eq-ok_first, raise_if-eq-ok,
  ok-injective,
}
use steam_download_pumper.Fleet.Strings.{strip, lower, is_space, is_ipv4}
use steam_download_pumper.Lines.Config.{
  InvalidConfig, bad_url, credentials, no_source, bad_ip, duplicate_ip, bad_line_count,
  wrong_ip_count, UrlParts, CommonConfig, MultiIpConfig, unique_from, cleaned, validate_unique_from,
  has_duplicate, validate_unique_ipv4, check_url, check_urls, check_ranges, validate_source_pool,
  validate_common, validate_multi_ip,
}

unique_from_new :
    (a : Text) (seen vs : List Text)
    → text_in a seen ≡ true
    → text_in a (unique_from seen vs) ≡ false
unfolding unique_from text_in
unique_from_new a seen [] h = refl
unique_from_new a seen (v ∷ vs) h = ground (
  arith,
  text_eq_iff a v,
  unique_from_new a seen vs h,
  unique_from_new a (v ∷ seen) vs (ground arith),
)

text_in_head : (v : Text) (seen : List Text) → text_in v (v ∷ seen) ≡ true
unfolding text_in
text_in_head v seen = ground (arith, text_eq_refl v)

unique_from-IsDistinct : (seen vs : List Text) → IsDistinct (unique_from seen vs)
unfolding unique_from
unique_from-IsDistinct seen [] = tt
unique_from-IsDistinct seen (v ∷ vs) = ground (
  arith,
  unique_from-IsDistinct seen vs,
  unique_from-IsDistinct (v ∷ seen) vs,
  unique_from_new v (v ∷ seen) vs (text_in_head v seen),
)

-- A url that the program may use: no space in it, http or https, with a host and no credentials.
pub record IsUrl (urlparse : Text → Option UrlParts) (url : Text) : Type 0 where
  pub parts : UrlParts
  pub parsed : urlparse url ≡ some parts
  pub no_space : All (λ ch. is_space ch ≡ false) url
  pub scheme : (lower parts.scheme ≡ codes "http") ⊎ (lower parts.scheme ≡ codes "https")
  pub host : Text
  pub hostname : parts.hostname ≡ some host
  pub username : parts.username ≡ none
  pub password : parts.password ≡ none

-- A pool of sources that the program may use.
pub record IsPool (urlparse : Text → Option UrlParts) (pool : List Text) : Type 0 where
  pub some_source : 1 ≤ length pool
  pub distinct : IsDistinct pool
  pub accepted : All (IsUrl urlparse) pool

module _ (urlparse : Text → Option UrlParts) where
  no_space-All : (url : Text) → any_of is_space url ≡ false → All (λ ch. is_space ch ≡ false) url
  no_space-All [] h = tt
  no_space-All (ch ∷ url) h = (ground (arith, h), no_space-All url (ground (arith, h)))

  scheme_lem :
      (scheme : Text)
      → text_in scheme (codes "http" ∷ codes "https" ∷ []) ≡ true
      → (scheme ≡ codes "http") ⊎ (scheme ≡ codes "https")
  unfolding text_in
  scheme_lem scheme h = elim (Bool-cases (text_eq scheme (codes "http"))) [
    | inl same ↦ inl (text_eq→eq _ _ same)
    | inr differs ↦ inr (text_eq→eq _ _ (ground (arith, h, differs)))
  ]

  some_lem : {A : Type 0} (o : Option A) → is_none o ≡ false → (a : A) × (o ≡ some a)
  some_lem none h = cc
  some_lem (some a) h = (a, refl)

  none_lem : {A : Type 0} (o : Option A) → is_none o ≡ true → o ≡ none
  none_lem none h = refl
  none_lem (some a) h = cc

  check_url-IsUrl : (url : Text) → check_url urlparse url ≡ ok tt → IsUrl urlparse url
  unfolding check_url
  check_url-IsUrl url h = by_parts (urlparse url) refl h
    where
      by_parts :
          (found : Option UrlParts)
          → urlparse url ≡ found
          → (elim found as (λ _. Result InvalidConfig (Unit {0})) [
            | none ↦ err bad_url
            | some p ↦
                raise_if
                  (any_of is_space url
                    || (not (text_in (lower p.scheme) (codes "http" ∷ codes "https" ∷ []))
                        || is_none p.hostname))
                  bad_url
                >> raise_if (not (is_none p.username) || not (is_none p.password)) credentials
          ])
            ≡ ok tt
          → IsUrl urlparse url
      by_parts none parsed h = cc
      by_parts (some p) parsed h =
          let form =
            any_of is_space url
            || (not (text_in (lower p.scheme) (codes "http" ∷ codes "https" ∷ []))
                || is_none p.hostname) in
          let good = raise_if-eq-ok _ _ (>>-eq-ok_first (raise_if form bad_url) _ h) in
          let bare = raise_if-eq-ok _ _ (>>-eq-ok (raise_if form bad_url) _ h) in
          let (host, hostname) = some_lem p.hostname (ground (arith, good)) in
          record {
            parts = p;
            parsed = parsed;
            no_space = no_space-All url (ground (arith, good));
            scheme = scheme_lem (lower p.scheme) (ground (arith, good));
            host = host;
            hostname = hostname;
            username = none_lem p.username (ground (arith, bare));
            password = none_lem p.password (ground (arith, bare));
          }

  check_urls-All : (urls : List Text) → check_urls urlparse urls ≡ ok tt → All (IsUrl urlparse) urls
  unfolding check_urls
  check_urls-All [] h = tt
  check_urls-All (url ∷ urls) h = (
    check_url-IsUrl url (>>-eq-ok_first (check_url urlparse url) _ h),
    check_urls-All urls (>>-eq-ok (check_url urlparse url) _ h),
  )

  -- A pool that is accepted is not empty, holds no url twice, and each of its urls is one
  -- that the program may use.
  pub validate_source_pool-IsPool :
      (values : List Text) {pool : List Text}
      → validate_source_pool urlparse values ≡ ok pool
      → IsPool urlparse pool
  unfolding validate_source_pool
  validate_source_pool-IsPool values h =
      let some_left =
        raise_if-eq-ok _ _
          (>>-eq-ok_first (raise_if (length (cleaned values) == 0) no_source) _ h) in
      let more = >>-eq-ok (raise_if (length (cleaned values) == 0) no_source) _ h in
      let checked = >>-eq-ok_first (check_urls urlparse (cleaned values)) _ more in
      subst (IsPool urlparse)
        (ok-injective (>>-eq-ok (check_urls urlparse (cleaned values)) _ more))
        (record {
          some_source = ground arith;
          distinct = unique_from-IsDistinct [] _;
          accepted = check_urls-All (cleaned values) checked;
        })

has_duplicate-IsDistinct : (vs : List Text) → has_duplicate vs ≡ false → IsDistinct vs
unfolding has_duplicate
has_duplicate-IsDistinct [] h = tt
has_duplicate-IsDistinct (v ∷ vs) h = ground (arith, has_duplicate-IsDistinct vs)

validate_unique_from-All :
    (index : ℕ) (vs : List Text) {out : List Text}
    → validate_unique_from index vs ≡ ok out
    → (out ≡ vs) × All (λ v. is_ipv4 v ≡ true) vs
unfolding validate_unique_from
validate_unique_from-All index [] h = (sym (ok-injective h), tt)
validate_unique_from-All index (v ∷ vs) h =
    let valid = >>-eq-ok_first (raise_if (not (is_ipv4 v)) (bad_ip index)) _ h in
    let more = >>-eq-ok (raise_if (not (is_ipv4 v)) (bad_ip index)) _ h in
    let (rest, parsed, last) = >>=-eq-ok (validate_unique_from (index + 1) vs) _ more in
    let (same, all) = validate_unique_from-All (index + 1) vs parsed in
    (
      sym (ok-injective last) ∙ ap (λ xs. v ∷ xs) same,
      (ground (arith, raise_if-eq-ok (not (is_ipv4 v)) (bad_ip index) valid), all),
    )

-- The numbers that all configurations share are within their ranges.
pub record IsCommon (c : CommonConfig) : Type 0 where
  pub target : 1 ≤ c.target_mbps
  pub some_connection : 1 ≤ c.connections_per_line
  pub ordered : c.connections_per_line ≤ c.max_connections_per_line
  pub bounded : c.max_connections_per_line ≤ 12
  pub session : 1 ≤ c.worker_min_session_seconds
  pub polled : 1 ≤ c.schedule_poll_seconds

-- Addresses for an accepted number of lines.
pub record IsMultiIp (urlparse : Text → Option UrlParts) (c : MultiIpConfig) : Type 0 where
  pub pool : IsPool urlparse c.common.source_pool
  pub common : IsCommon c.common
  pub lines : (2 ≤ c.line_count) × (c.line_count ≤ 10)
  pub one_each : length c.lan_ips ≡ c.line_count
  pub valid : All (λ v. is_ipv4 v ≡ true) c.lan_ips
  pub distinct : IsDistinct c.lan_ips

validate_unique_ipv4_lem :
    (values : List Text) {ips : List Text}
    → validate_unique_ipv4 values ≡ ok ips
    → All (λ v. is_ipv4 v ≡ true) ips × IsDistinct ips
unfolding validate_unique_ipv4
validate_unique_ipv4_lem values h =
    let (found, parsed, more) = >>=-eq-ok (validate_unique_from 1 (map strip values)) _ h in
    let (same, valid) = validate_unique_from-All 1 (map strip values) parsed in
    let unique =
      raise_if-eq-ok _ _ (>>-eq-ok_first (raise_if (has_duplicate found) duplicate_ip) _ more) in
    let last = ok-injective (>>-eq-ok (raise_if (has_duplicate found) duplicate_ip) _ more) in
    (
      subst (All (λ v. is_ipv4 v ≡ true)) (sym same ∙ last) valid,
      subst IsDistinct last (has_duplicate-IsDistinct found unique),
    )

check_ranges-IsCommon : (c : CommonConfig) → check_ranges c ≡ ok tt → IsCommon c
unfolding check_ranges
check_ranges-IsCommon c h = ground arith

validate_common_lem :
    (urlparse : Text → Option UrlParts) (c : CommonConfig) {out : CommonConfig}
    → validate_common urlparse c ≡ ok out
    → IsPool urlparse out.source_pool × IsCommon out
unfolding validate_common
validate_common_lem urlparse c h =
    let good = check_ranges-IsCommon c (>>-eq-ok_first (check_ranges c) _ h) in
    let (pool, valid, last) =
      >>=-eq-ok (validate_source_pool urlparse c.source_pool) _ (>>-eq-ok (check_ranges c) _ h) in
    subst (λ o. IsPool urlparse o.source_pool × IsCommon o) (ok-injective last)
      (
        validate_source_pool-IsPool urlparse c.source_pool valid,
        record {
          target = good.target;
          some_connection = good.some_connection;
          ordered = good.ordered;
          bounded = good.bounded;
          session = good.session;
          polled = good.polled;
        },
      )

-- A configuration for several addresses that is accepted has 2 to 10 lines with one valid address
-- for each, no two of them equal; a rate, a session time and a poll time of at least 1, connections
-- from 1 to a maximum of at most 12; and a pool, not empty, of distinct urls, each of them without
-- spaces, http or https, and with a host and no credentials.
pub validate_multi_ip-IsMultiIp :
    (urlparse : Text → Option UrlParts) (c : MultiIpConfig) {out : MultiIpConfig}
    → validate_multi_ip urlparse c ≡ ok out
    → IsMultiIp urlparse out
unfolding validate_multi_ip
validate_multi_ip-IsMultiIp urlparse c h =
    let (common, valid, more) = >>=-eq-ok (validate_common urlparse c.common) _ h in
    let counted =
      >>-eq-ok_first (raise_if (not (leb 2 c.line_count && leb c.line_count 10)) bad_line_count) _
        more in
    let rest =
      >>-eq-ok (raise_if (not (leb 2 c.line_count && leb c.line_count 10)) bad_line_count) _ more in
    let (ips, parsed, last) = >>=-eq-ok (validate_unique_ipv4 c.lan_ips) _ rest in
    let matched =
      >>-eq-ok_first (raise_if (not (length ips == c.line_count)) wrong_ip_count) _ last in
    let (pool, in_range) = validate_common_lem urlparse c.common valid in
    let (each, distinct) = validate_unique_ipv4_lem c.lan_ips parsed in
    subst (IsMultiIp urlparse)
      (ok-injective (>>-eq-ok (raise_if (not (length ips == c.line_count)) wrong_ip_count) _ last))
      (record {
        pool = pool;
        common = in_range;
        lines = ground (
          arith,
          raise_if-eq-ok (not (leb 2 c.line_count && leb c.line_count 10)) bad_line_count counted,
        );
        one_each =
            ground
              (arith, raise_if-eq-ok (not (length ips == c.line_count)) wrong_ip_count matched);
        valid = each;
        distinct = distinct;
      })
