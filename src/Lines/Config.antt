-- ===== src/Lines/Config.antt =====
-- `CommonConfig`, `MultiIPConfig`, `validate_source_pool` and `validate_unique_ipv4` of
-- steam_pumper/config.py. The types of the values and the two times, whose texts are parsed
-- elsewhere, are taken as right, and a number below 0 is not a value here; `urlparse` is a
-- parameter.
pub mod Ranges
use steam_download_pumper.Common.{
  ℕ, ◌+◌, Bool, true, false, ◌&&◌, ◌||◌, not, Option, none, some, is_none, List, [], ◌∷◌, leb, ltb,
  ◌==◌, length, any_of, map, retain, if◌then◌else◌,
}
use steam_download_pumper.Common.Text.{Text, codes, text_eq, text_in}
use steam_download_pumper.Common.Result.{Result, ok, err, ◌>>=◌, ◌>>◌, raise_if}
use steam_download_pumper.Fleet.Strings.{strip, lower, is_space, is_ipv4}

-- What the source reads of `urlparse`; an empty host name is `none`.
pub record UrlParts : Type 0 where
  pub scheme : Text
  pub hostname : Option Text
  pub username : Option Text
  pub password : Option Text

pub record CommonConfig : Type 0 where
  pub target_mbps : ℕ
  pub connections_per_line : ℕ
  pub max_connections_per_line : ℕ
  pub worker_min_session_seconds : ℕ
  pub schedule_poll_seconds : ℕ
  pub source_pool : List Text

pub record MultiIpConfig : Type 0 where
  pub common : CommonConfig
  pub line_count : ℕ
  pub lan_ips : List Text

-- The reason of the `ValueError`.
pub data InvalidConfig : Type 0 where
  bad_target bad_connections too_many_connections bad_maximum maximum_too_large : InvalidConfig
  maximum_below_connections bad_session bad_poll no_source bad_url credentials : InvalidConfig
  bad_line_count duplicate_ip wrong_ip_count : InvalidConfig
  bad_ip : ℕ → InvalidConfig

-- `list(dict.fromkeys(values))`, after the values that were seen.
unfoldable pub unique_from : List Text → List Text → List Text
unique_from seen [] = []
unique_from seen (v ∷ vs) =
    if text_in v seen then unique_from seen vs else v ∷ unique_from (v ∷ seen) vs

abbrev pub cleaned : List Text → List Text
cleaned values = unique_from [] (retain (λ v. not (length v == 0)) (map strip values))

unfoldable pub validate_unique_from : ℕ → List Text → Result InvalidConfig (List Text)
validate_unique_from index [] = ok []
validate_unique_from index (v ∷ vs) = do
  raise_if (not (is_ipv4 v)) (bad_ip index)
  rest ← validate_unique_from (index + 1) vs
  ok (v ∷ rest)

-- `len(set(values)) != len(values)`
unfoldable pub has_duplicate : List Text → Bool
has_duplicate [] = false
has_duplicate (v ∷ vs) = text_in v vs || has_duplicate vs

unfoldable pub validate_unique_ipv4 : List Text → Result InvalidConfig (List Text)
validate_unique_ipv4 values = do
  validated ← validate_unique_from 1 (map strip values)
  raise_if (has_duplicate validated) duplicate_ip
  ok validated

-- The checks of `validate_common` on the fields that stand here. The three fields that need only be
-- 0 at least, and the two times, are not among them.
unfoldable pub check_ranges : CommonConfig → Result InvalidConfig (Unit {0})
check_ranges c = do
  raise_if (ltb c.target_mbps 1) bad_target
  raise_if (ltb c.connections_per_line 1) bad_connections
  raise_if (ltb 12 c.connections_per_line) too_many_connections
  raise_if (ltb c.max_connections_per_line 1) bad_maximum
  raise_if (ltb 12 c.max_connections_per_line) maximum_too_large
  raise_if (ltb c.max_connections_per_line c.connections_per_line) maximum_below_connections
  raise_if (ltb c.worker_min_session_seconds 1) bad_session
  raise_if (ltb c.schedule_poll_seconds 1) bad_poll

module _ (urlparse : Text → Option UrlParts) where
  -- The checks of one url.
  unfoldable pub check_url : Text → Result InvalidConfig (Unit {0})
  check_url url = elim (urlparse url) [
    | none ↦ err bad_url
    | some p ↦
        raise_if
          (any_of is_space url
            || (not (text_in (lower p.scheme) (codes "http" ∷ codes "https" ∷ []))
                || is_none p.hostname))
          bad_url
        >> raise_if (not (is_none p.username) || not (is_none p.password)) credentials
  ]

  unfoldable pub check_urls : List Text → Result InvalidConfig (Unit {0})
  check_urls [] = ok tt
  check_urls (url ∷ urls) = check_url url >> check_urls urls

  unfoldable pub validate_source_pool : List Text → Result InvalidConfig (List Text)
  validate_source_pool values = do
    raise_if (length (cleaned values) == 0) no_source
    check_urls (cleaned values)
    ok (cleaned values)

  unfoldable pub validate_common : CommonConfig → Result InvalidConfig CommonConfig
  validate_common c = do
    check_ranges c
    pool ← validate_source_pool c.source_pool
    ok (record c { source_pool = pool })

  unfoldable pub validate_multi_ip : MultiIpConfig → Result InvalidConfig MultiIpConfig
  validate_multi_ip c = do
    common ← validate_common c.common
    raise_if (not (leb 2 c.line_count && leb c.line_count 10)) bad_line_count
    ips ← validate_unique_ipv4 c.lan_ips
    raise_if (not (length ips == c.line_count)) wrong_ip_count
    ok (record { common = common; line_count = c.line_count; lan_ips = ips })
