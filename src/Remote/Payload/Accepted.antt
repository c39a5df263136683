-- ===== src/Remote/Payload/Accepted.antt =====
-- What a manifest that `parse_manifest_payload` of steam_pumper/remote_sources.py accepts
-- satisfies.
use steam_download_pumper.Common.{
  ℕ, suc, ◌+◌, ◌-◌, ◌*◌, ◌≤◌, ◌<◌, ◌≡◌, refl, Bool, true, false, not, Option, none, some, List, [],
  ◌∷◌, map, ltb, length, All, arith, subst,
}
use steam_download_pumper.Common.Text.{Text, text_in, text_eq_iff, text_eq_refl}
use steam_download_pumper.Common.Dict.Laws.{IsDistinct}
use steam_download_pumper.Common.Result.{
  Result, ok, err, raise_if, >>=-eq-ok, >>-eq-ok, >>-eq-ok_first, raise_if-eq-ok, ok-injective,
}
use steam_download_pumper.Fleet.Clock.{minute, hour}
use steam_download_pumper.Remote.Document.{
  Value, whole, RawEntry, entry, bad_entry, Document, document, malformed, too_nested, Library,
}
use steam_download_pumper.Remote.Url.{UrlError, normalize_source_url}
use steam_download_pumper.Remote.Url.Accepted.{IsSource, normalize_source_url-IsSource}
use steam_download_pumper.Remote.Payload.{
  RemoteSourceEntry, RemoteSourceManifest, urls, bad_schema, duplicate_url, checked_late,
  checked_early, is_timestamp, has_14_digits, is_schema_1, parse_revision, parse_probe, wrap_url,
  parse_timestamp, parse_entry, parse_entries, check_times, check_length, need_array,
  parse_manifest,
}

parse_revision_lem :
    (v : Value) {n : ℕ}
    → parse_revision v ≡ ok n
    → (has_14_digits n ≡ true) × (is_timestamp n ≡ true)
unfolding parse_revision
parse_revision_lem (whole n) h = ground arith
parse_revision_lem v h = ground arith

wrap_url-eq-ok : (r : Result UrlError Text) {url : Text} → wrap_url r ≡ ok url → r ≡ ok url
wrap_url-eq-ok (ok url) h = cc
wrap_url-eq-ok (err e) h = cc

check_times_lem :
    (now : ℕ) (allow_expired : Bool) (generated_at expires_at : ℕ)
    → check_times now allow_expired generated_at expires_at ≡ ok tt
    → (generated_at ≤ now + 10 * minute)
      × (expires_at ≡ generated_at + 72 * hour)
      × (allow_expired ≡ false → now < expires_at)
unfolding check_times
check_times_lem now allow_expired generated_at expires_at h = ground arith

check_length_lem :
    (min_sources n : ℕ) → check_length min_sources n ≡ ok tt → (min_sources ≤ n) × (n ≤ 100)
unfolding check_length
check_length_lem min_sources n h = ground arith

module _ (lib : Library) where
  -- An entry of a manifest of that age.
  pub record IsEntry (resolve_dns : Bool) (generated_at : ℕ) (e : RemoteSourceEntry) : Type 0 where
    pub source : IsSource lib resolve_dns e.url
    pub not_late : e.checked_at ≤ generated_at + 10 * minute
    pub not_early : generated_at ≤ e.checked_at + 24 * hour

  -- A manifest that may be used.
  pub record IsManifest (min_sources now : ℕ) (resolve_dns allow_expired : Bool)
      (m : RemoteSourceManifest) : Type 0 where
    pub digits : has_14_digits m.revision ≡ true
    pub timestamp : is_timestamp m.revision ≡ true
    pub not_future : m.generated_at ≤ now + 10 * minute
    pub lifetime : m.expires_at ≡ m.generated_at + 72 * hour
    pub not_expired : allow_expired ≡ false → now < m.expires_at
    pub enough : min_sources ≤ length m.sources
    pub bounded : length m.sources ≤ 100
    pub distinct : IsDistinct (urls m)
    pub entries : All (IsEntry resolve_dns m.generated_at) m.sources

  parse_entry_lem :
      (resolve_dns : Bool) (generated_at : ℕ) (seen : List Text) (raw : RawEntry)
      {e : RemoteSourceEntry}
      → parse_entry lib resolve_dns generated_at seen raw ≡ ok e
      → IsEntry resolve_dns generated_at e × (text_in e.url seen ≡ false)
  unfolding parse_entry
  parse_entry_lem resolve_dns generated_at seen bad_entry h = cc
  parse_entry_lem resolve_dns generated_at seen (entry raw checked probe) h =
      let (url, normal, h1) = >>=-eq-ok (wrap_url (normalize_source_url lib resolve_dns raw)) _ h in
      let seen_wrong = raise_if (text_in url seen) duplicate_url in
      let h2 = >>-eq-ok seen_wrong _ h1 in
      let (checked_at, parsed, h3) = >>=-eq-ok (parse_timestamp lib checked) _ h2 in
      let late = raise_if (ltb (generated_at + 10 * minute) checked_at) checked_late in
      let early = raise_if (ltb checked_at (generated_at - 24 * hour)) checked_early in
      let h4 = >>-eq-ok late _ h3 in
      let h5 = >>-eq-ok early _ h4 in
      let (mbps, parsed_probe, h6) = >>=-eq-ok (parse_probe probe) _ h5 in
      let is_late = raise_if-eq-ok _ _ (>>-eq-ok_first late _ h3) in
      let is_early = raise_if-eq-ok _ _ (>>-eq-ok_first early _ h4) in
      subst (λ e. IsEntry resolve_dns generated_at e × (text_in e.url seen ≡ false))
        (ok-injective h6)
        (
          record {
            source = normalize_source_url-IsSource lib resolve_dns raw (wrap_url-eq-ok _ normal);
            not_late = ground arith;
            not_early = ground arith;
          },
          raise_if-eq-ok _ _ (>>-eq-ok_first seen_wrong _ h1),
        )

  parse_entries_new :
      (resolve_dns : Bool) (generated_at : ℕ) (a : Text) (seen : List Text) (raw : List RawEntry)
      {es : List RemoteSourceEntry}
      → parse_entries lib resolve_dns generated_at seen raw ≡ ok es
      → text_in a seen ≡ true
      → text_in a (map (λ e. e.url) es) ≡ false
  unfolding parse_entries text_in
  parse_entries_new resolve_dns generated_at a seen [] h was =
      subst (λ es. text_in a (map (λ e. e.url) es) ≡ false) (ok-injective h) refl
  parse_entries_new resolve_dns generated_at a seen (raw ∷ rest) h was =
      let (first, parsed, h1) = >>=-eq-ok (parse_entry lib resolve_dns generated_at seen raw) _ h in
      let (es, parsed_rest, h2) =
        >>=-eq-ok (parse_entries lib resolve_dns generated_at (first.url ∷ seen) rest) _ h1 in
      let new = (parse_entry_lem resolve_dns generated_at seen raw parsed).1 in
      let later =
        parse_entries_new resolve_dns generated_at a (first.url ∷ seen) rest parsed_rest
          (ground arith) in
      subst (λ es. text_in a (map (λ e. e.url) es) ≡ false) (ok-injective h2)
        (ground (arith, text_eq_iff a first.url))

  parse_entries_lem :
      (resolve_dns : Bool) (generated_at : ℕ) (seen : List Text) (raw : List RawEntry)
      {es : List RemoteSourceEntry}
      → parse_entries lib resolve_dns generated_at seen raw ≡ ok es
      → All (IsEntry resolve_dns generated_at) es
        × IsDistinct (map (λ e. e.url) es)
        × (length es ≡ length raw)
  unfolding parse_entries text_in
  parse_entries_lem resolve_dns generated_at seen [] h =
      subst
        (λ es.
          All (IsEntry resolve_dns generated_at) es
          × IsDistinct (map (λ e. e.url) es)
          × (length es ≡ 0))
        (ok-injective h) (tt, tt, refl)
  parse_entries_lem resolve_dns generated_at seen (raw ∷ rest) h =
      let (first, parsed, h1) = >>=-eq-ok (parse_entry lib resolve_dns generated_at seen raw) _ h in
      let (es, parsed_rest, h2) =
        >>=-eq-ok (parse_entries lib resolve_dns generated_at (first.url ∷ seen) rest) _ h1 in
      let is_entry = (parse_entry_lem resolve_dns generated_at seen raw parsed).0 in
      let (all, distinct, same) =
        parse_entries_lem resolve_dns generated_at (first.url ∷ seen) rest parsed_rest in
      let new =
        parse_entries_new resolve_dns generated_at first.url (first.url ∷ seen) rest parsed_rest
          (ground (arith, text_eq_refl first.url)) in
      subst
        (λ es.
          All (IsEntry resolve_dns generated_at) es
          × IsDistinct (map (λ e. e.url) es)
          × (length es ≡ suc (length rest)))
        (ok-injective h2) ((is_entry, all), (new, distinct), ground arith)

  need_array-eq-ok :
      (sources : Option (List RawEntry)) {raw : List RawEntry}
      → need_array sources ≡ ok raw
      → sources ≡ some raw
  need_array-eq-ok none h = cc
  need_array-eq-ok (some raw) h = cc

  -- An accepted manifest has a revision of 14 digits that is a date and a time, lies at most ten
  -- minutes in the future, lives for 72 hours that are not over unless that is allowed, and has
  -- from `min_sources` to 100 sources, no URL twice: each an HTTP URL with a host, without
  -- credentials or a fragment, of which every address that was looked at is public, checked from
  -- 24 hours before the manifest was generated to ten minutes after.
  pub parse_manifest-IsManifest :
      (min_sources now : ℕ) (resolve_dns allow_expired : Bool) (payload : Document)
      {m : RemoteSourceManifest}
      → parse_manifest lib min_sources now resolve_dns allow_expired payload ≡ ok m
      → IsManifest min_sources now resolve_dns allow_expired m
  unfolding parse_manifest
  parse_manifest-IsManifest min_sources now resolve_dns allow_expired malformed h = cc
  parse_manifest-IsManifest min_sources now resolve_dns allow_expired too_nested h = cc
  parse_manifest-IsManifest min_sources now resolve_dns allow_expired
        (document schema revision generated expires sources) h =
      let h1 = >>-eq-ok (raise_if (not (is_schema_1 schema)) bad_schema) _ h in
      let (number, revised, h2) = >>=-eq-ok (parse_revision revision) _ h1 in
      let (generated_at, parsed_at, h3) = >>=-eq-ok (parse_timestamp lib generated) _ h2 in
      let (expires_at, parsed_end, h4) = >>=-eq-ok (parse_timestamp lib expires) _ h3 in
      let times = check_times now allow_expired generated_at expires_at in
      let (not_future, lifetime, fresh) =
        check_times_lem now allow_expired generated_at expires_at (>>-eq-ok_first times _ h4) in
      let (raw, array, h5) = >>=-eq-ok (need_array sources) _ (>>-eq-ok times _ h4) in
      let size = check_length min_sources (length raw) in
      let (enough, bounded) =
        check_length_lem min_sources (length raw) (>>-eq-ok_first size _ h5) in
      let (es, parsed, h6) =
        >>=-eq-ok (parse_entries lib resolve_dns generated_at [] raw) _ (>>-eq-ok size _ h5) in
      let (all, distinct, same) = parse_entries_lem resolve_dns generated_at [] raw parsed in
      let (digits, is_time) = parse_revision_lem revision revised in
      subst (IsManifest min_sources now resolve_dns allow_expired) (ok-injective h6) (record {
        digits = digits;
        timestamp = is_time;
        not_future = not_future;
        lifetime = lifetime;
        not_expired = fresh;
        enough = ground arith;
        bounded = ground arith;
        distinct = distinct;
        entries = all;
      })
