-- ===== src/Remote/Payload/Later.antt =====
-- `parse_manifest_payload` of steam_pumper/remote_sources.py at a later instant.
use steam_download_pumper.Common.{ℕ, ◌≤◌, ◌≡◌, Bool, true, not, arith}
use steam_download_pumper.Common.Result.{ok, raise_if, >>=-eq-ok, >>-eq-ok, >>-eq-ok_first}
use steam_download_pumper.Remote.Document.{Document, document, malformed, too_nested, Library}
use steam_download_pumper.Remote.Payload.{
  RemoteSourceManifest, bad_schema, is_schema_1, parse_revision, parse_timestamp, check_times,
  parse_manifest,
}

check_times_later :
    (now later : ℕ) (allow_expired : Bool) (generated_at expires_at : ℕ)
    → now ≤ later
    → check_times now allow_expired generated_at expires_at ≡ ok tt
    → check_times later true generated_at expires_at ≡ ok tt
unfolding check_times
check_times_later now later allow_expired generated_at expires_at le h = ground arith

-- A manifest that was accepted is accepted later where it may be expired.
pub parse_manifest-later :
    (lib : Library) (min_sources now later : ℕ) (resolve_dns allow_expired : Bool)
    (payload : Document) {m : RemoteSourceManifest}
    → now ≤ later
    → parse_manifest lib min_sources now resolve_dns allow_expired payload ≡ ok m
    → parse_manifest lib min_sources later resolve_dns true payload ≡ ok m
unfolding parse_manifest
parse_manifest-later lib min_sources now later resolve_dns allow_expired malformed le h = cc
parse_manifest-later lib min_sources now later resolve_dns allow_expired too_nested le h = cc
parse_manifest-later lib min_sources now later resolve_dns allow_expired
      (document schema revision generated expires sources) le h =
    let is_schema = raise_if (not (is_schema_1 schema)) bad_schema in
    let h1 = >>-eq-ok is_schema _ h in
    let (number, revised, h2) = >>=-eq-ok (parse_revision revision) _ h1 in
    let (generated_at, parsed_at, h3) = >>=-eq-ok (parse_timestamp lib generated) _ h2 in
    let (expires_at, parsed_end, h4) = >>=-eq-ok (parse_timestamp lib expires) _ h3 in
    let times = check_times now allow_expired generated_at expires_at in
    let in_time =
      check_times_later now later allow_expired generated_at expires_at le
        (>>-eq-ok_first times _ h4) in
    rw (>>-eq-ok_first is_schema _ h, revised, parsed_at, parsed_end, in_time) (>>-eq-ok times _ h4)
