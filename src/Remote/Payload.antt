-- ===== src/Remote/Payload.antt =====
-- `parse_manifest_payload` and `_parse_timestamp` of steam_pumper/remote_sources.py, with
-- `RemoteSourceEntry` and `RemoteSourceManifest`. Instants are microseconds.
pub mod Accepted
pub mod Later
use steam_download_pumper.Common.{
  ℕ, ◌+◌, ◌-◌, ◌*◌, ◌/◌, ◌%◌, ◌^◌, Bool, true, false, ◌&&◌, ◌||◌, not, Option, none, some, List, [],
  ◌∷◌, map, leb, ltb, ◌==◌, length, if◌then◌else◌,
}
use steam_download_pumper.Common.Text.{Text, text_in}
use steam_download_pumper.Common.Result.{Result, ok, err, ◌>>=◌, ◌>>◌, raise_if}
use steam_download_pumper.Fleet.Clock.{minute, hour}
use steam_download_pumper.Fleet.Floats.{Ratio}
use steam_download_pumper.Remote.Document.{
  Value, text, whole, real, truth, other, RawEntry, entry, bad_entry, Document, document, malformed,
  too_nested, Library,
}
use steam_download_pumper.Remote.Url.{UrlError, normalize_source_url}

pub record RemoteSourceEntry : Type 0 where
  pub url : Text
  pub checked_at : ℕ
  pub probe_mbps : Ratio

pub record RemoteSourceManifest : Type 0 where
  pub revision : ℕ
  pub generated_at : ℕ
  pub expires_at : ℕ
  pub sources : List RemoteSourceEntry

-- The property `urls`.
abbrev pub urls : RemoteSourceManifest → List Text
urls m = map (λ e. e.url) m.sources

-- The reason of the `ValueError`; `overflow` is the `OverflowError` of `float`,
-- and `recursion` the `RecursionError` of `json.loads`.
pub data PayloadError : Type 0 where
  bad_fields bad_schema bad_revision bad_timestamp from_future bad_expiry expired : PayloadError
  no_array too_few too_many bad_source duplicate_url checked_late checked_early : PayloadError
  bad_probe overflow recursion : PayloadError
  source_url : UrlError → PayloadError

abbrev is_leap : ℕ → Bool
is_leap year = year % 4 == 0 && (not (year % 100 == 0) || year % 400 == 0)

unfoldable pub days_in_month : ℕ → ℕ → ℕ
days_in_month year month =
    if month == 2
    then (if is_leap year then 29 else 28)
    else if month == 4 || month == 6 || month == 9 || month == 11
    then 30
    else 31

-- `strptime(str(revision), "%Y%m%d%H%M%S")` on 14 digits: whether they are a date and a time.
unfoldable pub is_timestamp : ℕ → Bool
is_timestamp revision =
    let year = revision / 10000000000 in
    let month = revision / 100000000 % 100 in
    let day = revision / 1000000 % 100 in
    leb 1 month
    && leb month 12
    && leb 1 day
    && leb day (days_in_month year month)
    && leb (revision / 10000 % 100) 23
    && leb (revision / 100 % 100) 59
    && leb (revision % 100) 59

abbrev pub has_14_digits : ℕ → Bool
has_14_digits n = leb 10000000000000 n && ltb n 100000000000000

-- The schema check: the float 1.0 equals 1 as well.
unfoldable pub is_schema_1 : Value → Bool
is_schema_1 (whole n) = n == 1
is_schema_1 (real r) = r.numerator == r.denominator
is_schema_1 v = false

unfoldable pub parse_revision : Value → Result PayloadError ℕ
parse_revision (whole n) = do
  raise_if (not (has_14_digits n)) bad_revision
  raise_if (not (is_timestamp n)) bad_revision
  ok n
parse_revision v = err bad_revision

-- From here on an integer is no float.
abbrev pub float_limit : ℕ
float_limit = 2 ^ 1024 - 2 ^ 970

-- A Boolean is refused, as `float` takes it but `isinstance` excludes it.
unfoldable pub parse_probe : Value → Result PayloadError Ratio
parse_probe (whole n) = do
  raise_if (leb float_limit n) overflow
  ok (record { numerator = n; denominator = 1 })
parse_probe (real r) = ok r
parse_probe v = err bad_probe

abbrev pub wrap_url : Result UrlError Text → Result PayloadError Text
wrap_url (ok url) = ok url
wrap_url (err e) = err (source_url e)

-- The checks of the instants.
unfoldable pub check_times : ℕ → Bool → ℕ → ℕ → Result PayloadError (Unit {0})
check_times now allow_expired generated_at expires_at = do
  raise_if (ltb (now + 10 * minute) generated_at) from_future
  raise_if (not (expires_at == generated_at + 72 * hour)) bad_expiry
  raise_if (not allow_expired && leb expires_at now) expired

unfoldable pub check_length : ℕ → ℕ → Result PayloadError (Unit {0})
check_length min_sources n = do raise_if (ltb n min_sources) too_few; raise_if (ltb 100 n) too_many

abbrev pub need_array : Option (List RawEntry) → Result PayloadError (List RawEntry)
need_array none = err no_array
need_array (some raw) = ok raw

module _ (lib : Library) where
  -- `_parse_timestamp`: `fromisoformat` is `none` too where the text has no zone.
  unfoldable pub parse_timestamp : Value → Result PayloadError ℕ
  parse_timestamp (text []) = err bad_timestamp
  parse_timestamp (text (c ∷ cs)) = elim (lib.fromisoformat (c ∷ cs)) [
    | none ↦ err bad_timestamp
    | some t ↦ ok t
  ]
  parse_timestamp v = err bad_timestamp

  -- One round of the loop over the sources.
  unfoldable pub parse_entry :
      Bool → ℕ → List Text → RawEntry → Result PayloadError RemoteSourceEntry
  parse_entry resolve_dns generated_at seen bad_entry = err bad_source
  parse_entry resolve_dns generated_at seen (entry url checked probe) = do
    normalized ← wrap_url (normalize_source_url lib resolve_dns url)
    raise_if (text_in normalized seen) duplicate_url
    checked_at ← parse_timestamp checked
    raise_if (ltb (generated_at + 10 * minute) checked_at) checked_late
    raise_if (ltb checked_at (generated_at - 24 * hour)) checked_early
    probe_mbps ← parse_probe probe
    ok (record { url = normalized; checked_at = checked_at; probe_mbps = probe_mbps })

  unfoldable pub parse_entries :
      Bool → ℕ → List Text → List RawEntry → Result PayloadError (List RemoteSourceEntry)
  parse_entries resolve_dns generated_at seen [] = ok []
  parse_entries resolve_dns generated_at seen (raw ∷ rest) = do
    first ← parse_entry resolve_dns generated_at seen raw
    entries ← parse_entries resolve_dns generated_at (first.url ∷ seen) rest
    ok (first ∷ entries)

  unfoldable pub parse_manifest :
      ℕ → ℕ → Bool → Bool → Document → Result PayloadError RemoteSourceManifest
  parse_manifest min_sources now resolve_dns allow_expired malformed = err bad_fields
  parse_manifest min_sources now resolve_dns allow_expired too_nested = err recursion
  parse_manifest min_sources now resolve_dns allow_expired
        (document schema revision generated expires sources) =
      do
        raise_if (not (is_schema_1 schema)) bad_schema
        number ← parse_revision revision
        generated_at ← parse_timestamp generated
        expires_at ← parse_timestamp expires
        check_times now allow_expired generated_at expires_at
        raw ← need_array sources
        check_length min_sources (length raw)
        entries ← parse_entries resolve_dns generated_at [] raw
        ok (record {
          revision = number;
          generated_at = generated_at;
          expires_at = expires_at;
          sources = entries;
        })
