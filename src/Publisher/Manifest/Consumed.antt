-- ===== src/Publisher/Manifest/Consumed.antt =====
-- What source_publisher/manifest.py builds is what steam_pumper/remote_sources.py accepts.
use steam_download_pumper.Common.{ℕ, ◌+◌, ◌*◌, ◌/◌, ◌≤◌, ◌≡◌, false, List, [], ◌∷◌, map}
use steam_download_pumper.Common.Text.{Text, text_in}
use steam_download_pumper.Common.Result.{ok}
use steam_download_pumper.Fleet.Clock.{second, hour}
use steam_download_pumper.Remote.Document.{text, Document, Library}
use steam_download_pumper.Remote.Url.{normalize_source_url}
use steam_download_pumper.Remote.Payload.{RemoteSourceEntry, RemoteSourceManifest, parse_timestamp}
use steam_download_pumper.Publisher.Manifest.{Source, Formats}

-- An instant cut to its second.
abbrev pub to_second : ℕ → ℕ
to_second t = t / second * second

module _ (formats : Formats) (lib : Library) where
  -- The consumer reads a timestamp of the publisher.
  abbrev pub IsRead : Type 0
  IsRead = (t : ℕ) → parse_timestamp lib (text (formats.isoformat_seconds t)) ≡ ok (to_second t)

  -- A source that the consumer takes: its URL is in its normal form, and its probe is not older than
  -- a day.
  pub record IsPublishable (generated : ℕ) (s : Source) : Type 0 where
    pub normal : normalize_source_url lib false (text s.url) ≡ ok s.url
    pub not_late : s.checked_at ≤ generated
    pub not_early : generated ≤ s.checked_at + 24 * hour

  abbrev pub remote_entry : Source → RemoteSourceEntry
  remote_entry s = record {
    url = s.url;
    checked_at = to_second s.checked_at;
    probe_mbps = formats.round_3 s.probe_mbps;
  }

  -- No URL of the second list is in the first.
  IsApart : List Text → List Text → Type 0
  IsApart seen [] = Unit
  IsApart seen (u ∷ us) = (text_in u seen ≡ false) × IsApart seen us

  -- The manifest that the consumer makes of a payload.
  abbrev pub remote_manifest : List Source → ℕ → ℕ → RemoteSourceManifest
  remote_manifest sources generated revision = record {
    revision = revision;
    generated_at = to_second generated;
    expires_at = to_second generated + 72 * hour;
    sources = map remote_entry sources;
  }
