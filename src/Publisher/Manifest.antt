-- ===== src/Publisher/Manifest.antt =====
-- `build_payload` of source_publisher/manifest.py, with `ProbeResult` of source_publisher/probe.py.
-- The payload is the document that is dumped as JSON.
pub mod Accepted
pub mod Sorting
pub mod Consumed
mod Tests
use steam_download_pumper.Common.{
  ℕ, ◌+◌, ◌*◌, Bool, true, false, ◌&&◌, ◌||◌, Option, none, some, List, [], ◌∷◌, map, leb, ltb,
  ◌==◌, take, if◌then◌else◌,
}
use steam_download_pumper.Common.Text.{Text, text_leb}
use steam_download_pumper.Fleet.Clock.{hour}
use steam_download_pumper.Fleet.Floats.{Ratio}
use steam_download_pumper.Remote.Document.{
  Value, text, whole, real, RawEntry, entry, Document, document,
}

-- `probe_mbps` is `none` where it is negative or not finite.
pub record ProbeResult : Type 0 where
  pub url : Text
  pub checked_at : ℕ
  pub probe_mbps : Option Ratio
  pub success : Bool

-- A result that is published, with its speed.
pub record Source : Type 0 where
  pub url : Text
  pub checked_at : ℕ
  pub probe_mbps : Ratio

-- Python's `strftime` as a number and `isoformat(timespec="seconds")` on the clock of Shanghai,
-- `round(x, 3)`, and the length of the JSON text.
pub record Formats : Type 0 where
  pub strftime : ℕ → ℕ
  pub isoformat_seconds : ℕ → Text
  pub round_3 : Ratio → Ratio
  pub payload_length : Document → ℕ

unfoldable pub healthy_of : List ProbeResult → List Source
healthy_of [] = []
healthy_of (r ∷ rs) =
    let rest = healthy_of rs in
    if r.success
    then elim r.probe_mbps [
      | none ↦ rest
      | some mbps ↦ record { url = r.url; checked_at = r.checked_at; probe_mbps = mbps } ∷ rest
    ]
    else rest

-- The order of `(-probe_mbps, url)`.
unfoldable pub is_before : Source → Source → Bool
is_before a b =
    let left = a.probe_mbps.numerator * b.probe_mbps.denominator in
    let right = b.probe_mbps.numerator * a.probe_mbps.denominator in
    ltb right left || (left == right && text_leb a.url b.url)

unfoldable pub insert_source : Source → List Source → List Source
insert_source a [] = a ∷ []
insert_source a (b ∷ bs) =
    let rest = insert_source a bs in if is_before a b then a ∷ b ∷ bs else b ∷ rest

unfoldable pub sort_sources : List Source → List Source
sort_sources [] = []
sort_sources (a ∷ as') = insert_source a (sort_sources as')

-- `healthy[:max_sources]`
abbrev pub published : ℕ → List ProbeResult → List Source
published max_sources results = take max_sources (sort_sources (healthy_of results))

module _ (formats : Formats) where
  unfoldable pub revision_for : ℕ → ℕ → ℕ
  revision_for generated previous_revision =
      let revision = formats.strftime generated in
      if leb revision previous_revision then previous_revision + 1 else revision

  abbrev pub source_entry : Source → RawEntry
  source_entry s =
      entry (text s.url) (text (formats.isoformat_seconds s.checked_at))
        (real (formats.round_3 s.probe_mbps))

  unfoldable pub payload_document : List Source → ℕ → ℕ → Document
  payload_document sources generated revision =
      document (whole 1) (whole revision) (text (formats.isoformat_seconds generated))
        (text (formats.isoformat_seconds (generated + 72 * hour))) (some (map source_entry sources))

  -- `none` is the `ValueError` of a payload of more than 512 KiB.
  unfoldable pub build_payload : List ProbeResult → ℕ → ℕ → ℕ → Option (Document × ℕ)
  build_payload results generated max_sources previous_revision =
      let revision = revision_for generated previous_revision in
      let payload = payload_document (published max_sources results) generated revision in
      if ltb (512 * 1024) (formats.payload_length payload) then none else some (payload, revision)
