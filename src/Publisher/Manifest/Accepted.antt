-- ===== src/Publisher/Manifest/Accepted.antt =====
-- What source_publisher/manifest.py builds, as steam_pumper/remote_sources.py reads it.
use steam_download_pumper.Common.{
  ℕ, ◌+◌, ◌%◌, ◌≤◌, ◌≡◌, refl, sym, ◌∙◌, ap, subst, Bool, true, false, Option, none, some, List,
  if◌then◌else◌, arith,
}
use steam_download_pumper.Common.Result.{err}
use steam_download_pumper.Remote.Document.{whole, Document, Library}
use steam_download_pumper.Remote.Payload.{
  bad_revision, is_timestamp, is_schema_1, parse_revision, parse_manifest,
}
use steam_download_pumper.Publisher.Manifest.{
  ProbeResult, Source, Formats, published, revision_for, payload_document, build_payload,
}

revision_after_59 : (n : ℕ) → n % 100 ≡ 59 → parse_revision (whole (n + 1)) ≡ err bad_revision
unfolding parse_revision is_timestamp
revision_after_59 n h = ground arith

pub built_document :
    (big : Bool) (payload last : Document) (revision number : ℕ)
    → ◌≡◌ {A = Option (Document × ℕ)}
        (if big then none else some (payload, revision))
        (some (last, number))
    → (payload ≡ last) × (revision ≡ number) × (big ≡ false)
built_document true payload last revision number h = (cc, cc, cc)
built_document false payload last revision number h = (cc, cc, refl)

module _ (formats : Formats) where
  refused_document :
      (lib : Library) (sources : List Source) (generated previous : ℕ)
      → previous % 100 ≡ 59
      → (min_sources now : ℕ) (resolve_dns allow_expired : Bool)
      → parse_manifest lib min_sources now resolve_dns allow_expired
          (payload_document formats sources generated (previous + 1))
        ≡ err bad_revision
  unfolding parse_manifest payload_document is_schema_1
  refused_document lib sources generated previous odd min_sources now resolve_dns allow_expired =
      rw (revision_after_59 previous odd) refl

  -- Where the clock of the publisher is not past the last revision and that revision ends in 59
  -- seconds, the revision that it builds is no timestamp, and every consumer refuses the list.
  pub build_payload-refused :
      (lib : Library) (results : List ProbeResult) (generated max_sources previous : ℕ)
      {payload : Document} {revision : ℕ}
      → formats.strftime generated ≤ previous
      → previous % 100 ≡ 59
      → build_payload formats results generated max_sources previous ≡ some (payload, revision)
      → (min_sources now : ℕ) (resolve_dns allow_expired : Bool)
      → parse_manifest lib min_sources now resolve_dns allow_expired payload ≡ err bad_revision
  unfolding build_payload revision_for
  build_payload-refused lib results generated max_sources previous late odd built min_sources now
        resolve_dns allow_expired =
      let sources = published max_sources results in
      let next : revision_for formats generated previous ≡ previous + 1 = ground arith in
      let (same, number, size) = built_document _ _ _ _ _ built in
      subst (λ d. parse_manifest lib min_sources now resolve_dns allow_expired d ≡ err bad_revision)
        (ap (payload_document formats sources generated) (sym next) ∙ same)
        (refused_document lib sources generated previous odd min_sources now resolve_dns
          allow_expired)
