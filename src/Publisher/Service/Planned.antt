-- ===== src/Publisher/Service/Planned.antt =====
-- What `PublicationService.run` of source_publisher/service.py decides before it writes.
use steam_download_pumper.Common.{
  ℕ, ◌≤◌, ◌<◌, ◌≡◌, ◌≢◌, sym, refl, ◌∙◌, ap, subst, Bool, true, false, ◌&&◌, not, Option, none,
  some, leb, ltb, ◌==◌, length, max, if◌then◌else◌, arith,
}
use steam_download_pumper.Common.Text.{Text}
use steam_download_pumper.Common.Result.{
  Result, ok, ◌>>=◌, raise_if, >>=-eq-ok, >>-eq-ok, >>-eq-ok_first, ok-injective,
}
use steam_download_pumper.Remote.Document.{Document}
use steam_download_pumper.Remote.Payload.{has_14_digits}
use steam_download_pumper.Publisher.Candidates.{is_schema_one}
use steam_download_pumper.Publisher.Manifest.{Formats, build_payload, revision_for}
use steam_download_pumper.Publisher.Manifest.Accepted.{built_document}
use steam_download_pumper.Publisher.Bucket.{
  PublishError, read_failed, verify_failed, latest_invalid, state_invalid, candidates_invalid,
  insufficient_sources, payload_invalid, Bucket,
}
use steam_download_pumper.Publisher.Service.{
  LatestDocument, World, Circumstances, PublisherConfig, PublicationResult, get, ensure, keep_fast,
  check_latest, recover_latest, recover_remote_commit, make_payload, make_envelope,
  plan_publication, plan_recovered, Plan, recovered_today, validated, publish, read_public,
  verify_public, plan,
}
use steam_download_pumper.Publisher.Service.Committed.{
  verify_public_lem, read_public-eq-ok, get-eq-ok,
}

-- latest.json and the release hold the envelope of the result, in which the payload is found.
pub record IsThere (verify : Text → Option Text) (b : Bucket) (result : PublicationResult)
    : Type 0 where
  pub envelope : Text
  pub signed : result.envelope ≡ some envelope
  pub latest : b.latest ≡ some envelope
  pub release : b.releases result.revision ≡ some envelope
  pub verified : verify envelope ≡ some result.payload

-- latest.json holds a verified list of that revision.
pub record HoldsRevision (c : Circumstances) (b : Bucket) (r : ℕ) : Type 0 where
  pub envelope : Text
  pub latest : b.latest ≡ some envelope
  pub payload : Text
  pub verified : c.verify envelope ≡ some payload
  pub document : LatestDocument
  pub loaded : c.load payload ≡ some document
  pub revision : c.int_of document.revision ≡ some r

revision_for-newer :
    (formats : Formats) (generated previous : ℕ)
    → previous < revision_for formats generated previous
unfolding revision_for
revision_for-newer formats generated previous = ground arith

some-injective : {A : Type 0} {a b : A} → some a ≡ some b → a ≡ b
some-injective h = cc

none≢some : {A : Type 0} {a : A} → none ≢ some a
none≢some h = cc

module _ (c : Circumstances) (config : PublisherConfig) where
  recover_latest_lem :
      (b : Bucket) (latest : Text) {found : PublicationResult × ℕ}
      → b.latest ≡ some latest
      → recover_latest c config b latest ≡ ok found
      → IsThere c.verify b found.0
  unfolding recover_latest
  recover_latest_lem b latest is_latest h =
      let (payload, verified, h1) = >>=-eq-ok (get (c.verify latest) verify_failed) _ h in
      let (document, loaded, h2) = >>=-eq-ok (get (c.load payload) latest_invalid) _ h1 in
      let (checked, read, h3) = >>=-eq-ok (check_latest c config document) _ h2 in
      let h4 = >>-eq-ok (ensure (c.active 2)) _ h3 in
      let (release, fetched, h5) = >>=-eq-ok (read_public c config 1 (b.releases checked.0)) _ h4 in
      let equal = verify_public c config 3 release latest payload in
      let (same, again) =
        verify_public_lem c config 3 release latest payload (>>-eq-ok_first equal _ h5) in
      subst (λ found. IsThere c.verify b found.0) (ok-injective (>>-eq-ok equal _ h5))
        (record {
          envelope = latest;
          signed = refl;
          latest = is_latest;
          release = read_public-eq-ok c config 1 (b.releases checked.0) fetched ∙ ap some same;
          verified = get-eq-ok (c.verify latest) _ verified;
        })

  check_latest_lem :
      (d : LatestDocument) {found : ℕ × (ℕ × ℕ)} {r : ℕ}
      → check_latest c config d ≡ ok found
      → c.int_of d.revision ≡ some r
      → found.0 ≡ r
  unfolding check_latest
  check_latest_lem d {found = found} h k =
      let (revision, read, h1) = >>=-eq-ok (get (c.int_of d.revision) latest_invalid) _ h in
      let (generated, at, h2) =
        >>=-eq-ok (get (c.fromisoformat d.generated_at) latest_invalid) _ h1 in
      let h3 = >>-eq-ok (raise_if (not (is_schema_one d.schema)) latest_invalid) _ h2 in
      let h4 = >>-eq-ok (raise_if (not (has_14_digits revision)) latest_invalid) _ h3 in
      let (count, some_count, h5) = >>=-eq-ok (get d.sources latest_invalid) _ h4 in
      let last : revision ≡ found.0 = ap (λ (f : ℕ × (ℕ × ℕ)). f.0) (ok-injective h5) in
      sym last ∙ some-injective (sym (get-eq-ok (c.int_of d.revision) _ read) ∙ k)

  recover_latest-revision :
      (b : Bucket) (latest : Text) {found : PublicationResult × ℕ} {r : ℕ}
      → b.latest ≡ some latest
      → recover_latest c config b latest ≡ ok found
      → HoldsRevision c b r
      → found.0.revision ≡ r
  unfolding recover_latest
  recover_latest-revision b latest {found = found} {r = r} is_latest h holds =
      let (payload, verified, h1) = >>=-eq-ok (get (c.verify latest) verify_failed) _ h in
      let (document, loaded, h2) = >>=-eq-ok (get (c.load payload) latest_invalid) _ h1 in
      let (checked, read, h3) = >>=-eq-ok (check_latest c config document) _ h2 in
      let h4 = >>-eq-ok (ensure (c.active 2)) _ h3 in
      let (release, fetched, h5) = >>=-eq-ok (read_public c config 1 (b.releases checked.0)) _ h4 in
      let last = ok-injective (>>-eq-ok (verify_public c config 3 release latest payload) _ h5) in
      let same_envelope : latest ≡ holds.envelope = some-injective (sym is_latest ∙ holds.latest) in
      let same_payload : payload ≡ holds.payload = some-injective (
        sym (get-eq-ok (c.verify latest) _ verified)
        ∙ ap c.verify same_envelope
        ∙ holds.verified) in
      let same_document : document ≡ holds.document =
        some-injective
          (sym (get-eq-ok (c.load payload) _ loaded) ∙ ap c.load same_payload ∙ holds.loaded) in
      ap (λ (f : PublicationResult × ℕ). f.0.revision) (sym last)
      ∙ check_latest_lem document read
          (ap (λ (d : LatestDocument). c.int_of d.revision) same_document ∙ holds.revision)

  recovered_lem :
      (b : Bucket) (latest : Option Text) {found : PublicationResult × ℕ}
      → b.latest ≡ latest
      → ◌≡◌ {A = Result PublishError (Option (PublicationResult × ℕ))}
          (elim latest [
            | none ↦ ok none
            | some l ↦ recover_latest c config b l >>= λ found. ok (some found)
          ])
          (ok (some found))
      → IsThere c.verify b found.0 × ((r : ℕ) → HoldsRevision c b r → found.0.revision ≡ r)
  recovered_lem b none k h = cc
  recovered_lem b (some l) {found = found} k h =
      let (again, read, last) = >>=-eq-ok (recover_latest c config b l) _ h in
      let same : again ≡ found = cc in
      subst
        (λ (f : PublicationResult × ℕ).
          IsThere c.verify b f.0 × ((r : ℕ) → HoldsRevision c b r → f.0.revision ≡ r))
        same (recover_latest_lem b l k read, λ r. recover_latest-revision b l k read)

  recover_remote_commit_lem :
      (b : Bucket) {found : PublicationResult × ℕ}
      → recover_remote_commit c config b ≡ ok (some found)
      → IsThere c.verify b found.0 × ((r : ℕ) → HoldsRevision c b r → found.0.revision ≡ r)
  unfolding recover_remote_commit
  recover_remote_commit_lem b h =
      let h1 = >>-eq-ok (ensure (c.active 1)) _ h in
      recovered_lem b b.latest refl (>>-eq-ok (raise_if (not (c.reachable 0)) read_failed) _ h1)

  -- What a plan promises: today's list is there already, or a newer revision is to be published.
  unfoldable pub IsPlanned : ℕ → Bucket → Plan → Type 0
  IsPlanned previous b (recovered_today result) =
      IsThere c.verify b result × (previous ≤ result.revision)
  IsPlanned previous b (validated result) = true ≡ false
  IsPlanned previous b (publish revision count payload envelope) = previous < revision

  make_payload_newer :
      (previous now : ℕ) {made : Document × (ℕ × ℕ)}
      → make_payload c config previous now ≡ ok made
      → previous < made.1.0
  unfolding make_payload build_payload
  make_payload_newer previous now h =
      let (results, probed, h1) = >>=-eq-ok (get c.probed candidates_invalid) _ h in
      let h2 = >>-eq-ok (ensure (c.active 4)) _ h1 in
      let fast = keep_fast config.min_probe_mbps results in
      let h3 =
        >>-eq-ok (raise_if (ltb (length fast) config.min_healthy_sources) insufficient_sources) _
          h2 in
      let (built, made, h4) =
        >>=-eq-ok
          (get (build_payload c.formats fast now config.max_healthy_sources previous)
            payload_invalid)
          _ h3 in
      let (same, number, size) = built_document _ _ built.0 _ built.1 (get-eq-ok _ _ made) in
      let last : ◌≡◌ {A = Document × (ℕ × ℕ)} (built.0, (built.1, length fast)) _ =
        ok-injective h4 in
      subst (λ (m : Document × (ℕ × ℕ)). previous < m.1.0) last
        (subst (λ n. previous < n) number (revision_for-newer c.formats now previous))

  plan_publication-IsPlanned :
      (previous now floor : ℕ) (b : Bucket) {chosen : Plan}
      → floor ≤ previous
      → plan_publication c config previous now ≡ ok chosen
      → IsPlanned floor b chosen
  unfolding plan_publication IsPlanned
  plan_publication-IsPlanned previous now floor b le h =
      let (made, prepared, h1) = >>=-eq-ok (make_payload c config previous now) _ h in
      let (envelope, signed, h2) = >>=-eq-ok (make_envelope c config (c.dump made.0)) _ h1 in
      subst (IsPlanned floor b) (ok-injective h2)
        (omega (arith, make_payload_newer previous now prepared))

  plan_recovered-IsPlanned :
      (previous now : ℕ) (b : Bucket) (found : PublicationResult) (date : ℕ) {chosen : Plan}
      → IsThere c.verify b found
      → plan_recovered c config previous now found date ≡ ok chosen
      → IsPlanned (max previous found.revision) b chosen
  unfolding plan_recovered IsPlanned
  plan_recovered-IsPlanned previous now b found date {chosen = chosen} there h =
      by_date (leb previous found.revision && date == c.local_date now) refl h
    where
      by_date :
          (today : Bool)
          → (leb previous found.revision && date == c.local_date now) ≡ today
          → (if today
              then ok (recovered_today found)
              else plan_publication c config (max previous found.revision) now)
            ≡ ok chosen
          → IsPlanned (max previous found.revision) b chosen
      by_date true is_today k =
          subst (IsPlanned (max previous found.revision) b) (ok-injective k) (there, ground arith)
      by_date false other k =
          plan_publication-IsPlanned (max previous found.revision) now (max previous found.revision)
            b (omega arith) k

  no_list :
      (b : Bucket) (latest : Option Text) {r : ℕ}
      → b.latest ≡ latest
      → HoldsRevision c b r
      → ¬ ◌≡◌ {A = Result PublishError (Option (PublicationResult × ℕ))}
          (elim latest [
            | none ↦ ok none
            | some l ↦ recover_latest c config b l >>= λ found. ok (some found)
          ])
          (ok none)
  no_list b none k holds h = none≢some (sym k ∙ holds.latest)
  no_list b (some l) k holds h =
      let (again, read, last) = >>=-eq-ok (recover_latest c config b l) _ h in
      none≢some (sym (ok-injective last))

  by_recovered :
      (previous now : ℕ) (b : Bucket) (recovered : Option (PublicationResult × ℕ)) {chosen : Plan}
      → recover_remote_commit c config b ≡ ok recovered
      → (elim recovered as (λ _. Result PublishError Plan) [
        | none ↦ plan_publication c config previous now
        | some found ↦ plan_recovered c config previous now found.0 found.1
      ])
        ≡ ok chosen
      → (floor : ℕ) × (previous ≤ floor)
        × ((r : ℕ) → HoldsRevision c b r → r ≤ floor)
        × IsPlanned floor b chosen
  unfolding recover_remote_commit
  by_recovered previous now b none h k = (
    previous,
    omega arith,
    λ r holds. absurd (
        no_list b b.latest refl holds (
          >>-eq-ok (raise_if (not (c.reachable 0)) read_failed) _
            (>>-eq-ok (ensure (c.active 1)) _ h))),
    plan_publication-IsPlanned previous now previous b (omega arith) k,
  )
  by_recovered previous now b (some found) h k =
      let (there, held) = recover_remote_commit_lem b h in
      (
        max previous found.0.revision,
        omega arith,
        λ r holds. omega (arith, held r holds),
        plan_recovered-IsPlanned previous now b found.0 found.1 there k,
      )

  pub plan-IsPlanned :
      (now : ℕ) (w : World) {chosen : Plan}
      → plan c config now false w ≡ ok chosen
      → (previous floor : ℕ) × (w.last_revision ≡ some previous)
        × (previous ≤ floor)
        × ((r : ℕ) → HoldsRevision c w.bucket r → r ≤ floor)
        × IsPlanned floor w.bucket chosen
  unfolding plan
  plan-IsPlanned now w h =
      let h1 = >>-eq-ok (ensure (c.active 0)) _ h in
      let (previous, read, h2) = >>=-eq-ok (get w.last_revision state_invalid) _ h1 in
      let (recovered, found, h3) = >>=-eq-ok (recover_remote_commit c config w.bucket) _ h2 in
      let (floor, above, held, promise) = by_recovered previous now w.bucket recovered found h3 in
      (previous, floor, get-eq-ok w.last_revision _ read, above, held, promise)
