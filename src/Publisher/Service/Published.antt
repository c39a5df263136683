-- ===== src/Publisher/Service/Published.antt =====
-- What stands in the bucket once `PublicationService.run` of source_publisher/service.py returns.
use steam_download_pumper.Common.{ℕ, ◌≤◌, ◌≡◌, refl, sym, ◌∙◌, ap, subst, true, false, some, arith}
use steam_download_pumper.Common.Text.{Text}
use steam_download_pumper.Common.Result.{Result, ok, err, ok-injective}
use steam_download_pumper.Publisher.Bucket.{
  PublishError, write_failed, Bucket, UploadEnd, uploaded, not_uploaded, uploaded_unseen,
  upload_latest,
}
use steam_download_pumper.Publisher.Service.{
  StateEnd, written, not_written, written_raised, World, Circumstances, PublisherConfig,
  PublicationResult, Step, next, Plan, recovered_today, validated, publish, plan, on_bucket,
  release_step, check_release, check_uploaded_latest, write_success_state, publish_step, run_plan,
  run,
}
use steam_download_pumper.Publisher.Service.Committed.{check_release_lem}
use steam_download_pumper.Publisher.Service.Planned.{
  IsThere, HoldsRevision, IsPlanned, plan-IsPlanned,
}

next-eq-ok :
    {A B : Type 0} (s : Step A) (rest : World → A → Step B) {w' : World} {b : B}
    → next s rest ≡ (w', ok b)
    → (w : World) × (a : A) × (s ≡ (w, ok a)) × (rest w a ≡ (w', ok b))
unfolding next
next-eq-ok (w, ok a) rest h = (w, a, refl, h)
next-eq-ok (w, err e) rest {w' = w'} {b = b} h =
    let wrong : ◌≡◌ {A = Result PublishError _} (err e) (ok b) = ap (λ s. s.1) h in err-ok wrong
  where
    err-ok :
        {A B : Type 0} {e : PublishError} {b : B}
        → ◌≡◌ {A = Result PublishError B} (err e) (ok b)
        → A
    err-ok h = cc

upload_latest_lem :
    (end : UploadEnd) (envelope : Text) (b : Bucket)
    → (upload_latest end envelope b).1 ≡ ok tt
    → (upload_latest end envelope b).0 ≡ record b { latest = some envelope }
unfolding upload_latest
upload_latest_lem uploaded envelope b h = refl
upload_latest_lem not_uploaded envelope b h = cc
upload_latest_lem uploaded_unseen envelope b h = cc

module _ (c : Circumstances) (config : PublisherConfig) where
  -- A written state.
  success_lem :
      (result : PublicationResult) (w : World) {w' : World} {last : PublicationResult}
      → write_success_state c config result w ≡ (w', ok last)
      → (w' ≡ record w { last_revision = some result.revision }) × (last ≡ result)
  unfolding write_success_state
  success_lem result w {w' = w'} {last = last} h = by_write c.state_end h
    where
      by_write :
          (end : StateEnd)
          → (elim end as (λ _. Step PublicationResult) [
            | written ↦ (record w { last_revision = some result.revision }, ok result)
            | not_written ↦ (w, err write_failed)
            | written_raised ↦ (record w { last_revision = some result.revision }, err write_failed)
          ])
            ≡ (w', ok last)
          → (w' ≡ record w { last_revision = some result.revision }) × (last ≡ result)
      by_write written k = (sym (ap (λ s. s.0) k), sym (ok-injective (ap (λ s. s.1) k)))
      by_write not_written k =
          let wrong : ◌≡◌ {A = Result PublishError PublicationResult} (err write_failed) (ok last) =
            ap (λ s. s.1) k in
          (cc, cc)
      by_write written_raised k =
          let wrong : ◌≡◌ {A = Result PublishError PublicationResult} (err write_failed) (ok last) =
            ap (λ s. s.1) k in
          (cc, cc)

  publish_step_lem :
      (revision count : ℕ) (payload envelope : Text) (w : World) {w' : World}
      {result : PublicationResult}
      → publish_step c config revision count payload envelope w ≡ (w', ok result)
      → IsThere c.verify w'.bucket result
        × (result.revision ≡ revision)
        × (w'.last_revision ≡ some result.revision)
  unfolding publish_step
  publish_step_lem revision count payload envelope w {w' = w'} h =
      let made : PublicationResult = record {
        revision = revision;
        source_count = count;
        payload = payload;
        envelope = some envelope;
      } in
      let (w1, a1, h1, k1) = next-eq-ok (release_step c config revision payload envelope w) _ h in
      let (w2, a2, h2, k2) =
        next-eq-ok (w1, check_release c config revision payload envelope w1) _ k1 in
      let (w3, a3, h3, k3) =
        next-eq-ok (on_bucket c config w2 (upload_latest c.latest_upload envelope w2.bucket)) _
          k2 in
      let (w4, a4, h4, k4) =
        next-eq-ok (w3, check_uploaded_latest c config payload envelope w3) _ k3 in
      let (is_state, is_made) = success_lem made w4 k4 in
      let (there, verified) =
        check_release_lem c config revision payload envelope w1 (ap (λ s. s.1) h2) in
      let bucket : (upload_latest c.latest_upload envelope w2.bucket).0 ≡ w3.bucket =
        ap (λ s. s.0.bucket) h3 in
      let after =
        sym bucket ∙ upload_latest_lem c.latest_upload envelope w2.bucket (ap (λ s. s.1) h3) in
      let before : w1.bucket ≡ w2.bucket = ap (λ s. s.0.bucket) h2 in
      let same : w3.bucket ≡ w4.bucket = ap (λ s. s.0.bucket) h4 in
      let last : w4.bucket ≡ record w1.bucket { latest = some envelope } =
        sym same ∙ after ∙ ap (λ (b : Bucket). record b { latest = some envelope }) (sym before) in
      subst
        (λ (r : PublicationResult).
          IsThere c.verify w'.bucket r
          × (r.revision ≡ revision)
          × (w'.last_revision ≡ some r.revision))
        (sym is_made)
        (
          subst (λ (w : World). IsThere c.verify w.bucket made) (sym is_state)
              (record {
                envelope = envelope;
                signed = refl;
                latest = ap (λ (b : Bucket). b.latest) last;
                release = ap (λ (b : Bucket). b.releases revision) last ∙ there;
                verified = verified;
              }),
          refl,
          ap (λ (w : World). w.last_revision) is_state,
        )

  run_plan_lem :
      (previous : ℕ) (chosen : Plan) (w : World) {w' : World} {result : PublicationResult}
      → IsPlanned c config previous w.bucket chosen
      → run_plan c config chosen w ≡ (w', ok result)
      → IsThere c.verify w'.bucket result
        × (previous ≤ result.revision)
        × (w'.last_revision ≡ some result.revision)
  unfolding run_plan IsPlanned
  run_plan_lem previous (recovered_today found) w {w' = w'} {result = result} h k =
      let (is_state, is_found) = success_lem found w k in
      subst
        (λ (r : PublicationResult).
          IsThere c.verify w'.bucket r
          × (previous ≤ r.revision)
          × (w'.last_revision ≡ some r.revision))
        (sym is_found)
        (
          subst (λ (w : World). IsThere c.verify w.bucket found) (sym is_state) h.0,
          h.1,
          ap (λ (w : World). w.last_revision) is_state,
        )
  run_plan_lem previous (validated found) w h k = true-false h
    where
      true-false : {A : Type 0} → true ≡ false → A
      true-false h = cc
  run_plan_lem previous (publish revision count payload envelope) w h k =
      let (there, number, saved) = publish_step_lem revision count payload envelope w k in
      (there, omega arith, saved)

  -- A publication that returns has latest.json and the release of its revision equal, signed and
  -- holding its payload, the revision saved, and that revision is not older than the one
  -- saved before, nor than that of the list which latest.json held before.
  pub run_published :
      (now : ℕ) (w w' : World) (result : PublicationResult)
      → run c config now false w ≡ (w', ok result)
      → IsThere c.verify w'.bucket result
        × (w'.last_revision ≡ some result.revision)
        × ((previous : ℕ) → w.last_revision ≡ some previous → previous ≤ result.revision)
        × ((r : ℕ) → HoldsRevision c w.bucket r → r ≤ result.revision)
  unfolding run
  run_published now w w' result h =
      let (v, chosen, planned, ran) = next-eq-ok (w, plan c config now false w) _ h in
      let (previous, floor, saved, above, held, promise) =
        plan-IsPlanned c config now w (ap (λ s. s.1) planned) in
      let same : w ≡ v = ap (λ s. s.0) planned in
      let (there, newer, state) =
        run_plan_lem floor chosen v
          (subst (λ (w : World). IsPlanned c config floor w.bucket chosen) same promise) ran in
      (
        there,
        state,
        λ p is_p.
            let equal : some previous ≡ some p = sym saved ∙ is_p in
            let recent : previous ≤ result.revision = omega (arith, above, newer) in
            subst (λ n. n ≤ result.revision) (cc) recent,
        λ r holds. omega (arith, held r holds, newer),
      )
