-- ===== src/Publisher/Service/Ending.antt =====
-- What `PublicationService.run` of source_publisher/service.py returns, and what it leaves.
use steam_download_pumper.Common.{ℕ, ◌≡◌, ap, subst, Bool, true, false, Option, none, some}
use steam_download_pumper.Common.Text.{Text}
use steam_download_pumper.Common.Result.{ok, err}
use steam_download_pumper.Publisher.Bucket.{
  PublishError, read_failed, write_failed, Bucket, upload_release, upload_latest,
}
use steam_download_pumper.Publisher.Service.{
  written, not_written, written_raised, World, Circumstances, PublisherConfig, PublicationResult,
  Step, Plan, recovered_today, validated, publish, verify_public, plan, on_bucket, release_step,
  check_release, check_uploaded_latest, write_success_state, publish_step, run_plan, run,
}
use steam_download_pumper.Publisher.Service.Committed.{
  IsCommitted, IsSound, next-holds, upload_release-IsSound, upload_latest-IsSound,
  check_release_lem,
}

module _ (c : Circumstances) (config : PublisherConfig) where
  release_step-IsSound :
      (start : Bucket) (revision : ℕ) (payload envelope : Text) (w : World)
      → IsSound start w.bucket
      → IsSound start (release_step c config revision payload envelope w).0.bucket
  unfolding release_step
  release_step-IsSound start revision payload envelope w s =
      by_reach (c.reachable 2) (w.bucket.releases revision) (c.active 7)
    where
      by_reach :
          (reach : Bool) (found : Option Text) (stop : Option PublishError)
          → IsSound start
              (elim reach as (λ _. Step (Unit {0})) [
                | false ↦ (w, err read_failed)
                | true ↦ elim found as (λ _. Step (Unit {0})) [
                  | some existing ↦ (w, verify_public c config 8 existing envelope payload)
                  | none ↦ elim stop as (λ _. Step (Unit {0})) [
                    | some e ↦ (w, err e)
                    | none ↦
                        on_bucket c config w
                          (upload_release c.release_upload revision envelope w.bucket)
                  ]
                ]
              ]).0.bucket
      by_reach false found stop = s
      by_reach true (some existing) stop = s
      by_reach true none (some e) = s
      by_reach true none none =
          upload_release-IsSound c.release_upload start revision envelope w.bucket s

  success-IsSound :
      (start : Bucket) (result : PublicationResult) (w : World)
      → IsSound start w.bucket
      → IsSound start (write_success_state c config result w).0.bucket
  unfolding write_success_state
  success-IsSound start result w s =
      elim c.state_end
        as (λ b.
          IsSound start
            (elim b as (λ _. Step PublicationResult) [
              | written ↦ (record w { last_revision = some result.revision }, ok result)
              | not_written ↦ (w, err write_failed)
              | written_raised ↦
                  (record w { last_revision = some result.revision }, err write_failed)
            ]).0.bucket) [ written ↦ s | not_written ↦ s | written_raised ↦ s ]

  publish_step-IsSound :
      (start : Bucket) (revision count : ℕ) (payload envelope : Text) (w : World)
      → IsSound start w.bucket
      → IsSound start (publish_step c config revision count payload envelope w).0.bucket
  unfolding publish_step
  publish_step-IsSound start revision count payload envelope w s =
      let P : World → Type 0 = λ w. IsSound start w.bucket in
      next-holds P (release_step c config revision payload envelope w) _
        (release_step-IsSound start revision payload envelope w s)
        (λ w1 a1 h1 s1.
          next-holds P (w1, check_release c config revision payload envelope w1) _ s1
            (λ w2 a2 h2 s2.
              let checked =
                check_release_lem c config revision payload envelope w1 (ap (λ s. s.1) h2) in
              let there : w2.bucket.releases revision ≡ some envelope =
                subst (λ w. w.bucket.releases revision ≡ some envelope) (ap (λ s. s.0) h2)
                  checked.0 in
              next-holds P
                (on_bucket c config w2 (upload_latest c.latest_upload envelope w2.bucket)) _
                (upload_latest-IsSound c.latest_upload start revision envelope w2.bucket there s2)
                (λ w3 a3 h3 s3.
                  next-holds P (w3, check_uploaded_latest c config payload envelope w3) _ s3
                    (λ w4 a4 h4 s4. success-IsSound start _ w4 s4))))

  run_plan-IsSound :
      (start : Bucket) (chosen : Plan) (w : World)
      → IsSound start w.bucket
      → IsSound start (run_plan c config chosen w).0.bucket
  unfolding run_plan
  run_plan-IsSound start (recovered_today result) w s = success-IsSound start result w s
  run_plan-IsSound start (validated result) w s = s
  run_plan-IsSound start (publish revision count payload envelope) w s =
      publish_step-IsSound start revision count payload envelope w s

  -- However a run ends, returned or raised at any call, latest.json is one of the releases if it was
  -- before, and every release is still there as it was.
  pub run-IsSound :
      (now : ℕ) (validate_only : Bool) (w : World)
      → IsCommitted w.bucket
      → IsSound w.bucket (run c config now validate_only w).0.bucket
  unfolding run
  run-IsSound now validate_only w h =
      let s : IsSound w.bucket w.bucket = record { committed = h; kept = λ r e k. k } in
      next-holds (λ v. IsSound w.bucket v.bucket) (w, plan c config now validate_only w) _ s
        (λ v chosen k s. run_plan-IsSound w.bucket chosen v s)
