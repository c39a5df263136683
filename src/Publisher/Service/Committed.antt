-- ===== src/Publisher/Service/Committed.antt =====
-- What `PublicationService.run` of source_publisher/service.py leaves in the bucket, however it ends.
use steam_download_pumper.Common.{
  ℕ, ◌≡◌, refl, sym, ◌∙◌, ap, subst, Bool, true, false, not, Option, none, some, ◌==◌,
  if◌then◌else◌, arith,
}
use steam_download_pumper.Common.Text.{Text, text_eq, text_eq→eq}
use steam_download_pumper.Common.Result.{
  ok, err, raise_if, >>=-eq-ok, >>-eq-ok, >>-eq-ok_first, raise_if-eq-ok,
}
use steam_download_pumper.Publisher.Bucket.{
  PublishError, read_failed, manifest_differs, verify_failed, object_not_found, Bucket, UploadEnd,
  uploaded, not_uploaded, uploaded_unseen, put_in, upload_release, upload_latest,
}
use steam_download_pumper.Publisher.Service.{
  World, Circumstances, PublisherConfig, get, ensure, Step, next, read_public, verify_public,
  check_release,
}

-- latest.json is one of the releases.
abbrev pub IsCommitted : Bucket → Type 0
IsCommitted b = (l : Text) → b.latest ≡ some l → (r : ℕ) × (b.releases r ≡ some l)

-- Every release stays as it is.
abbrev pub IsKept : Bucket → Bucket → Type 0
IsKept b b' = (r : ℕ) (e : Text) → b.releases r ≡ some e → b'.releases r ≡ some e

-- What holds at each point of a run that began in that bucket.
pub record IsSound (start : Bucket) (b : Bucket) : Type 0 where
  pub committed : IsCommitted b
  pub kept : IsKept start b

pub next-holds :
    {A B : Type 0} (P : World → Type 0) (s : Step A) (rest : World → A → Step B)
    → P s.0
    → ((w : World) (a : A) → s ≡ (w, ok a) → P w → P (rest w a).0)
    → P (next s rest).0
unfolding next
next-holds P (w, ok a) rest h k = k w a refl h
next-holds P (w, err e) rest h k = h

put_in-IsKept :
    (found : Option Text) (revision : ℕ) (envelope : Text) (b : Bucket)
    → b.releases revision ≡ found
    → IsKept b (put_in found revision envelope b)
unfolding put_in
put_in-IsKept (some old) revision envelope b k r e h = h
put_in-IsKept none revision envelope b k r e h = not_there (r == revision) refl
  where
    not_there :
        (same : Bool)
        → (r == revision) ≡ same
        → (if same then some envelope else b.releases r) ≡ some e
    not_there false other = h
    not_there true same =
        let equal : r ≡ revision = ground arith in
        let there : b.releases revision ≡ some e = subst (λ n. b.releases n ≡ some e) equal h in cc

put_in_latest :
    (found : Option Text) (revision : ℕ) (envelope : Text) (b : Bucket)
    → (put_in found revision envelope b).latest ≡ b.latest
unfolding put_in
put_in_latest (some old) revision envelope b = refl
put_in_latest none revision envelope b = refl

-- More releases and the same latest.json.
more-IsSound :
    (start b b' : Bucket) → IsKept b b' → b'.latest ≡ b.latest → IsSound start b → IsSound start b'
more-IsSound start b b' more same s = record {
  committed = λ l h. let (r, there) = s.committed l (sym same ∙ h) in (r, more r l there);
  kept = λ r e h. more r e (s.kept r e h);
}

pub upload_release-IsSound :
    (end : UploadEnd) (start : Bucket) (revision : ℕ) (envelope : Text) (b : Bucket)
    → IsSound start b
    → IsSound start (upload_release end revision envelope b).0
unfolding upload_release
upload_release-IsSound not_uploaded start revision envelope b s = s
upload_release-IsSound uploaded start revision envelope b s =
    more-IsSound start b _ (put_in-IsKept (b.releases revision) revision envelope b refl)
      (put_in_latest (b.releases revision) revision envelope b) s
upload_release-IsSound uploaded_unseen start revision envelope b s =
    more-IsSound start b _ (put_in-IsKept (b.releases revision) revision envelope b refl)
      (put_in_latest (b.releases revision) revision envelope b) s

latest-IsSound :
    (start : Bucket) (revision : ℕ) (envelope : Text) (b : Bucket)
    → b.releases revision ≡ some envelope
    → IsSound start b
    → IsSound start (record b { latest = some envelope })
latest-IsSound start revision envelope b there s = record {
  committed = λ l h. (revision, there ∙ h);
  kept = s.kept;
}

pub upload_latest-IsSound :
    (end : UploadEnd) (start : Bucket) (revision : ℕ) (envelope : Text) (b : Bucket)
    → b.releases revision ≡ some envelope
    → IsSound start b
    → IsSound start (upload_latest end envelope b).0
unfolding upload_latest
upload_latest-IsSound uploaded start revision envelope b there s =
    latest-IsSound start revision envelope b there s
upload_latest-IsSound not_uploaded start revision envelope b there s = s
upload_latest-IsSound uploaded_unseen start revision envelope b there s =
    latest-IsSound start revision envelope b there s

pub get-eq-ok :
    {A : Type 0} (found : Option A) (e : PublishError) {a : A} → get found e ≡ ok a → found ≡ some a
get-eq-ok none e h = cc
get-eq-ok (some a) e h = cc

same_text : (a b : Text) → not (text_eq a b) ≡ false → a ≡ b
same_text a b h = text_eq→eq a b (ground arith)

module _ (c : Circumstances) (config : PublisherConfig) where
  pub read_public-eq-ok :
      (n : ℕ) (object : Option Text) {found : Text}
      → read_public c config n object ≡ ok found
      → object ≡ some found
  read_public-eq-ok n object h =
      get-eq-ok object object_not_found (>>-eq-ok (raise_if (not (c.reachable n)) read_failed) _ h)

  -- What was fetched is the envelope, and the program finds the payload in it.
  pub verify_public_lem :
      (n : ℕ) (fetched envelope payload : Text)
      → verify_public c config n fetched envelope payload ≡ ok tt
      → (fetched ≡ envelope) × (c.verify fetched ≡ some payload)
  unfolding verify_public
  verify_public_lem n fetched envelope payload h =
      let differs = raise_if (not (text_eq fetched envelope)) manifest_differs in
      let h1 = >>-eq-ok (ensure (c.active n)) _ h in
      let (verified, found, h2) =
        >>=-eq-ok (get (c.verify fetched) verify_failed) _ (>>-eq-ok differs _ h1) in
      (
        same_text fetched envelope (raise_if-eq-ok _ _ (>>-eq-ok_first differs _ h1)),
        get-eq-ok (c.verify fetched) _ found
            ∙ ap some (same_text verified payload (raise_if-eq-ok _ _ h2)),
      )

  pub check_release_lem :
      (revision : ℕ) (payload envelope : Text) (w : World)
      → check_release c config revision payload envelope w ≡ ok tt
      → (w.bucket.releases revision ≡ some envelope) × (c.verify envelope ≡ some payload)
  unfolding check_release
  check_release_lem revision payload envelope w h =
      let h1 = >>-eq-ok (ensure (c.active 9)) _ h in
      let (fetched, found, h2) =
        >>=-eq-ok (read_public c config 3 (w.bucket.releases revision)) _ h1 in
      let (same, verified) =
        verify_public_lem 10 fetched envelope payload
          (>>-eq-ok_first (verify_public c config 10 fetched envelope payload) _ h2) in
      (
        read_public-eq-ok 3 (w.bucket.releases revision) found ∙ ap some same,
        subst (λ e. c.verify e ≡ some payload) same verified,
      )
