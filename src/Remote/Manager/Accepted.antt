-- ===== src/Remote/Manager/Accepted.antt =====
-- The list that `refresh` of steam_pumper/remote_sources.py takes, and the envelope that holds it.
use steam_download_pumper.Common.{
  ℕ, ◌≤◌, ◌≡◌, refl, subst, Bool, true, false, Option, none, some, ltb, if◌then◌else◌, arith,
}
use steam_download_pumper.Common.Text.{Text}
use steam_download_pumper.Common.Result.{
  ok, raise_if, >>=-eq-ok, >>-eq-ok, >>-eq-ok_first, raise_if-eq-ok, ok-injective,
}
use steam_download_pumper.Remote.Payload.{RemoteSourceManifest, parse_manifest}
use steam_download_pumper.Remote.Payload.Later.{parse_manifest-later}
use steam_download_pumper.Remote.Envelope.{
  RemoteSourceSettings, interrupted, failed, rollback, Process, ran, fetch_envelope,
  verify_envelope,
}
use steam_download_pumper.Remote.Envelope.Accepted.{verify_envelope-again}
use steam_download_pumper.Remote.Manager.{Manager, Outside, parse_payload}
use steam_download_pumper.Remote.Manager.Load.{open_envelope}
use steam_download_pumper.Remote.Manager.Refresh.{
  Attempt, Candidate, known, check_newer, open_answer, accept,
}

known-eq-ok :
    (manifest : Option RemoteSourceManifest) {m : RemoteSourceManifest}
    → known manifest ≡ ok m
    → manifest ≡ some m
known-eq-ok none h = cc
known-eq-ok (some p) h = cc

check_newer_lem :
    (previous : Option RemoteSourceManifest) (old : Option Text) (m : RemoteSourceManifest)
    (envelope : Text)
    → check_newer previous old m envelope ≡ ok tt
    → (p : RemoteSourceManifest) → previous ≡ some p
    → p.revision ≤ m.revision
unfolding check_newer
check_newer_lem none old m envelope h p same = cc
check_newer_lem (some q) old m envelope h p same =
    let newer =
      raise_if-eq-ok _ _
        (>>-eq-ok_first (raise_if (ltb m.revision q.revision) (failed rollback)) _ h) in
    ground arith

module _ (out : Outside) (settings : RemoteSourceSettings) where
  parse_payload-later :
      (now later : ℕ) (allow_expired : Bool) (payload : Text) {m : RemoteSourceManifest}
      → now ≤ later
      → parse_payload out settings now allow_expired payload ≡ ok m
      → parse_payload out settings later true payload ≡ ok m
  parse_payload-later now later allow_expired payload {m = m} le h =
      let parsed : parse_manifest out.lib settings.min_sources now false allow_expired
            (out.load_manifest payload)
          ≡ ok m =
        ground arith in
      rw
        (
          parse_manifest-later out.lib settings.min_sources now later false allow_expired
              (out.load_manifest payload) le parsed,
          parse_payload,
        )
        refl

  -- What a verifier that ran to its end would have said of an envelope that was opened.
  pub open_envelope-again :
      (now : ℕ) (process : Process) (envelope : Text) {m : RemoteSourceManifest}
      → open_envelope out settings now process envelope ≡ ok m
      → open_envelope out settings now ran envelope ≡ ok m
  unfolding open_envelope
  open_envelope-again now process envelope h =
      let (payload, verified, parsed) =
        >>=-eq-ok (verify_envelope out.signing settings false process envelope) _ h in
      rw (verify_envelope-again out.signing settings false process envelope verified) parsed

  pub open_envelope-later :
      (now later : ℕ) (envelope : Text) {m : RemoteSourceManifest}
      → now ≤ later
      → open_envelope out settings now ran envelope ≡ ok m
      → open_envelope out settings later ran envelope ≡ ok m
  unfolding open_envelope
  open_envelope-later now later envelope le h =
      let (payload, verified, parsed) =
        >>=-eq-ok (verify_envelope out.signing settings false ran envelope) _ h in
      rw (verified) (parse_payload-later now later true payload le parsed)

  -- A list that was taken from an answer is the one that its envelope holds, and not older than
  -- the list before it.
  open_answer_lem :
      (m : Manager) (a : Attempt) (envelope : Text) {p : RemoteSourceManifest}
      → open_answer out settings m a envelope ≡ ok p
      → (open_envelope out settings a.now ran envelope ≡ ok p)
        × ((q : RemoteSourceManifest) → m.manifest ≡ some q → q.revision ≤ p.revision)
  unfolding open_answer open_envelope
  open_answer_lem m a envelope {p = p} h =
      let (payload, verified, h1) =
        >>=-eq-ok (verify_envelope out.signing settings a.cancelled_verify a.process envelope) _
          h in
      let (found, parsed, h2) = >>=-eq-ok (parse_payload out settings a.now false payload) _ h1 in
      let newer = check_newer m.manifest m.envelope_bytes found envelope in
      let same = ok-injective (>>-eq-ok newer _ h2) in
      let again =
        verify_envelope-again out.signing settings a.cancelled_verify a.process envelope verified in
      (
        rw (again) (
            subst (λ p. parse_payload out settings a.now true payload ≡ ok p) same
              (parse_payload-later a.now a.now false payload (omega arith) parsed)),
        λ q eq.
            subst (λ p. q.revision ≤ p.revision) same
              (check_newer_lem m.manifest m.envelope_bytes found envelope
                (>>-eq-ok_first newer _ h2) q eq),
      )

  -- What an accepted candidate is: the list in use, or a list that an envelope holds.
  pub record IsCandidate (m : Manager) (a : Attempt) (c : Candidate) : Type 0 where
    pub known_list : c.answer.not_modified ≡ true → m.manifest ≡ some c.manifest
    pub opened :
        c.answer.not_modified ≡ false
        → open_envelope out settings a.now ran c.answer.envelope ≡ ok c.manifest
    pub not_older :
        (q : RemoteSourceManifest) → m.manifest ≡ some q → q.revision ≤ c.manifest.revision

  some_revision :
      (m : Manager) (p q : RemoteSourceManifest)
      → m.manifest ≡ some p
      → m.manifest ≡ some q
      → q.revision ≤ p.revision
  some_revision m p q h k = ground arith

  pub accept-IsCandidate :
      (m : Manager) (a : Attempt) {c : Candidate}
      → accept out settings m a ≡ ok c
      → IsCandidate m a c
  unfolding accept
  accept-IsCandidate m a h =
      let (answer, fetched, h1) =
        >>=-eq-ok (fetch_envelope settings m.snapshot.etag a.fetched) _
          (>>-eq-ok (raise_if a.cancelled_start interrupted) _ h) in
      let (p, chosen, h2) =
        >>=-eq-ok
          (if answer.not_modified
            then known m.manifest
            else open_answer out settings m a answer.envelope)
          _ h1 in
      subst (IsCandidate m a) (ok-injective h2) (
        elim answer.not_modified
            as (λ b.
              answer.not_modified ≡ b
              → IsCandidate m a (record { manifest = p; answer = answer })) [
                | true ↦ λ is_same.
                    let found = known-eq-ok m.manifest (ground arith) in
                    record {
                      known_list = λ _. found;
                      opened = λ h. ground arith;
                      not_older = λ q eq. some_revision m p q found eq;
                    }
                | false ↦ λ other.
                    let opened = open_answer_lem m a answer.envelope (ground arith) in
                    record {
                      known_list = λ h. ground arith;
                      opened = λ _. opened.0;
                      not_older = opened.1;
                    }
              ]
          refl)
