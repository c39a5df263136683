-- ===== src/Remote/Manager/Restarts.antt =====
-- `load_last_known_good` of steam_pumper/remote_sources.py takes the list that the file holds.
use steam_download_pumper.Common.{
  ℕ, ◌≡◌, refl, sym, ◌∙◌, subst, ap, Bool, true, false, not, Option, none, some, [], ◌==◌,
  if◌then◌else◌, arith,
}
use steam_download_pumper.Common.Text.{Text}
use steam_download_pumper.Common.Result.{Result, ok, err, >>=-eq-ok, ok-injective}
use steam_download_pumper.Remote.Payload.{RemoteSourceManifest}
use steam_download_pumper.Remote.Envelope.{
  RemoteSourceSettings, Raised, interrupted, failed, uncaught, Process, ran,
}
use steam_download_pumper.Remote.Manager.{
  is_disabled, SourceListSnapshot, EnvelopeFile, missing_envelope, unreadable_envelope, bytes, Disk,
  World, Write, Outside, read_state, pending_snapshot, save_state, State,
}
use steam_download_pumper.Remote.Manager.Load.{
  LoadedEnvelope, accepted, refused, is_saved_for, resume, refuse, open_envelope, load_envelope,
  load_manifest_with, load_no_manifest, or_state_error, with_state, load_with, load_enabled,
  load_last_known_good,
}
use steam_download_pumper.Remote.Manager.Accepted.{open_envelope-again}
use steam_download_pumper.Remote.Manager.Safe.{IsSafe}
use steam_download_pumper.Remote.Manager.Kept.{save_state_envelope}

load_no_manifest_empty :
    (error : Text) (state : Option State)
    → ((load_no_manifest error state).manifest ≡ none)
      × ((load_no_manifest error state).current_urls ≡ [])
unfolding load_no_manifest resume
load_no_manifest_empty error none = (refl, refl)
load_no_manifest_empty error (some s) =
    elim (s.revision == 0)
      as (λ b.
        let m = if b then resume s else load_no_manifest error none in
        (m.manifest ≡ none) × (m.current_urls ≡ [])) [ true ↦ (refl, refl) | false ↦ (refl, refl) ]

module _ (out : Outside) (settings : RemoteSourceSettings) where
  with_manifest_file :
      (now : ℕ) (write : Write) (m : RemoteSourceManifest) (envelope : Text) (state : Option State)
      (w : World)
      → (load_manifest_with out settings now write m envelope state w).disk.envelope_path
        ≡ w.disk.envelope_path
  unfolding load_manifest_with
  with_manifest_file now write m envelope state w = kept_file (is_saved_for m state) _
    where
      kept_file :
          (b : Bool) (s : SourceListSnapshot)
          → (if b then w.disk else save_state write s 0 w.disk).envelope_path ≡ w.disk.envelope_path
      kept_file true s = refl
      kept_file false s = save_state_envelope write s 0 w.disk

  -- The list that was loaded is in use.
  loaded-IsSafe :
      (now : ℕ) (write : Write) (m : RemoteSourceManifest) (envelope : Text) (state : Option State)
      (w : World)
      → w.disk.envelope_path ≡ bytes envelope
      → open_envelope out settings now ran envelope ≡ ok m
      → IsSafe out settings now (load_manifest_with out settings now write m envelope state w)
  unfolding load_manifest_with
  loaded-IsSafe now write m envelope state w file opened = record {
    trusted = λ p h. record {
      envelope = envelope;
      kept = refl;
      opened = opened ∙ ground arith;
      in_use = ground arith;
    };
    stored = λ p h. record {
      envelope = envelope;
      list = m;
      file = with_manifest_file now write m envelope state w ∙ file;
      opened = opened;
      not_older = ground arith;
    };
    empty = λ h. cc;
  }

  empty-IsSafe :
      (now : ℕ) (error : Text) (state : Option State) (d : Disk)
      → IsSafe out settings now (record { manager = load_no_manifest error state; disk = d })
  empty-IsSafe now error state d =
      let (no_list, no_urls) = load_no_manifest_empty error state in
      record {
        trusted = λ p h. absurd (sym no_list ∙ h);
        stored = λ p h. absurd (sym no_list ∙ h);
        empty = λ h. no_urls;
      }
    where
      absurd :
          {A : Type 0} {p : RemoteSourceManifest}
          → ◌≡◌ {A = Option RemoteSourceManifest} none (some p)
          → A
      absurd h = cc

  -- Whether the file holds the list or none, the world that is loaded is safe; a list that the
  -- file holds is in use.
  pub record IsLoaded (now : ℕ) (process : Process) (d : Disk) (w : World) : Type 0 where
    pub safe : IsSafe out settings now w
    pub list :
        (envelope : Text) (m : RemoteSourceManifest)
        → d.envelope_path ≡ bytes envelope
        → open_envelope out settings now process envelope ≡ ok m
        → w.manager.manifest ≡ some m

  with_state-IsSafe :
      (now : ℕ) (write : Write) (loaded : LoadedEnvelope) (state : Option State) (error : Text)
      (w : World)
      → ((m : RemoteSourceManifest) (envelope : Text)
          → loaded ≡ accepted m envelope
          → (w.disk.envelope_path ≡ bytes envelope)
            × (open_envelope out settings now ran envelope ≡ ok m))
      → IsSafe out settings now (with_state out settings now write loaded state error w)
  with_state-IsSafe now write (accepted m envelope) state error w h =
      let (file, opened) = h m envelope refl in
      loaded-IsSafe now write m envelope state w file opened
  with_state-IsSafe now write (refused refusal) state error w h =
      empty-IsSafe now (or_state_error refusal error) state w.disk

  refuse-eq-ok :
      (e : Raised) (m : RemoteSourceManifest) (envelope : Text)
      → refuse out settings e ≡ ok (accepted m envelope)
      → refuse out settings e ≡ err e
  refuse-eq-ok interrupted m envelope h = cc
  refuse-eq-ok (failed e) m envelope h = cc
  refuse-eq-ok uncaught m envelope h = cc

  load_envelope_lem :
      (now : ℕ) (process : Process) (file : EnvelopeFile) (m : RemoteSourceManifest)
      (envelope : Text)
      → load_envelope out settings now process file ≡ ok (accepted m envelope)
      → (file ≡ bytes envelope) × (open_envelope out settings now process envelope ≡ ok m)
  unfolding load_envelope
  load_envelope_lem now process missing_envelope m envelope h = cc
  load_envelope_lem now process unreadable_envelope m envelope h = cc
  load_envelope_lem now process (bytes found) m envelope h =
      opened (open_envelope out settings now process found) refl h
    where
      opened :
          (r : Result Raised RemoteSourceManifest)
          → open_envelope out settings now process found ≡ r
          → ◌≡◌ {A = Result Raised LoadedEnvelope}
              (elim r [ ok p ↦ ok (accepted p found) | err e ↦ refuse out settings e ])
              (ok (accepted m envelope))
          → (bytes found ≡ bytes envelope)
            × (open_envelope out settings now process envelope ≡ ok m)
      opened (ok p) k same =
          (cc, subst (λ b. open_envelope out settings now process b ≡ ok m) (cc) (k ∙ cc))
      opened (err e) k same = let wrong = refuse-eq-ok e m envelope same in (cc, cc)

  -- The file's list is opened and taken.
  load_envelope_opened :
      (now : ℕ) (process : Process) (file : EnvelopeFile) (m : RemoteSourceManifest)
      (envelope : Text)
      → file ≡ bytes envelope
      → open_envelope out settings now process envelope ≡ ok m
      → load_envelope out settings now process file ≡ ok (accepted m envelope)
  unfolding load_envelope
  load_envelope_opened now process file m envelope same opened =
      subst (λ f. load_envelope out settings now process f ≡ ok (accepted m envelope)) (sym same)
        (subst
          (λ r.
            elim r [ ok p ↦ ok (accepted p envelope) | err e ↦ refuse out settings e ]
            ≡ ok (accepted m envelope))
          (sym opened) refl)

  load_with_lem :
      (now : ℕ) (write : Write) (loaded : LoadedEnvelope) (w : World)
      → ((m : RemoteSourceManifest) (envelope : Text)
          → loaded ≡ accepted m envelope
          → (w.disk.envelope_path ≡ bytes envelope)
            × (open_envelope out settings now ran envelope ≡ ok m))
      → IsSafe out settings now (load_with out settings now write w loaded)
  unfolding load_with
  load_with_lem now write loaded w h =
      elim (read_state out settings w.disk.state_path)
        as (λ r. IsSafe out settings now (elim r [
          | ok state ↦ with_state out settings now write loaded state [] w
          | err e ↦ with_state out settings now write loaded none (out.describe e) w
        ])) [
          | ok state ↦ with_state-IsSafe now write loaded state [] w h
          | err e ↦ with_state-IsSafe now write loaded none (out.describe e) w h
        ]

  load_with_list :
      (now : ℕ) (write : Write) (m : RemoteSourceManifest) (envelope : Text) (w : World)
      → (load_with out settings now write w (accepted m envelope)).manager.manifest ≡ some m
  unfolding load_with load_manifest_with
  load_with_list now write m envelope w =
      elim (read_state out settings w.disk.state_path)
        as (λ r.
          (elim r as (λ _. World) [
            | ok state ↦ with_state out settings now write (accepted m envelope) state [] w
            | err e ↦
                with_state out settings now write (accepted m envelope) none (out.describe e) w
          ]).manager.manifest
          ≡ some m) [ ok state ↦ refl | err e ↦ refl ]

  pub load-IsLoaded :
      (now : ℕ) (process : Process) (write : Write) (before : World) {w : World}
      → settings.enabled ≡ true
      → load_last_known_good out settings now process write before ≡ ok w
      → IsLoaded now process before.disk w
  unfolding load_last_known_good load_enabled
  load-IsLoaded now process write before {w = w} on h =
      let file = before.disk.envelope_path in
      let enabled =
        subst
          (λ b.
            (if not b
              then ok (record before {
                manager = record before.manager {
                  snapshot = pending_snapshot false is_disabled [];
                };
              })
              else load_enabled out settings now process write before)
            ≡ ok w)
          on h in
      let (loaded, found, last) =
        >>=-eq-ok (load_envelope out settings now process file) _ enabled in
      let same = ok-injective last in
      record {
        safe = subst (IsSafe out settings now) same (
            load_with_lem now write loaded before (λ m envelope eq.
              let (is_file, opened) =
                load_envelope_lem now process file m envelope (found ∙ ap ok eq) in
              (is_file, open_envelope-again out settings now process envelope opened)));
        list = λ envelope m is_file opened.
            let known = load_envelope_opened now process file m envelope is_file opened in
            let is_loaded : loaded ≡ accepted m envelope = cc in
            subst (λ w. w.manager.manifest ≡ some m)
              (ap (load_with out settings now write before) (sym is_loaded) ∙ same)
              (load_with_list now write m envelope before);
      }
