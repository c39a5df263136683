-- ===== src/Remote/Manager/Failures.antt =====
-- How a refresh of steam_pumper/remote_sources.py ends.
use steam_download_pumper.Common.{
  ℕ, ◌+◌, ◌*◌, ◌≤◌, ◌≡◌, ◌⊎◌, inl, inr, refl, sym, ◌∙◌, ap, subst, Bool, true, false, ◌&&◌, not,
  some, [], if◌then◌else◌, arith, Bool-cases,
}
use steam_download_pumper.Common.Text.{Text}
use steam_download_pumper.Common.Result.{Result, ok, err}
use steam_download_pumper.Fleet.Clock.{second}
use steam_download_pumper.Remote.Payload.{RemoteSourceManifest, urls}
use steam_download_pumper.Remote.Envelope.{
  RemoteSourceSettings, RefreshFailure, Raised, interrupted, failed, uncaught, write_failed,
  protocol_error, fetch_envelope, ran,
}
use steam_download_pumper.Remote.Manager.{
  is_disabled, bytes, Disk, Manager, World, Write, written, not_written, written_raised, raises,
  Outside, save_state, save_envelope, pending_snapshot, due,
}
use steam_download_pumper.Remote.Manager.Load.{open_envelope}
use steam_download_pumper.Remote.Manager.Refresh.{
  refresh_delay, Attempt, Candidate, RefreshOutcome, returned, raised, has_other_revision, accept,
  on_failure, accepted_manager, candidate_snapshot, finish, finish_with, conclude, refresh,
}
use steam_download_pumper.Remote.Manager.Accepted.{IsCandidate, accept-IsCandidate}
use steam_download_pumper.Remote.Manager.Kept.{save_state_envelope}

-- The file is as it was; or its write raised after its effect, and it holds the envelope of a list
-- that the verifier and the parser accept and that is not older than the one in use.
pub record IsAhead (out : Outside) (settings : RemoteSourceSettings) (a : Attempt)
    (before after : World) : Type 0 where
  pub ends : a.envelope_write ≡ written_raised
  pub newer : Text
  pub manifest : RemoteSourceManifest
  pub file : after.disk.envelope_path ≡ bytes newer
  pub opened : open_envelope out settings a.now ran newer ≡ ok manifest
  pub not_older :
      (q : RemoteSourceManifest) → before.manager.manifest ≡ some q → q.revision ≤ manifest.revision

-- A refresh that fails returns, and keeps the list in use.
pub record IsRefused (out : Outside) (settings : RemoteSourceSettings) (a : Attempt)
    (before : World) (run : World × RefreshOutcome) : Type 0 where
  pub outcome : run.1 ≡ returned false
  pub list : run.0.manager.manifest ≡ before.manager.manifest
  pub current : run.0.manager.current_urls ≡ before.manager.current_urls
  pub envelope : run.0.manager.envelope_bytes ≡ before.manager.envelope_bytes
  pub revision : run.0.manager.snapshot.revision ≡ before.manager.snapshot.revision
  pub etag : run.0.manager.snapshot.etag ≡ before.manager.snapshot.etag
  pub counted : run.0.manager.failure_count ≡ before.manager.failure_count + 1
  pub reason : RefreshFailure
  pub told : run.0.manager.snapshot.last_error ≡ out.describe reason
  pub retry :
      run.0.manager.snapshot.next_refresh_at
      ≡ out.isoformat (a.now + refresh_delay (before.manager.failure_count + 1) * second)
  pub file :
      (run.0.disk.envelope_path ≡ before.disk.envelope_path) ⊎ IsAhead out settings a before run.0

-- A refresh that raises leaves the disk as it is, and of the manager all but the flag of the start.
pub record IsThrown (before : World) (run : World × RefreshOutcome) : Type 0 where
  pub reason : Raised
  pub outcome : run.1 ≡ raised reason
  pub manager : run.0.manager ≡ record before.manager { startup_refresh_pending = false }
  pub disk : run.0.disk ≡ before.disk

-- A refresh that succeeds has a list in use that is not older: the same one with its envelope, or
-- one whose envelope the verifier and the parser accept.
pub record IsTaken (out : Outside) (settings : RemoteSourceSettings) (a : Attempt) (before : World)
    (run : World × RefreshOutcome) : Type 0 where
  pub changed : Bool
  pub outcome : run.1 ≡ returned changed
  pub manifest : RemoteSourceManifest
  pub list : run.0.manager.manifest ≡ some manifest
  pub current : run.0.manager.current_urls ≡ urls manifest
  pub not_older :
      (q : RemoteSourceManifest) → before.manager.manifest ≡ some q → q.revision ≤ manifest.revision
  pub origin :
      ((before.manager.manifest ≡ some manifest)
        × (run.0.manager.envelope_bytes ≡ before.manager.envelope_bytes))
      ⊎ ((newer : Text) × (run.0.manager.envelope_bytes ≡ some newer)
          × (open_envelope out settings a.now ran newer ≡ ok manifest))
  pub none_failed : run.0.manager.failure_count ≡ 0
  pub no_error : run.0.manager.snapshot.last_error ≡ []

-- The manager once `refresh` has cleared the flag of the start.
abbrev pub started : World → Manager
started w = record w.manager { startup_refresh_pending = false }

module _ (out : Outside) (settings : RemoteSourceSettings) where
  pub enabled_run :
      (a : Attempt) (w : World)
      → settings.enabled ≡ true
      → refresh out settings a w
        ≡ conclude out settings (started w) a (accept out settings (started w) a) w.disk
  unfolding refresh
  enabled_run a w on =
      subst
        (λ b.
          (if not b
            then (
              record w {
                manager = record w.manager { snapshot = pending_snapshot false is_disabled [] };
              },
              returned false,
            )
            else conclude out settings (started w) a (accept out settings (started w) a) w.disk)
          ≡ conclude out settings (started w) a (accept out settings (started w) a) w.disk)
        (sym on) refl

  on_failure-IsRefused :
      (a : Attempt) (e : RefreshFailure) (w : World) (disk : Disk)
      → (disk.envelope_path ≡ w.disk.envelope_path)
        ⊎ IsAhead out settings a w (record { manager = w.manager; disk = disk })
      → IsRefused out settings a w (on_failure out settings a e (started w) disk, returned false)
  unfolding on_failure
  on_failure-IsRefused a e w disk from = record {
    outcome = refl;
    list = refl;
    current = refl;
    envelope = refl;
    revision = refl;
    etag = refl;
    counted = refl;
    reason = e;
    told = refl;
    retry = refl;
    file = elim from [
      | inl same ↦ inl (save_state_envelope a.error_write _ _ disk ∙ same)
      | inr ahead ↦ inr (record {
        ends = ahead.ends;
        newer = ahead.newer;
        manifest = ahead.manifest;
        file = save_state_envelope a.error_write _ _ disk ∙ ahead.file;
        opened = ahead.opened;
        not_older = ahead.not_older;
      })
    ];
  }

  accepted_manager-IsTaken :
      (a : Attempt) (c : Candidate) (w : World) (disk : Disk) (changed : Bool)
      → IsCandidate out settings (started w) a c
      → IsTaken out settings a w (
        record { manager = accepted_manager out settings (started w) a.now c; disk = disk },
        returned changed,
      )
  unfolding accepted_manager candidate_snapshot
  accepted_manager-IsTaken a c w disk changed is_c = record {
    changed = changed;
    outcome = refl;
    manifest = c.manifest;
    list = refl;
    current = refl;
    not_older = is_c.not_older;
    origin = elim (Bool-cases c.answer.not_modified) [
      | inl same ↦ inl (is_c.known_list same, ground arith)
      | inr other ↦ inr (c.answer.envelope, ground arith, is_c.opened other)
    ];
    none_failed = refl;
    no_error = refl;
  }

  -- How a refresh of an enabled list may end.
  abbrev pub IsEnded : Attempt → World → World × RefreshOutcome → Type 0
  IsEnded a w run = IsTaken out settings a w run ⊎ (IsRefused out settings a w run ⊎ IsThrown w run)

  raised_write :
      (a : Attempt) (c : Candidate) (w : World) (disk : Disk)
      → IsCandidate out settings (started w) a c
      → disk.envelope_path ≡ w.disk.envelope_path
      → c.answer.not_modified ≡ false
      → (end : Write) → a.envelope_write ≡ end
      → raises end ≡ true
      → let after = save_envelope end c.answer.envelope disk in
        (after.envelope_path ≡ w.disk.envelope_path)
        ⊎ IsAhead out settings a w (record { manager = w.manager; disk = after })
  unfolding save_envelope
  raised_write a c w disk is_c same other written is_end h = cc
  raised_write a c w disk is_c same other not_written is_end h = inl same
  raised_write a c w disk is_c same other written_raised is_end h = inr (record {
    ends = is_end;
    newer = c.answer.envelope;
    manifest = c.manifest;
    file = refl;
    opened = is_c.opened other;
    not_older = is_c.not_older;
  })

  finish_with-IsEnded :
      (a : Attempt) (c : Candidate) (w : World) (disk : Disk) (writes raising : Bool)
      → IsCandidate out settings (started w) a c
      → disk.envelope_path ≡ w.disk.envelope_path
      → (writes ≡ true → c.answer.not_modified ≡ false)
      → raises a.envelope_write ≡ raising
      → IsEnded a w (finish_with out settings (started w) a c disk writes raising)
  unfolding finish_with
  finish_with-IsEnded a c w disk false raising is_c same other h =
      inl (accepted_manager-IsTaken a c w disk _ is_c)
  finish_with-IsEnded a c w disk true false is_c same other h =
      inl (accepted_manager-IsTaken a c w _ _ is_c)
  finish_with-IsEnded a c w disk true true is_c same other h = inr (
      inl (
        on_failure-IsRefused a write_failed w _
          (raised_write a c w disk is_c same (other refl) a.envelope_write refl h)))

  conclude-IsEnded :
      (a : Attempt) (w : World) (r : Result Raised Candidate)
      → accept out settings (started w) a ≡ r
      → IsEnded a w (conclude out settings (started w) a r w.disk)
  unfolding conclude finish
  conclude-IsEnded a w (err interrupted) h =
      inr (inr (record { reason = interrupted; outcome = refl; manager = refl; disk = refl }))
  conclude-IsEnded a w (err uncaught) h =
      inr (inr (record { reason = uncaught; outcome = refl; manager = refl; disk = refl }))
  conclude-IsEnded a w (err (failed e)) h = inr (inl (on_failure-IsRefused a e w w.disk (inl refl)))
  conclude-IsEnded a w (ok c) h =
      let saved =
        save_state a.state_write (candidate_snapshot out settings (started w) a.now c) 0 w.disk in
      let same = save_state_envelope a.state_write _ _ w.disk in
      elim (raises a.state_write)
        as (λ b. IsEnded a w (
          if b
          then (on_failure out settings a write_failed (started w) saved, returned false)
          else finish out settings (started w) a c saved)) [
            | true ↦ inr (inl (on_failure-IsRefused a write_failed w saved (inl same)))
            | false ↦
                finish_with-IsEnded a c w saved
                  (not c.answer.not_modified && has_other_revision w.manager.manifest c.manifest)
                  (raises a.envelope_write) (accept-IsCandidate out settings (started w) a h) same
                  (λ k. ground arith) refl
          ]

  -- Where the list is enabled, a refresh, whatever the server, the verifier and the disk answer, ends
  -- in one of three ways. It succeeds: it has a list in use that is not older, the one before or one
  -- that verifier and parser accept, and no failures. Or it fails: it returns, keeps the list, its
  -- envelope and its urls, counts the failure, says why, asks again after the delay of that count, and
  -- leaves the file, unless its write raised after its effect, with an accepted list that is not
  -- older. Or it raises: the disk stays, and of the manager all but the flag of the start.
  pub refresh-IsEnded :
      (a : Attempt) (w : World) → settings.enabled ≡ true → IsEnded a w (refresh out settings a w)
  refresh-IsEnded a w on =
      subst (IsEnded a w) (sym (enabled_run a w on)) (conclude-IsEnded a w _ refl)

  accept_protocol :
      (m : Manager) (a : Attempt)
      → a.cancelled_start ≡ false
      → a.fetched ≡ protocol_error
      → accept out settings m a ≡ err uncaught
  unfolding accept fetch_envelope
  accept_protocol m a start fetched = ground arith

  -- Where the list is enabled, the call is not cancelled at its start and the server's answer is no
  -- HTTP, the call counts no failure and sets no delay: a manager that is due at an instant, not only
  -- by the flag of the start, is still due at it after the call.
  pub refresh-protocol_error :
      (a : Attempt) (w : World) (later : ℕ)
      → settings.enabled ≡ true
      → a.cancelled_start ≡ false
      → a.fetched ≡ protocol_error
      → due out settings (started w) later ≡ true
      → ((refresh out settings a w).1 ≡ raised uncaught)
        × ((refresh out settings a w).0.manager.failure_count ≡ w.manager.failure_count)
        × ((refresh out settings a w).0.manager.snapshot ≡ w.manager.snapshot)
        × (due out settings (refresh out settings a w).0.manager later ≡ true)
  unfolding conclude
  refresh-protocol_error a w later on start fetched h =
      subst
        (λ r.
          (r.1 ≡ raised uncaught)
          × (r.0.manager.failure_count ≡ w.manager.failure_count)
          × (r.0.manager.snapshot ≡ w.manager.snapshot)
          × (due out settings r.0.manager later ≡ true))
        (sym (
          enabled_run a w on
          ∙ ap (λ r. conclude out settings (started w) a r w.disk)
              (accept_protocol (started w) a start fetched)))
        (refl, refl, refl, h)
