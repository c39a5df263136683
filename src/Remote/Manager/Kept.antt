-- ===== src/Remote/Manager/Kept.antt =====
-- One `refresh` of steam_pumper/remote_sources.py keeps the list in use safe.
use steam_download_pumper.Common.{
  ℕ, ◌≤◌, ◌≡◌, refl, sym, subst, Bool, true, false, ◌&&◌, not, Option, none, some, [],
  if◌then◌else◌, arith,
}
use steam_download_pumper.Common.Text.{Text}
use steam_download_pumper.Common.Result.{Result, ok, err}
use steam_download_pumper.Remote.Payload.{RemoteSourceManifest}
use steam_download_pumper.Remote.Envelope.{
  RemoteSourceSettings, RefreshFailure, Raised, interrupted, failed, uncaught, write_failed,
}
use steam_download_pumper.Remote.Manager.{
  is_disabled, SourceListSnapshot, bytes, Disk, Manager, World, Write, written, not_written,
  written_raised, raises, Outside, save_state, save_envelope, pending_snapshot,
}
use steam_download_pumper.Remote.Manager.Refresh.{
  Attempt, Candidate, returned, has_other_revision, accept, on_failure, accepted_manager,
  candidate_snapshot, finish, finish_with, conclude, refresh,
}
use steam_download_pumper.Remote.Manager.Accepted.{IsCandidate, accept-IsCandidate}
use steam_download_pumper.Remote.Manager.Safe.{IsStored, IsSafe, keep, take_new}

pub save_state_envelope :
    (write : Write) (s : SourceListSnapshot) (n : ℕ) (d : Disk)
    → (save_state write s n d).envelope_path ≡ d.envelope_path
unfolding save_state
save_state_envelope written s n d = refl
save_state_envelope not_written s n d = refl
save_state_envelope written_raised s n d = refl

written_file :
    (write : Write) (envelope : Text) (d : Disk)
    → raises write ≡ false
    → (save_envelope write envelope d).envelope_path ≡ bytes envelope
unfolding save_envelope
written_file written envelope d h = refl
written_file not_written envelope d h = cc
written_file written_raised envelope d h = cc

module _ (out : Outside) (settings : RemoteSourceSettings) where
  -- A call that fails keeps the list.
  on_failure-IsSafe :
      (now : ℕ) (a : Attempt) (e : RefreshFailure) (m : Manager) (d : Disk)
      → IsSafe out settings now (record { manager = m; disk = d })
      → now ≤ a.now
      → IsSafe out settings a.now (on_failure out settings a e m d)
  unfolding on_failure
  on_failure-IsSafe now a e m d safe le =
      keep out settings now a.now (record { manager = m; disk = d }) _ _ le safe refl refl refl
        (save_state_envelope a.error_write _ _ d)

  replaced_file :
      (w : World) (a : Attempt) (c : Candidate)
      → IsSafe out settings a.now w
      → IsCandidate out settings w.manager a c
      → c.answer.not_modified ≡ false
      → IsSafe out settings a.now (record w {
        disk = record { envelope_path = bytes c.answer.envelope; state_path = w.disk.state_path };
      })
  replaced_file w a c safe is_c other = record {
    trusted = safe.trusted;
    stored = λ p h. record {
      envelope = c.answer.envelope;
      list = c.manifest;
      file = refl;
      opened = is_c.opened other;
      not_older = is_c.not_older p h;
    };
    empty = safe.empty;
  }

  -- The file may be newer than the list in use.
  newer_file :
      (w : World) (a : Attempt) (c : Candidate)
      → IsSafe out settings a.now w
      → IsCandidate out settings w.manager a c
      → c.answer.not_modified ≡ false
      → (write : Write)
      → IsSafe out settings a.now (record w { disk = save_envelope write c.answer.envelope w.disk })
  unfolding save_envelope
  newer_file w a c safe is_c other not_written = safe
  newer_file w a c safe is_c other written = replaced_file w a c safe is_c other
  newer_file w a c safe is_c other written_raised = replaced_file w a c safe is_c other

  -- The answer 304: the list stays, with a new snapshot.
  unchanged-IsSafe :
      (w : World) (a : Attempt) (c : Candidate)
      → IsSafe out settings a.now w
      → w.manager.manifest ≡ some c.manifest
      → c.answer.not_modified ≡ true
      → IsSafe out settings a.now
          (record w { manager = accepted_manager out settings w.manager a.now c })
  unfolding accepted_manager
  unchanged-IsSafe w a c safe same is_same =
      keep out settings a.now a.now w _ w.disk (omega arith) safe (sym same) (ground arith)
        (sym (safe.trusted c.manifest same).in_use) refl

  kept_revision :
      (w : World) (a : Attempt) (c : Candidate)
      → IsSafe out settings a.now w
      → (manifest : Option RemoteSourceManifest) → w.manager.manifest ≡ manifest
      → has_other_revision manifest c.manifest ≡ false
      → IsStored out settings a.now c.manifest.revision w.disk
  kept_revision w a c safe none h k = cc
  kept_revision w a c safe (some q) h k =
      subst (λ n. IsStored out settings a.now n w.disk) (ground arith) (safe.stored q h)

  -- Nothing to write: a 304, or the revision in use once more.
  nothing_to_write :
      (w : World) (a : Attempt) (c : Candidate)
      → IsSafe out settings a.now w
      → IsCandidate out settings w.manager a c
      → (not_modified : Bool) → c.answer.not_modified ≡ not_modified
      → (not not_modified && has_other_revision w.manager.manifest c.manifest) ≡ false
      → IsSafe out settings a.now
          (record w { manager = accepted_manager out settings w.manager a.now c })
  nothing_to_write w a c safe is_c true h k = unchanged-IsSafe w a c safe (is_c.known_list h) h
  nothing_to_write w a c safe is_c false h k =
      take_new out settings w.manager w.disk a c (is_c.opened h) h
        (kept_revision w a c safe w.manager.manifest refl k)

  finish_with-IsSafe :
      (w : World) (a : Attempt) (c : Candidate)
      → IsSafe out settings a.now w
      → IsCandidate out settings w.manager a c
      → (writes raising : Bool)
      → (not c.answer.not_modified && has_other_revision w.manager.manifest c.manifest) ≡ writes
      → raises a.envelope_write ≡ raising
      → IsSafe out settings a.now (finish_with out settings w.manager a c w.disk writes raising).0
  unfolding finish_with
  finish_with-IsSafe w a c safe is_c false raising h k =
      nothing_to_write w a c safe is_c c.answer.not_modified refl h
  finish_with-IsSafe w a c safe is_c true true h k =
      on_failure-IsSafe a.now a write_failed w.manager _
        (newer_file w a c safe is_c (ground arith) a.envelope_write) (omega arith)
  finish_with-IsSafe w a c safe is_c true false h k =
      let other : c.answer.not_modified ≡ false = ground arith in
      take_new out settings w.manager _ a c (is_c.opened other) other (record {
        envelope = c.answer.envelope;
        list = c.manifest;
        file = written_file a.envelope_write c.answer.envelope w.disk k;
        opened = is_c.opened other;
        not_older = omega arith;
      })

  conclude-IsSafe :
      (w : World) (a : Attempt)
      → IsSafe out settings a.now w
      → (r : Result Raised Candidate) → accept out settings w.manager a ≡ r
      → IsSafe out settings a.now (conclude out settings w.manager a r w.disk).0
  unfolding conclude finish
  conclude-IsSafe w a safe (err interrupted) h = safe
  conclude-IsSafe w a safe (err uncaught) h = safe
  conclude-IsSafe w a safe (err (failed e)) h =
      on_failure-IsSafe a.now a e w.manager w.disk safe (omega arith)
  conclude-IsSafe w a safe (ok c) h =
      let snapshot = candidate_snapshot out settings w.manager a.now c in
      let saved = save_state a.state_write snapshot 0 w.disk in
      let kept =
        keep out settings a.now a.now w w.manager saved (omega arith) safe refl refl refl
          (save_state_envelope a.state_write snapshot 0 w.disk) in
      elim (raises a.state_write)
        as (λ b.
          IsSafe out settings a.now
            (if b
              then (on_failure out settings a write_failed w.manager saved, returned false)
              else finish out settings w.manager a c saved).0) [
                | true ↦ on_failure-IsSafe a.now a write_failed w.manager saved kept (omega arith)
                | false ↦
                    finish_with-IsSafe (record { manager = w.manager; disk = saved }) a c kept
                      (accept-IsCandidate out settings w.manager a h) _ _ refl refl
              ]

  pub refresh-IsSafe :
      (now : ℕ) (a : Attempt) (w : World)
      → now ≤ a.now
      → IsSafe out settings now w
      → IsSafe out settings a.now (refresh out settings a w).0
  unfolding refresh
  refresh-IsSafe now a w le safe =
      let m = record w.manager { startup_refresh_pending = false } in
      elim settings.enabled
        as (λ b.
          IsSafe out settings a.now
            (if not b
              then (
                record w {
                  manager = record w.manager { snapshot = pending_snapshot false is_disabled [] };
                },
                returned false,
              )
              else conclude out settings m a (accept out settings m a) w.disk).0) [
                | false ↦ keep out settings now a.now w _ w.disk le safe refl refl refl refl
                | true ↦
                    conclude-IsSafe (record w { manager = m }) a
                      (keep out settings now a.now w m w.disk le safe refl refl refl refl)
                      (accept out settings m a) refl
              ]
