-- ===== src/Remote/Manager/Run.antt =====
-- Histories of `RemoteSourceManager` in steam_pumper/remote_sources.py: refreshes and restarts in
-- any order, on a clock that does not go back.
use steam_download_pumper.Common.{
  ℕ, subst, ◌≤◌, ◌≡◌, refl, Bool, true, false, not, Option, none, some, [], if◌then◌else◌, arith,
}
use steam_download_pumper.Common.Text.{Text}
use steam_download_pumper.Common.Result.{Result, ok, err}
use steam_download_pumper.Remote.Payload.{RemoteSourceManifest}
use steam_download_pumper.Remote.Envelope.{
  RemoteSourceSettings, Raised, interrupted, failed, uncaught, write_failed, Process, ran,
}
use steam_download_pumper.Remote.Manager.{
  is_disabled, bytes, Disk, Manager, World, Write, raises, Outside, initial, save_state,
  pending_snapshot,
}
use steam_download_pumper.Remote.Manager.Load.{open_envelope, load_last_known_good}
use steam_download_pumper.Remote.Manager.Refresh.{
  Attempt, Candidate, returned, accept, on_failure, accepted_manager, candidate_snapshot, finish,
  finish_with, conclude, refresh,
}
use steam_download_pumper.Remote.Manager.Accepted.{
  IsCandidate, accept-IsCandidate, open_envelope-later,
}
use steam_download_pumper.Remote.Manager.Safe.{revision_of, IsSafe}
use steam_download_pumper.Remote.Manager.Kept.{refresh-IsSafe}
use steam_download_pumper.Remote.Manager.Restarts.{load-IsLoaded}

newer_revision :
    (manifest : Option RemoteSourceManifest) (m : RemoteSourceManifest)
    → ((q : RemoteSourceManifest) → manifest ≡ some q → q.revision ≤ m.revision)
    → ◌≤◌ (elim manifest [ none ↦ 0 | some p ↦ p.revision ]) m.revision
newer_revision none m h = omega arith
newer_revision (some q) m h = h q refl

module _ (out : Outside) (settings : RemoteSourceSettings) where
  finish_with-revision :
      (m : Manager) (a : Attempt) (c : Candidate) (disk : Disk) (writes raising : Bool)
      → IsCandidate out settings m a c
      → revision_of m ≤ revision_of (finish_with out settings m a c disk writes raising).0.manager
  unfolding finish_with accepted_manager on_failure
  finish_with-revision m a c disk false raising is_c =
      newer_revision m.manifest c.manifest is_c.not_older
  finish_with-revision m a c disk true true is_c = omega arith
  finish_with-revision m a c disk true false is_c =
      newer_revision m.manifest c.manifest is_c.not_older

  conclude-revision :
      (m : Manager) (a : Attempt) (disk : Disk) (r : Result Raised Candidate)
      → accept out settings m a ≡ r
      → revision_of m ≤ revision_of (conclude out settings m a r disk).0.manager
  unfolding conclude finish on_failure
  conclude-revision m a disk (err interrupted) h = omega arith
  conclude-revision m a disk (err uncaught) h = omega arith
  conclude-revision m a disk (err (failed e)) h = omega arith
  conclude-revision m a disk (ok c) h =
      let saved = save_state a.state_write (candidate_snapshot out settings m a.now c) 0 disk in
      elim (raises a.state_write)
        as (λ b.
          revision_of m
          ≤ revision_of
              (if b
                then (on_failure out settings a write_failed m saved, returned false)
                else finish out settings m a c saved).0.manager) [
                  | true ↦ omega arith
                  | false ↦
                      finish_with-revision m a c saved _ _ (accept-IsCandidate out settings m a h)
                ]

  -- A refresh does not bring an older list into use.
  pub refresh-revision :
      (a : Attempt) (w : World)
      → revision_of w.manager ≤ revision_of (refresh out settings a w).0.manager
  unfolding refresh
  refresh-revision a w =
      let m = record w.manager { startup_refresh_pending = false } in
      elim settings.enabled
        as (λ b.
          revision_of w.manager
          ≤ revision_of
              (if not b
                then (
                  record w {
                    manager = record w.manager { snapshot = pending_snapshot false is_disabled [] };
                  },
                  returned false,
                )
                else conclude out settings m a (accept out settings m a) w.disk).0.manager) [
                  | false ↦ omega arith
                  | true ↦ conclude-revision m a w.disk (accept out settings m a) refl
                ]

  -- What the program goes through: calls of `refresh`, whatever the server, the verifier and the
  -- disk answer, and restarts that lose the memory and read the file, however the verifier ends. A
  -- restart whose load raises has no manager to go on with.
  pub data Run (t₀ : ℕ) (w₀ : World) : ℕ → World → Type 0 where
    started : Run t₀ w₀ t₀ w₀
    refreshed :
        {t : ℕ} {w : World}
        → Run t₀ w₀ t w
        → (a : Attempt) → t ≤ a.now
        → Run t₀ w₀ a.now (refresh out settings a w).0
    restarted :
        {t : ℕ} {w : World}
        → Run t₀ w₀ t w
        → (now : ℕ) → t ≤ now
        → (process : Process) → (write : Write) → (next : World)
        → load_last_known_good out settings now process write
            (record { manager = initial settings; disk = w.disk })
          ≡ ok next
        → Run t₀ w₀ now next

  -- At each restart the verifier ran to its end.
  pub RunsVerifier : {t₀ : ℕ} {w₀ : World} {t : ℕ} {w : World} → Run t₀ w₀ t w → Type 0
  RunsVerifier started = Unit
  RunsVerifier (refreshed run a le) = RunsVerifier run
  RunsVerifier (restarted run now le process write next h) = (process ≡ ran) × RunsVerifier run

  restart-revision :
      (t now : ℕ) (w next : World)
      → t ≤ now
      → IsSafe out settings t w
      → ((envelope : Text) (m : RemoteSourceManifest)
          → w.disk.envelope_path ≡ bytes envelope
          → open_envelope out settings now ran envelope ≡ ok m
          → next.manager.manifest ≡ some m)
      → revision_of w.manager ≤ revision_of next.manager
  restart-revision t now w next le safe loaded = by_list w.manager.manifest refl
    where
      by_list :
          (manifest : Option RemoteSourceManifest)
          → w.manager.manifest ≡ manifest
          → ◌≤◌ (elim manifest [ none ↦ 0 | some p ↦ p.revision ]) (revision_of next.manager)
      by_list none h = omega arith
      by_list (some p) h =
          let s = safe.stored p h in
          let found =
            loaded s.envelope s.list s.file
              (open_envelope-later out settings t now s.envelope le s.opened) in
          rw (found) s.not_older

  -- Where the list is enabled, from a safe state on, through refreshes and restarts whose load
  -- returns, the list in use stays the list of an envelope that the verifier and the parser accept,
  -- with one as new in the file; and if the verifier ran to its end at each restart, the revision in
  -- use has not fallen.
  pub run-IsSafe :
      (t₀ : ℕ) (w₀ : World) {t : ℕ} {w : World}
      → settings.enabled ≡ true
      → IsSafe out settings t₀ w₀
      → (run : Run t₀ w₀ t w)
      → IsSafe out settings t w
        × (RunsVerifier run → revision_of w₀.manager ≤ revision_of w.manager)
  unfolding RunsVerifier
  run-IsSafe t₀ w₀ on safe started = (safe, λ _. omega arith)
  run-IsSafe t₀ w₀ on safe (refreshed {t = t} {w = w} run a le) =
      let (before, newer) = run-IsSafe t₀ w₀ on safe run in
      (
        refresh-IsSafe out settings t a w le before,
        λ ran_each. omega (arith, newer ran_each, refresh-revision a w),
      )
  run-IsSafe t₀ w₀ on safe (restarted {t = t} {w = w} run now le process write next h) =
      let (before, newer) = run-IsSafe t₀ w₀ on safe run in
      let loaded = load-IsLoaded out settings now process write _ on h in
      (
        loaded.safe,
        λ ran_each. omega (
          arith,
          newer ran_each.1,
          restart-revision t now w next le before (
              subst
                (λ p.
                  (envelope : Text) (m : RemoteSourceManifest)
                  → w.disk.envelope_path ≡ bytes envelope
                  → open_envelope out settings now p envelope ≡ ok m
                  → next.manager.manifest ≡ some m)
                ran_each.0 loaded.list),
        ),
      )
