-- ===== src/Remote/Manager/Safe.antt =====
-- The list in use over the refreshes and restarts of steam_pumper/remote_sources.py.
use steam_download_pumper.Common.{
  ℕ, ◌≤◌, ◌≡◌, refl, sym, ◌∙◌, subst, false, Option, none, some, [], arith,
}
use steam_download_pumper.Common.Text.{Text}
use steam_download_pumper.Common.Result.{ok}
use steam_download_pumper.Remote.Payload.{RemoteSourceManifest, urls}
use steam_download_pumper.Remote.Envelope.{RemoteSourceSettings, ran}
use steam_download_pumper.Remote.Manager.{bytes, Disk, Manager, World, Outside, initial}
use steam_download_pumper.Remote.Manager.Load.{open_envelope}
use steam_download_pumper.Remote.Manager.Refresh.{Attempt, Candidate, accepted_manager}
use steam_download_pumper.Remote.Manager.Accepted.{open_envelope-later}

-- The revision in use, or 0.
abbrev pub revision_of : Manager → ℕ
revision_of m = elim m.manifest [ none ↦ 0 | some p ↦ p.revision ]

module _ (out : Outside) (settings : RemoteSourceSettings) where
  -- The file holds a list that is accepted at `now` and not older than that revision.
  pub record IsStored (now revision : ℕ) (d : Disk) : Type 0 where
    pub envelope : Text
    pub list : RemoteSourceManifest
    pub file : d.envelope_path ≡ bytes envelope
    pub opened : open_envelope out settings now ran envelope ≡ ok list
    pub not_older : revision ≤ list.revision

  -- The list in use is the one of an envelope that is accepted at `now`.
  pub record IsTrusted (now : ℕ) (m : Manager) (p : RemoteSourceManifest) : Type 0 where
    pub envelope : Text
    pub kept : m.envelope_bytes ≡ some envelope
    pub opened : open_envelope out settings now ran envelope ≡ ok p
    pub in_use : m.current_urls ≡ urls p

  -- The URLs in use are those of a trusted list, and the file holds one as new; or there are none.
  pub record IsSafe (now : ℕ) (w : World) : Type 0 where
    pub trusted :
        (p : RemoteSourceManifest) → w.manager.manifest ≡ some p → IsTrusted now w.manager p
    pub stored :
        (p : RemoteSourceManifest) → w.manager.manifest ≡ some p → IsStored now p.revision w.disk
    pub empty : w.manager.manifest ≡ none → w.manager.current_urls ≡ []

  IsStored-later :
      (now later revision : ℕ) (d : Disk)
      → now ≤ later
      → IsStored now revision d
      → IsStored later revision d
  IsStored-later now later revision d le s = record {
    envelope = s.envelope;
    list = s.list;
    file = s.file;
    opened = open_envelope-later out settings now later s.envelope le s.opened;
    not_older = s.not_older;
  }

  IsTrusted-later :
      (now later : ℕ) (m : Manager) (p : RemoteSourceManifest)
      → now ≤ later
      → IsTrusted now m p
      → IsTrusted later m p
  IsTrusted-later now later m p le s = record {
    envelope = s.envelope;
    kept = s.kept;
    opened = open_envelope-later out settings now later s.envelope le s.opened;
    in_use = s.in_use;
  }

  -- What a call may leave behind where it keeps the list: the same envelope file, or a newer one.
  pub keep :
      (now later : ℕ) (w : World) (m : Manager) (d : Disk)
      → now ≤ later
      → IsSafe now w
      → m.manifest ≡ w.manager.manifest
      → m.envelope_bytes ≡ w.manager.envelope_bytes
      → m.current_urls ≡ w.manager.current_urls
      → d.envelope_path ≡ w.disk.envelope_path
      → IsSafe later (record { manager = m; disk = d })
  keep now later w m d le safe manifest envelope current file = record {
    trusted = λ p h.
        let t = IsTrusted-later now later w.manager p le (safe.trusted p (sym manifest ∙ h)) in
        record {
          envelope = t.envelope;
          kept = envelope ∙ t.kept;
          opened = t.opened;
          in_use = current ∙ t.in_use;
        };
    stored = λ p h.
        let s = IsStored-later now later p.revision w.disk le (safe.stored p (sym manifest ∙ h)) in
        record {
          envelope = s.envelope;
          list = s.list;
          file = file ∙ s.file;
          opened = s.opened;
          not_older = s.not_older;
        };
    empty = λ h. current ∙ safe.empty (sym manifest ∙ h);
  }

  -- A new list with its file written.
  pub take_new :
      (m : Manager) (d : Disk) (a : Attempt) (c : Candidate)
      → open_envelope out settings a.now ran c.answer.envelope ≡ ok c.manifest
      → c.answer.not_modified ≡ false
      → IsStored a.now c.manifest.revision d
      → IsSafe a.now (record { manager = accepted_manager out settings m a.now c; disk = d })
  unfolding accepted_manager
  take_new m d a c opened other s = record {
    trusted = λ p h.
        subst (IsTrusted a.now (accepted_manager out settings m a.now c)) (the_list p h) (record {
          envelope = c.answer.envelope;
          kept = ground arith;
          opened = opened;
          in_use = refl;
        });
    stored = λ p h. subst (λ p. IsStored a.now p.revision d) (the_list p h) s;
    empty = λ h. cc;
  }
    where
      the_list : (p : RemoteSourceManifest) → some c.manifest ≡ some p → c.manifest ≡ p
      the_list p h = cc

  -- Before anything is loaded there is no list.
  pub initial-IsSafe :
      (now : ℕ) (d : Disk) → IsSafe now (record { manager = initial settings; disk = d })
  initial-IsSafe now d = record {
    trusted = λ p h. absurd h;
    stored = λ p h. absurd h;
    empty = λ h. refl;
  }
    where
      absurd :
          {A : Type 0} {p : RemoteSourceManifest}
          → ◌≡◌ {A = Option RemoteSourceManifest} none (some p)
          → A
      absurd h = cc
