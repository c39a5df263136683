-- ===== src/Lines/Sources/Applied.antt =====
-- When a refreshed list takes effect in steam_pumper/controller.py.
use steam_download_pumper.Common.{
  ℕ, All, arith, ◌∷◌, ◌≡◌, ◌⊎◌, inl, inr, refl, Bool, true, false, List, [], leb, ◌==◌, length,
  if◌then◌else◌,
}
use steam_download_pumper.Common.Text.{Text, text_eq→eq, text_eq_refl}
use steam_download_pumper.Lines.Engine.{EngineProcess}
use steam_download_pumper.Lines.Staging.{generation_confirmed}
use steam_download_pumper.Lines.Sources.{
  StageEnd, remote, PumperSources, all_confirmed, stage_pending, applied, retried, advance_pending,
}

-- The pool in use and the pending one are as they were.
pub record IsWaiting (before after : PumperSources) : Type 0 where
  pub pool : after.effective_source_pool ≡ before.effective_source_pool
  pub revision : after.active_source_revision ≡ before.active_source_revision
  pub pending_pool : after.pending_source_pool ≡ before.pending_source_pool
  pub pending_revision : after.pending_source_revision ≡ before.pending_source_revision
  pub pending_generation : after.pending_source_generation ≡ before.pending_source_generation

-- The engine runs with that generation of sources.
abbrev pub RunsWith : Text → EngineProcess → Type 0
RunsWith generation e = e.confirmed_generation ≡ generation

-- Every engine runs with the pending list, which is in use now, and nothing is pending any more.
pub record IsApplied (before after : PumperSources) : Type 0 where
  pub was_pending : (length before.pending_source_generation == 0) ≡ false
  pub confirmed : All (RunsWith before.pending_source_generation) before.engines
  pub pool : after.effective_source_pool ≡ before.pending_source_pool
  pub revision : after.active_source_revision ≡ before.pending_source_revision
  pub origin : after.effective_source_origin ≡ remote
  pub no_pool : after.pending_source_pool ≡ []
  pub done : after.pending_source_generation ≡ []

all_confirmed→All :
    (generation : Text) (engines : List EngineProcess)
    → all_confirmed generation engines ≡ true
    → All (RunsWith generation) engines
unfolding all_confirmed generation_confirmed
all_confirmed→All generation [] h = tt
all_confirmed→All generation (e ∷ es) h =
    (text_eq→eq _ _ (ground (arith, h)), all_confirmed→All generation es (ground (arith, h)))

All→all_confirmed :
    (generation : Text) (engines : List EngineProcess)
    → All (RunsWith generation) engines
    → all_confirmed generation engines ≡ true
unfolding all_confirmed generation_confirmed
All→all_confirmed generation [] h = refl
All→all_confirmed generation (e ∷ es) h =
    rw (h.0, text_eq_refl generation) (All→all_confirmed generation es h.1)

IsWaiting-refl : (s : PumperSources) → IsWaiting s s
IsWaiting-refl s = record {
  pool = refl;
  revision = refl;
  pending_pool = refl;
  pending_revision = refl;
  pending_generation = refl;
}

module _ (ends : EngineProcess → StageEnd) (describe : EngineProcess → Text) (str : ℕ → Text) where
  stage_pending-IsWaiting :
      (now : ℕ) (s : PumperSources) → IsWaiting s (stage_pending ends describe str now s)
  unfolding stage_pending
  stage_pending-IsWaiting now s = by_pending (length s.pending_source_generation == 0) _ _ _ _
    where
      by_pending :
          (nothing : Bool) (engines : List EngineProcess) (attempts : ℕ) (errors : List Text)
          (at : ℕ)
          → IsWaiting s (
              if nothing then s else record s {
                engines = engines;
                source_apply_attempts = attempts;
                source_apply_error = errors;
                source_apply_retry_at = at;
              })
      by_pending true engines attempts errors at = IsWaiting-refl s
      by_pending false engines attempts errors at = record {
        pool = refl;
        revision = refl;
        pending_pool = refl;
        pending_revision = refl;
        pending_generation = refl;
      }

  retried-IsWaiting : (now : ℕ) (s : PumperSources) → IsWaiting s (retried ends describe str now s)
  unfolding retried
  retried-IsWaiting now s = by_time (leb s.source_apply_retry_at now) _
    where
      shown_waits :
          (errors : List Text) (after : PumperSources)
          → IsWaiting (record s { source_apply_error = errors }) after
          → IsWaiting s after
      shown_waits errors after h = record {
        pool = h.pool;
        revision = h.revision;
        pending_pool = h.pending_pool;
        pending_revision = h.pending_revision;
        pending_generation = h.pending_generation;
      }

      by_time :
          (is_time : Bool) (errors : List Text)
          → IsWaiting s (
              if is_time
              then stage_pending ends describe str now (record s { source_apply_error = errors })
              else record s { source_apply_error = errors })
      by_time true errors =
          shown_waits errors _
            (stage_pending-IsWaiting now (record s { source_apply_error = errors }))
      by_time false errors = shown_waits errors _ (IsWaiting-refl _)

  -- A step puts the pending list to use, and wholly, exactly where there is one and every engine
  -- runs with its generation; else it leaves the pool in use and the pending list as they are.
  pub advance_pending_lem :
      (now : ℕ) (s : PumperSources)
      → let s' = advance_pending ends describe str now s in
        (IsWaiting s s' ⊎ IsApplied s s')
        × ((length s.pending_source_generation == 0) ≡ false
            → All (RunsWith s.pending_source_generation) s.engines
            → IsApplied s s')
  unfolding advance_pending
  advance_pending_lem now s = (
    by_state (length s.pending_source_generation == 0)
        (all_confirmed s.pending_source_generation s.engines) refl refl,
    λ pending confirmed.
        by_confirmed (length s.pending_source_generation == 0)
          (all_confirmed s.pending_source_generation s.engines) pending
          (All→all_confirmed s.pending_source_generation s.engines confirmed) pending confirmed,
  )
    where
      by_confirmed :
          (nothing confirmed : Bool)
          → nothing ≡ false
          → confirmed ≡ true
          → (length s.pending_source_generation == 0) ≡ false
          → All (RunsWith s.pending_source_generation) s.engines
          → IsApplied s (
              if nothing
              then s
              else if confirmed
              then applied ends describe str s
              else retried ends describe str now s)
      by_confirmed true confirmed h k pending all = cc
      by_confirmed false false h k pending all = cc
      by_confirmed false true h k pending all = record {
        was_pending = pending;
        confirmed = all;
        pool = refl;
        revision = refl;
        origin = refl;
        no_pool = refl;
        done = refl;
      }

      by_state :
          (nothing confirmed : Bool)
          → (length s.pending_source_generation == 0) ≡ nothing
          → all_confirmed s.pending_source_generation s.engines ≡ confirmed
          → let s' =
              if nothing
              then s
              else if confirmed
              then applied ends describe str s
              else retried ends describe str now s in
            IsWaiting s s' ⊎ IsApplied s s'
      by_state true confirmed h k = inl (IsWaiting-refl s)
      by_state false true h k = inr (record {
        was_pending = h;
        confirmed = all_confirmed→All _ _ k;
        pool = refl;
        revision = refl;
        origin = refl;
        no_pool = refl;
        done = refl;
      })
      by_state false false h k = inl (retried-IsWaiting now s)
