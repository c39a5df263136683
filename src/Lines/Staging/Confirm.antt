-- ===== src/Lines/Staging/Confirm.antt =====
-- A generation of sources is confirmed by the process that runs with it (`stage_sources`,
-- `_consume_line`, `_confirm_source_generation`).
use steam_download_pumper.Common.{
  ◌≡◌, ◌≢◌, ℕ, refl, ap, ◌∙◌, Bool, true, false, ◌||◌, not, Option, none, is_none, List, [], ◌∷◌,
  ◌==◌, length, arith, All, Bool-cases, inl, inr,
}
use steam_download_pumper.Common.Text.{Text, text_eq, text_eq_refl, text_eq→eq}
use steam_download_pumper.Lines.Engine.{
  EngineProcess, Event, SourceEvent, no_json, reload_failed, reloaded, status_report, source_report,
  confirm_generation, consume_status, consume_source, consume, drain,
}
use steam_download_pumper.Lines.Staging.{stage_sources, generation_confirmed}

-- The pending and the confirmed generation are as they were.
record IsSame (before after : EngineProcess) : Type 0 where
  pending : after.pending_generation ≡ before.pending_generation
  confirmed : after.confirmed_generation ≡ before.confirmed_generation

consume_status-IsSame :
    (bytes connections : Option ℕ) (url : Option Text) (e : EngineProcess)
    → IsSame e (consume_status bytes connections url e)
unfolding consume_status
consume_status-IsSame bytes connections url e = ground arith

consume_source-IsSame : (v : SourceEvent) (e : EngineProcess) → IsSame e (consume_source v e)
unfolding consume_source
consume_source-IsSame v e = ground arith

consume-IsSame :
    (v : Event) (e : EngineProcess) → v ≢ reloaded e.pending_generation → IsSame e (consume v e)
unfolding consume confirm_generation
consume-IsSame (no_json line) e h = record { pending = refl; confirmed = refl }
consume-IsSame (reload_failed g error) e h = ground arith
consume-IsSame (reloaded generation) e h =
    elim (Bool-cases (text_eq generation e.pending_generation)) [
      | inl same ↦ absurd (h (ap reloaded (text_eq→eq _ _ same)))
      | inr differs ↦ rw differs (record { pending = refl; confirmed = refl })
    ]
consume-IsSame (status_report bytes connections url) e h =
    consume_status-IsSame bytes connections url e
consume-IsSame (source_report v) e h = consume_source-IsSame v e

drain-IsSame :
    (vs : List Event) (e : EngineProcess)
    → All (λ v. v ≢ reloaded e.pending_generation) vs
    → IsSame e (drain vs e)
unfolding drain
drain-IsSame [] e h = record { pending = refl; confirmed = refl }
drain-IsSame (v ∷ vs) e h =
    let first = consume-IsSame v e h.0 in
    let later = drain-IsSame vs (consume v e) (rw first.pending h.1) in
    record {
      pending = later.pending ∙ first.pending;
      confirmed = later.confirmed ∙ first.confirmed;
    }

confirm_pending :
    (generation : Text) (e : EngineProcess)
    → e.pending_generation ≡ generation
    → text_eq (consume (reloaded generation) e).confirmed_generation generation ≡ true
unfolding consume confirm_generation
confirm_pending generation e h = rw (h, text_eq_refl generation) (text_eq_refl generation)

module _ (sources : List Text) (generation : Text) (alive : Bool) (e : EngineProcess) where
  staged_waits :
      (length sources == 0) ≡ false
      → (length generation == 0) ≡ false
      → (is_none e.process || not alive) ≡ false
      → let staged = (stage_sources sources generation none alive none e).0 in
        (staged.pending_generation ≡ generation)
        × (staged.confirmed_generation ≡ e.confirmed_generation)
  unfolding stage_sources
  staged_waits some_source some_text present = rw (some_source, some_text, present) (refl, refl)

  staged_confirms :
      (length sources == 0) ≡ false
      → (length generation == 0) ≡ false
      → (is_none e.process || not alive) ≡ true
      → let staged = (stage_sources sources generation none alive none e).0 in
        (staged.pending_generation ≡ []) × (staged.confirmed_generation ≡ generation)
  unfolding stage_sources confirm_generation
  staged_confirms some_source some_text absent =
      rw (some_source, some_text, absent, text_eq_refl generation) (refl, refl)

-- A new generation that is staged for a living process stays unconfirmed through any events but the
-- report of its own reload, and is confirmed when that report comes; where there is no process, or
-- it does not live, it is confirmed at once, and stays so through any events but the report of a
-- reload of an empty generation.
pub stage_sources_lem :
    (sources : List Text) (generation : Text) (alive : Bool) (e : EngineProcess) (vs : List Event)
    → (length sources == 0) ≡ false
    → (length generation == 0) ≡ false
    → text_eq e.confirmed_generation generation ≡ false
    → let staged = (stage_sources sources generation none alive none e).0 in
      ((is_none e.process || not alive) ≡ false
        → All (λ v. v ≢ reloaded generation) vs
        → (generation_confirmed generation (drain vs staged) ≡ false)
          × (generation_confirmed generation (consume (reloaded generation) (drain vs staged))
              ≡ true))
      × ((is_none e.process || not alive) ≡ true
          → All (λ v. v ≢ reloaded []) vs
          → generation_confirmed generation (drain vs staged) ≡ true)
unfolding generation_confirmed
stage_sources_lem sources generation alive e vs some_source some_text new =
    let staged = (stage_sources sources generation none alive none e).0 in
    (
      λ present passed.
          let here = staged_waits sources generation alive e some_source some_text present in
          let after = drain-IsSame vs staged (rw here.0 passed) in
          let is_pending = after.pending ∙ here.0 in
          (
            rw (after.confirmed, here.1) new,
            confirm_pending generation (drain vs staged) is_pending,
          ),
      λ absent passed.
          let here = staged_confirms sources generation alive e some_source some_text absent in
          let after = drain-IsSame vs staged (rw here.0 passed) in
          rw (after.confirmed, here.1) (text_eq_refl generation),
    )
