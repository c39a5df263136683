-- ===== src/Fleet/Controller/Engines/Healthy.antt =====
-- The lines that `_poll_engines` leaves running are alive: none is stopped, and each has made
-- progress within the stall time.
use steam_download_pumper.Common.{
  ℕ, ◌-◌, ◌*◌, ◌<◌, ◌≡◌, ◌≢◌, refl, false, none, some, or_else, List, [], ◌∷◌, arith, Bool-cases,
  Option-cases, inl, inr, ap, ◌∙◌, sym, subst,
}
use steam_download_pumper.Common.Text.{
  Text, text_eq, text_in, text_eq_iff, text_eq_refl, text_eq_sym,
}
use steam_download_pumper.Common.Dict.{Dict, insert, erase, keys, lookup}
use steam_download_pumper.Common.Dict.Laws.{
  IsDistinct, lookup-insert, lookup-erase, keys-insert-IsDistinct, keys-erase-IsDistinct,
  text_in-keys,
}
use steam_download_pumper.Fleet.Clock.{second}
use steam_download_pumper.Fleet.Floats.{FloatArith}
use steam_download_pumper.Fleet.Config.{FleetConfig}
use steam_download_pumper.Fleet.Controller.State.{
  stopped, Engine, ActiveLine, Controller, stop_line, quarantine,
}
use steam_download_pumper.Fleet.Controller.Health.{line_health_failure}
use steam_download_pumper.Fleet.Controller.Engines.{
  Polling, polled_line, is_stopped, settle, poll_line, poll_lines, poll_engines,
}

module _ (float : FloatArith) (cfg : FleetConfig) (poll : Text → ActiveLine → Engine) where
  -- The line is not stopped, and its last progress is recent.
  pub record IsAlive (now : ℕ) (line : ActiveLine) : Type 0 where
    pub not_stopped : line.engine.status ≢ stopped
    pub progressed :
        now - or_else line.last_progress_at line.started_at < cfg.line_stall_seconds * second

  -- After a round the line is gone, or it is alive; every other line is as it was.
  abbrev Settled : ℕ → Text → Dict ActiveLine → Dict ActiveLine → Type 0
  Settled now id before lines =
      IsDistinct (keys lines)
      × ((l : ActiveLine) → lookup id lines ≡ some l → IsAlive now l)
      × ((j : Text) → text_eq id j ≡ false → lookup j lines ≡ lookup j before)

  judged-IsAlive :
      (now : ℕ) (line : ActiveLine)
      → is_stopped line.engine.status ≡ false
      → (line_health_failure float cfg line now).1 ≡ none
      → IsAlive now (line_health_failure float cfg line now).0
  unfolding line_health_failure
  judged-IsAlive now line up fine = record {
    not_stopped = λ e. ground arith;
    progressed = ground arith;
  }

  erased_lem :
      (id : Text) (now : ℕ) (before d : Dict ActiveLine)
      → IsDistinct (keys d)
      → ((j : Text) → text_eq id j ≡ false → lookup j d ≡ lookup j before)
      → Settled now id before (erase id d)
  erased_lem id now before d distinct same =
      let gone : lookup id (erase id d) ≡ none =
        ground (arith, lookup-erase id id d distinct, text_eq_refl id) in
      (
        keys-erase-IsDistinct id d distinct,
        λ l e. cc,
        λ j ne. ground (arith, lookup-erase id j d distinct, same j),
      )

  inserted_lem :
      (id : Text) (now : ℕ) (line : ActiveLine) (d : Dict ActiveLine)
      → IsDistinct (keys d)
      → IsAlive now line
      → Settled now id d (insert id line d)
  inserted_lem id now line d distinct alive = (
    keys-insert-IsDistinct id line d distinct,
    λ l e.
        let here : lookup id (insert id line d) ≡ some line =
          ground (arith, lookup-insert id id line d, text_eq_refl id) in
        let same : line ≡ l = cc in subst (IsAlive now) same alive,
    λ j ne. ground (arith, lookup-insert id j line d),
  )

  settle_lem :
      (id : Text) (now : ℕ) (line : ActiveLine) (p : Polling)
      → IsDistinct (keys p.controller.active)
      → Settled now id p.controller.active (settle float cfg poll id now line p).controller.active
  unfolding settle stop_line quarantine
  settle_lem id now line p d =
      let active = p.controller.active in
      let trimmed = (line_health_failure float cfg line now).0 in
      let verdict = (line_health_failure float cfg line now).1 in
      elim (Bool-cases (is_stopped line.engine.status)) [
        | inl down ↦ rw (down, settle) (erased_lem id now active active d (λ j ne. refl))
        | inr up ↦ elim (Option-cases verdict) [
          | inl fine ↦
              rw (up, fine, settle)
                (inserted_lem id now trimmed active d (judged-IsAlive now line up fine))
          | inr (reason, ill) ↦
              rw (up, ill, settle)
                (erased_lem id now active (insert id trimmed active)
                  (keys-insert-IsDistinct id trimmed active d)
                  (λ j ne. ground (arith, lookup-insert id j trimmed active)))
        ]
      ]

  poll_line_lem :
      (now : ℕ) (id : Text) (line : ActiveLine) (p : Polling)
      → IsDistinct (keys p.controller.active)
      → Settled now id p.controller.active
          (poll_line float cfg poll now (id, line) p).controller.active
  unfolding poll_line
  poll_line_lem now id line p d =
      let engine = poll id line in
      let polled = polled_line engine now line in
      let active = p.controller.active in
      let (distinct, alive, same) =
        settle_lem id now polled _ (keys-insert-IsDistinct id polled active d) in
      (distinct, alive, λ j ne. same j ne ∙ ground (arith, lookup-insert id j polled active))

  -- The lines whose ids are not in `todo` are alive.
  abbrev AliveBut : ℕ → List Text → Dict ActiveLine → Type 0
  AliveBut now todo lines =
      (j : Text) (l : ActiveLine) → text_in j todo ≡ false → lookup j lines ≡ some l → IsAlive now l

  poll_lines_lem :
      (now : ℕ) (entries : Dict ActiveLine) (p : Polling)
      → IsDistinct (keys p.controller.active)
      → AliveBut now (keys entries) p.controller.active
      → let lines = (poll_lines float cfg poll now entries p).controller.active in
        IsDistinct (keys lines) × AliveBut now [] lines
  unfolding poll_lines text_in
  poll_lines_lem now [] p d alive = (d, alive)
  poll_lines_lem now ((id, line) ∷ rest) p d alive =
      let next = poll_line float cfg poll now (id, line) p in
      let (distinct, here, same) = poll_line_lem now id line p d in
      poll_lines_lem now rest next distinct (λ j l out e. elim (Bool-cases (text_eq id j)) [
        | inl this ↦
            let named : id ≡ j = (text_eq_iff id j).0 this in
            here l (ap (λ k. lookup k next.controller.active) named ∙ e)
        | inr other ↦ alive j l (ground (arith, text_eq_sym id j)) (sym (same j other) ∙ e)
      ])

  -- With one line for an account at most, every line that `_poll_engines` leaves active is one
  -- whose engine has not stopped and whose last progress, or start, is less than the stall time
  -- back; and there is still one line for an account at most.
  pub poll_engines-IsAlive :
      (now : ℕ) (s : Controller)
      → IsDistinct (keys s.active)
      → let lines = (poll_engines float cfg poll now s).0.active in
        IsDistinct (keys lines)
        × ((id : Text) (l : ActiveLine) → lookup id lines ≡ some l → IsAlive now l)
  unfolding poll_engines text_in
  poll_engines-IsAlive now s d =
      let fresh : Polling = record {
        controller = s;
        aggregate_delta = 0;
        replacement_needed = false;
      } in
      let (distinct, alive) =
        poll_lines_lem now s.active fresh d
          (λ j l out e. ground (arith, text_in-keys j s.active)) in
      (distinct, λ id l e. alive id l refl e)
