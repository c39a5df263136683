-- ===== src/Lines/Engine/Counted.antt =====
-- The bytes that the operations of an engine count, against the reports that they saw.
use steam_download_pumper.Common.{
  ℕ, Bool-cases, inl, inr, sym, ◌∙◌, subst, not, ◌&&◌, ◌||◌, leb, if◌then◌else◌, ◌+◌, ◌≡◌, refl,
  Bool, true, false, Option, none, some, is_none, List, [], ◌∷◌, arith,
}
use steam_download_pumper.Common.Text.{Text}
use steam_download_pumper.Lines.Staging.{set_sources, stage_sources}
use steam_download_pumper.Lines.Engine.{
  EngineProcess, schedule_restart, Launch, spawned, refused, start, confirm_generation, Event,
  no_json, reload_failed, reloaded, status_report, source_report, consume_status, consume_source,
  consume, drain, restart_if_due, on_exit, poll, set_connections,
}
use steam_download_pumper.Lines.Engine.Cycle.{IsSound, restart_delay_bounds, drain-IsSound}

-- The bytes that a history has counted: those of the processes whose end was found, and the last
-- report since.
pub record Counted : Type 0 where
  pub ended : ℕ
  pub present : ℕ

-- The last report of bytes among the events, or the one before them.
unfoldable pub last_report : ℕ → List Event → ℕ
last_report n [] = n
last_report n (status_report (some bytes) connections url ∷ vs) = last_report bytes vs
last_report n (v ∷ vs) = last_report n vs

-- The process is written off.
abbrev pub written_off : Counted → Counted
written_off c = record { ended = c.ended + c.present; present = 0 }

-- A launch that is refused counts as an end.
unfoldable pub count_start : Bool → Launch → EngineProcess → Counted → Counted
count_start alive launched e c =
    if not (is_none e.process) && alive
    then c
    else elim launched [ spawned pid ↦ c | refused error ↦ written_off c ]

unfoldable pub count_poll :
    List Event → Option Text → Launch → ℕ → EngineProcess → Counted → Counted
count_poll events exit launched now e c =
    if is_none e.process
    then (if not e.stop_requested && leb e.next_restart_at now
        then count_start false launched e c
        else c)
    else (let seen = record c { present = last_report c.present events } in
        if is_none exit || e.stop_requested then seen else written_off seen)

-- The engine's fields hold what was counted.
pub record IsCounted (e : EngineProcess) (c : Counted) : Type 0 where
  pub offset : e.byte_offset ≡ c.ended
  pub process : e.process_bytes ≡ c.present

pub start-IsCounted :
    (alive : Bool) (launched : Launch) (now : ℕ) (e : EngineProcess) (c : Counted)
    → IsSound e
    → IsCounted e c
    → IsCounted (start alive launched now e) (count_start alive launched e c)
unfolding start schedule_restart count_start
start-IsCounted alive (spawned pid) now e c s h = ground arith
start-IsCounted alive (refused error) now e c s h = ground arith

consume-IsCounted :
    (v : Event) (vs : List Event) (e : EngineProcess) (c : Counted)
    → IsCounted e c
    → (n : ℕ) × (last_report c.present (v ∷ vs) ≡ last_report n vs)
      × IsCounted (consume v e) (record c { present = n })
unfolding consume confirm_generation consume_status consume_source last_report
consume-IsCounted (no_json line) vs e c h = (c.present, refl, ground arith)
consume-IsCounted (reload_failed g error) vs e c h = (c.present, refl, ground arith)
consume-IsCounted (reloaded g) vs e c h = (c.present, refl, ground arith)
consume-IsCounted (status_report none connections url) vs e c h = (c.present, refl, ground arith)
consume-IsCounted (status_report (some n) connections url) vs e c h = (n, refl, ground arith)
consume-IsCounted (source_report v) vs e c h = (c.present, refl, ground arith)

drain-IsCounted :
    (vs : List Event) (e : EngineProcess) (c : Counted)
    → IsCounted e c
    → IsCounted (drain vs e) (record c { present = last_report c.present vs })
unfolding drain last_report
drain-IsCounted [] e c h = h
drain-IsCounted (v ∷ vs) e c h =
    let (n, same, first) = consume-IsCounted v vs e c h in
    subst (λ m. IsCounted (drain vs (consume v e)) (record c { present = m })) (sym same)
      (drain-IsCounted vs (consume v e) (record c { present = n }) first)

-- Reading the output leaves the process and the wish to stop.
pub record IsSameProcess (before after : EngineProcess) : Type 0 where
  pub process : after.process ≡ before.process
  pub stop : after.stop_requested ≡ before.stop_requested

consume-IsSameProcess : (v : Event) (e : EngineProcess) → IsSameProcess e (consume v e)
unfolding consume confirm_generation consume_status consume_source
consume-IsSameProcess (no_json line) e = ground arith
consume-IsSameProcess (reload_failed g error) e = ground arith
consume-IsSameProcess (reloaded g) e = ground arith
consume-IsSameProcess (status_report bytes connections url) e = ground arith
consume-IsSameProcess (source_report v) e = ground arith

pub drain-IsSameProcess : (vs : List Event) (e : EngineProcess) → IsSameProcess e (drain vs e)
unfolding drain
drain-IsSameProcess [] e = record { process = refl; stop = refl }
drain-IsSameProcess (v ∷ vs) e =
    let first = consume-IsSameProcess v e in
    let later = drain-IsSameProcess vs (consume v e) in
    record { process = later.process ∙ first.process; stop = later.stop ∙ first.stop }

-- An engine whose end is found is not due at once.
on_exit-IsCounted :
    (error : Text) (launched : Launch) (now : ℕ) (e : EngineProcess) (c : Counted)
    → IsSound e
    → IsCounted e c
    → IsCounted (on_exit error launched now e) (if e.stop_requested then c else written_off c)
unfolding on_exit restart_if_due schedule_restart
on_exit-IsCounted error launched now e c s h =
    ground (arith, restart_delay_bounds (e.consecutive_failures + 1))

restart_if_due-IsCounted :
    (launched : Launch) (now : ℕ) (e : EngineProcess) (c : Counted)
    → is_none e.process ≡ true
    → IsSound e
    → IsCounted e c
    → IsCounted (restart_if_due launched now e) (
        if not e.stop_requested && leb e.next_restart_at now
        then count_start false launched e c
        else c)
unfolding restart_if_due
restart_if_due-IsCounted launched now e c gone s h =
    by_due (not e.stop_requested && leb e.next_restart_at now) _ (ground arith)
      (start-IsCounted false launched now e c s h)
  where
    by_due :
        (due other : Bool)
        → other ≡ due
        → IsCounted (start false launched now e) (count_start false launched e c)
        → IsCounted
            (if other then start false launched now e else e)
            (if due then count_start false launched e c else c)
    by_due true true same k = k
    by_due false false same k = h
    by_due true false same k = cc
    by_due false true same k = cc

pub poll-IsCounted :
    (events : List Event) (exit : Option Text) (launched : Launch) (now : ℕ) (e : EngineProcess)
    (c : Counted)
    → IsSound e
    → IsCounted e c
    → IsCounted (poll events exit launched now e) (count_poll events exit launched now e c)
unfolding poll count_poll
poll-IsCounted events exit launched now e c s h = elim (Bool-cases (is_none e.process)) [
  | inl gone ↦ rw gone (restart_if_due-IsCounted launched now e c gone s h)
  | inr present ↦ rw present (by_exit exit)
]
  where
    by_exit :
        (exit : Option Text)
        → let seen : Counted = record c { present = last_report c.present events } in
          IsCounted
            (elim exit [
              | none ↦ drain events e
              | some error ↦ on_exit error launched now (drain events e)
            ])
            (if is_none exit || e.stop_requested then seen else written_off seen)
    by_exit none = drain-IsCounted events e c h
    by_exit (some error) =
        subst
          (λ b.
            let seen : Counted = record c { present = last_report c.present events } in
            IsCounted (on_exit error launched now (drain events e))
              (if b then seen else written_off seen))
          (drain-IsSameProcess events e).stop
          (on_exit-IsCounted error launched now (drain events e) _ (drain-IsSound events e s)
            (drain-IsCounted events e c h))

pub set_connections-IsCounted :
    (target maximum : ℕ) (alive resized : Bool) (e : EngineProcess) (c : Counted)
    → IsCounted e c
    → IsCounted (set_connections target maximum alive resized e) c
unfolding set_connections
set_connections-IsCounted target maximum alive resized e c h = ground arith

pub set_sources-IsCounted :
    (sources : List Text) (writes : Bool) (e : EngineProcess) (c : Counted)
    → IsCounted e c
    → IsCounted (set_sources sources writes e).0 c
unfolding set_sources
set_sources-IsCounted sources writes e c h = ground arith

pub stage_sources-IsCounted :
    (sources : List Text) (generation : Text) (write_error : Option Text) (alive : Bool)
    (signal_error : Option Text) (e : EngineProcess) (c : Counted)
    → IsCounted e c
    → IsCounted (stage_sources sources generation write_error alive signal_error e).0 c
unfolding stage_sources confirm_generation
stage_sources-IsCounted sources generation none alive none e c h = ground arith
stage_sources-IsCounted sources generation none alive (some error) e c h = ground arith
stage_sources-IsCounted sources generation (some error) alive signal_error e c h = ground arith
