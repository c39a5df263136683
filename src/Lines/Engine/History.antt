-- ===== src/Lines/Engine/History.antt =====
-- Every history of an engine (`start`, `stop`, `poll`, `set_connections`, `set_sources`,
-- `stage_sources`).
use steam_download_pumper.Common.{ℕ, ◌+◌, ◌≤◌, ◌≡◌, refl, Bool, Option, List, arith}
use steam_download_pumper.Common.Text.{Text}
use steam_download_pumper.Lines.Staging.{set_sources, stage_sources}
use steam_download_pumper.Lines.Engine.{
  EngineProcess, Launch, start, stop, Event, poll, set_connections, new_engine,
}
use steam_download_pumper.Lines.Engine.Cycle.{
  IsSound, start-IsSound, stop-IsSound, set_connections-IsSound, poll-IsSound, set_sources-IsSound,
  stage_sources-IsSound,
}
use steam_download_pumper.Lines.Engine.Counted.{
  Counted, count_start, count_poll, IsCounted, start-IsCounted, poll-IsCounted,
  set_connections-IsCounted, set_sources-IsCounted, stage_sources-IsCounted,
}

-- The operations of an engine, in any order and with any results of the system, and what they
-- count.
pub data Lives : EngineProcess → Counted → Type 0 where
  created :
      (connections : ℕ) (sources : List Text) (generation : Text)
      → 1 ≤ connections
      → connections ≤ 12
      → Lives (new_engine connections sources generation) (record { ended = 0; present = 0 })
  started :
      {e : EngineProcess} {c : Counted} (alive : Bool) (launched : Launch) (now : ℕ)
      → Lives e c
      → Lives (start alive launched now e) (count_start alive launched e c)
  halted : {e : EngineProcess} {c : Counted} → Lives e c → Lives (stop e) c
  polled :
      {e : EngineProcess} {c : Counted} (events : List Event) (exit : Option Text)
      (launched : Launch) (now : ℕ)
      → Lives e c
      → Lives (poll events exit launched now e) (count_poll events exit launched now e c)
  sized :
      {e : EngineProcess} {c : Counted} (target maximum : ℕ) (alive resized : Bool)
      → Lives e c
      → Lives (set_connections target maximum alive resized e) c
  sources_set :
      {e : EngineProcess} {c : Counted} (sources : List Text) (writes : Bool)
      → Lives e c
      → Lives (set_sources sources writes e).0 c
  staged :
      {e : EngineProcess} {c : Counted} (sources : List Text) (generation : Text)
      (write_error : Option Text) (alive : Bool) (signal_error : Option Text)
      → Lives e c
      → Lives (stage_sources sources generation write_error alive signal_error e).0 c

Lives_lem : {e : EngineProcess} {c : Counted} → Lives e c → IsSound e × IsCounted e c
unfolding stop
Lives_lem (created connections sources generation lo hi) = (
  record {
    counted = refl;
    at_least = lo;
    at_most = hi;
    halted = λ _. refl;
    named = λ x. ground arith;
  },
  record { offset = refl; process = refl },
)
Lives_lem (started {e = e} {c = c} alive launched now l) =
    let (s, h) = Lives_lem l in
    (start-IsSound alive launched now e s, start-IsCounted alive launched now e c s h)
Lives_lem (halted {e = e} {c = c} l) =
    let (s, h) = Lives_lem l in
    (stop-IsSound e s, record { offset = h.offset; process = h.process })
Lives_lem (polled {e = e} {c = c} events exit launched now l) =
    let (s, h) = Lives_lem l in
    (poll-IsSound events exit launched now e s, poll-IsCounted events exit launched now e c s h)
Lives_lem (sized {e = e} {c = c} target maximum alive resized l) =
    let (s, h) = Lives_lem l in
    (
      set_connections-IsSound target maximum alive resized e s,
      set_connections-IsCounted target maximum alive resized e c h,
    )
Lives_lem (sources_set {e = e} {c = c} sources writes l) =
    let (s, h) = Lives_lem l in
    (set_sources-IsSound sources writes e s, set_sources-IsCounted sources writes e c h)
Lives_lem (staged {e = e} {c = c} sources generation write_error alive signal_error l) =
    let (s, h) = Lives_lem l in
    (
      stage_sources-IsSound sources generation write_error alive signal_error e s,
      stage_sources-IsCounted sources generation write_error alive signal_error e c h,
    )

-- Through every life of an engine that is created with 1 to 12 connections, its total is what the
-- processes had last reported whose end a poll found, or that a refused launch took the place of,
-- with the last report since; the connections stay from 1 to 12, an engine that is to stop has no
-- process, and one with a process is said to be downloading. The last report of a process that was
-- stopped counts only until the next process reports.
pub Lives-IsSound :
    {e : EngineProcess} {c : Counted}
    → Lives e c
    → IsSound e × (e.total_bytes ≡ c.ended + c.present)
Lives-IsSound l = let (s, h) = Lives_lem l in (s, ground (arith, s.counted, h.offset, h.process))
