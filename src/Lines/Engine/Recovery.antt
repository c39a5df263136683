-- ===== src/Lines/Engine/Recovery.antt =====
-- An engine whose process has ended is started again (`poll`).
use steam_download_pumper.Common.{
  ℕ, ap, ◌∙◌, ◌+◌, ◌*◌, ◌≤◌, ◌≡◌, false, Option, none, some, is_none, List, [], ◌∷◌, arith,
}
use steam_download_pumper.Common.Text.{Text}
use steam_download_pumper.Fleet.Clock.{second}
use steam_download_pumper.Fleet.Controller.State.{downloading}
use steam_download_pumper.Lines.Engine.{
  EngineProcess, schedule_restart, Launch, spawned, start, Event, status_report, consume_status,
  consume, drain, restart_if_due, on_exit, poll,
}
use steam_download_pumper.Lines.Engine.Cycle.{restart_delay_bounds}
use steam_download_pumper.Lines.Engine.Counted.{drain-IsSameProcess}

-- The end of a process was found, and its bytes are carried.
record IsFound (now : ℕ) (before after : EngineProcess) : Type 0 where
  process : after.process ≡ none
  stop : after.stop_requested ≡ false
  total : after.total_bytes ≡ before.total_bytes
  offset : after.byte_offset ≡ before.total_bytes
  next : after.next_restart_at ≤ now + 60 * second

on_exit-IsFound :
    (error : Text) (launched : Launch) (now : ℕ) (e : EngineProcess)
    → e.stop_requested ≡ false
    → IsFound now e (on_exit error launched now e)
unfolding on_exit restart_if_due schedule_restart
on_exit-IsFound error launched now e on =
    ground (arith, restart_delay_bounds (e.consecutive_failures + 1))

poll-IsFound :
    (events : List Event) (error : Text) (launched : Launch) (now : ℕ) (e : EngineProcess)
    → (drain events e).stop_requested ≡ false
    → is_none e.process ≡ false
    → IsFound now (drain events e) (poll events (some error) launched now e)
unfolding poll
poll-IsFound events error launched now e on runs =
    rw runs (on_exit-IsFound error launched now (drain events e) on)

poll_launches :
    (idle : List Event) (pid later : ℕ) (e : EngineProcess)
    → e.process ≡ none
    → e.stop_requested ≡ false
    → e.next_restart_at ≤ later
    → let after = poll idle none (spawned pid) later e in
      (after.process ≡ some pid)
      × (after.status ≡ downloading)
      × (after.total_bytes ≡ e.total_bytes)
      × (after.byte_offset ≡ e.byte_offset)
unfolding poll restart_if_due start
poll_launches idle pid later e gone on wait = ground arith

poll_reports :
    (n : ℕ) (connections : Option ℕ) (url : Option Text) (again : Launch) (last : ℕ)
    (e : EngineProcess) (pid : ℕ)
    → e.process ≡ some pid
    → (poll (status_report (some n) connections url ∷ []) none again last e).total_bytes
      ≡ e.byte_offset + n
unfolding poll drain consume consume_status
poll_reports n connections url again last e pid runs = ground arith

-- An engine that is not to stop comes back after its process has ended: the poll that finds the
-- end counts the last output, a poll a minute later that can launch a process has it download
-- again, and what the new process reports is added to what was counted before.
pub poll_recovers :
    (events idle : List Event) (error : Text) (launched again : Launch) (pid now later last n : ℕ)
    (connections : Option ℕ) (url : Option Text) (e : EngineProcess)
    → e.stop_requested ≡ false
    → is_none e.process ≡ false
    → now + 60 * second ≤ later
    → let found = poll events (some error) launched now e in
      let after = poll idle none (spawned pid) later found in
      let reported = poll (status_report (some n) connections url ∷ []) none again last after in
      (found.process ≡ none)
      × (found.total_bytes ≡ (drain events e).total_bytes)
      × (after.process ≡ some pid)
      × (after.status ≡ downloading)
      × (reported.total_bytes ≡ (drain events e).total_bytes + n)
poll_recovers events idle error launched again pid now later last n connections url e on runs wait =
    let same = drain-IsSameProcess events e in
    let found = poll-IsFound events error launched now e (same.stop ∙ on) runs in
    let (process, status, total, offset) =
      poll_launches idle pid later (poll events (some error) launched now e) found.process
        found.stop (omega (arith, found.next)) in
    (
      found.process,
      found.total,
      process,
      status,
      poll_reports n connections url again last _ pid process
          ∙ ap (λ m. m + n) (offset ∙ found.offset),
    )
