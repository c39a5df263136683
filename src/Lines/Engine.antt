-- ===== src/Lines/Engine.antt =====
-- `EngineProcess` of steam_pumper/engine.py: its state, the life cycle of its process, and the
-- events of its output. Whether the process lives, what `Popen` gives and the events that a read
-- finds are arguments; signals, the sources file and log lines are left out.
pub mod Counted
pub mod Cycle
pub mod History
pub mod Recovery
use steam_download_pumper.Common.{
  ℕ, ◌+◌, ◌-◌, ◌*◌, ◌^◌, Bool, true, false, ◌&&◌, ◌||◌, not, Option, none, some, or_else, is_none,
  List, [], ◌∷◌, leb, ltb, ◌==◌, min, max, if◌then◌else◌, length, drop,
}
use steam_download_pumper.Common.Text.{Text, text_eq, text_in}
use steam_download_pumper.Common.Dict.{Dict, lookup, insert, keep_keys}
use steam_download_pumper.Fleet.Clock.{second}
use steam_download_pumper.Fleet.Controller.State.{
  EngineStatus, idle, starting, downloading, restarting, stopped,
}

-- The texts of `state` of a source.
pub data Health : Type 0 where
  healthy degraded quarantined probing : Health

pub record SourceState : Type 0 where
  pub state : Health
  pub consecutive_failures : ℕ
  pub retry_after : Text
  pub retry_in_seconds : ℕ
  pub last_error : Text

abbrev pub healthy_source : SourceState
healthy_source = record {
  state = healthy;
  consecutive_failures = 0;
  retry_after = [];
  retry_in_seconds = 0;
  last_error = [];
}

-- The process and what the object and its `state` know; `process` is the pid.
pub record EngineProcess : Type 0 where
  pub status : EngineStatus
  pub process : Option ℕ
  pub stop_requested : Bool
  pub next_restart_at : ℕ
  pub consecutive_failures : ℕ
  pub restarts : ℕ
  pub connections : ℕ
  pub total_bytes : ℕ
  pub byte_offset : ℕ
  pub process_bytes : ℕ
  pub has_metrics : Bool
  pub current_source : Text
  pub last_error : Text
  pub sources : List Text
  pub pending_sources : List Text
  pub pending_generation : Text
  pub confirmed_generation : Text
  pub reload_error : Text
  pub source_failures : Dict ℕ
  pub source_states : Dict SourceState
  pub source_epochs : Dict ℕ

-- `__init__`
abbrev pub new_engine : ℕ → List Text → Text → EngineProcess
new_engine connections sources generation = record {
  status = idle;
  process = none;
  stop_requested = true;
  next_restart_at = 0;
  consecutive_failures = 0;
  restarts = 0;
  connections = connections;
  total_bytes = 0;
  byte_offset = 0;
  process_bytes = 0;
  has_metrics = false;
  current_source = [];
  last_error = [];
  sources = sources;
  pending_sources = [];
  pending_generation = [];
  confirmed_generation = generation;
  reload_error = [];
  source_failures = [];
  source_states = [];
  source_epochs = [];
}

-- `text[-500:]`
abbrev pub tail_500 : Text → Text
tail_500 s = drop (length s - 500) s

-- `min(60.0, float(2 ** min(failures - 1, 6)))` seconds.
unfoldable pub restart_delay : ℕ → ℕ
restart_delay failures = min 60 (2 ^ min (failures - 1) 6) * second

-- `_schedule_restart`
unfoldable pub schedule_restart : Text → ℕ → EngineProcess → EngineProcess
schedule_restart error now e = record e {
  byte_offset = e.total_bytes;
  process_bytes = 0;
  consecutive_failures = e.consecutive_failures + 1;
  restarts = e.restarts + 1;
  status = restarting;
  last_error = tail_500 error;
  next_restart_at = now + restart_delay (e.consecutive_failures + 1);
}

-- `start`: `alive` tells whether a process that it owns still lives, and `launched` is the new pid,
-- or the text of the `OSError`.
pub data Launch : Type 0 where
  spawned : ℕ → Launch
  refused : Text → Launch

unfoldable pub start : Bool → Launch → ℕ → EngineProcess → EngineProcess
start alive launched now e = if not (is_none e.process) && alive then e else elim launched [
  | spawned pid ↦ record e {
    stop_requested = false;
    last_error = [];
    process = some pid;
    status = downloading;
  }
  | refused error ↦
      schedule_restart error now
        (record e { stop_requested = false; last_error = []; process = none })
]

-- `stop`
unfoldable pub stop : EngineProcess → EngineProcess
stop e = record e { stop_requested = true; process = none; status = stopped }

-- `_confirm_source_generation`
unfoldable pub confirm_generation : Text → EngineProcess → EngineProcess
confirm_generation generation e =
    if text_eq generation e.pending_generation
    then (let active = if length e.pending_sources == 0 then e.sources else e.pending_sources in
        record e {
          source_failures = keep_keys (λ url. text_in url active) e.source_failures;
          source_states = keep_keys (λ url. text_in url active) e.source_states;
          source_epochs = [];
          confirmed_generation = generation;
          pending_generation = [];
          reload_error = [];
          pending_sources = [];
        })
    else e

-- The events of this line that a line of output may hold, by the fields that the source reads. A
-- field that is absent or of another type is `none`; a source event, and a reload, that the source
-- passes over because its generation is no text is not represented.
pub record SourceEvent : Type 0 where
  pub url : Text
  pub generation : Option Text
  pub source_epoch : ℕ
  pub recovered : Bool
  pub error : Option Text
  pub state : Option Health
  pub consecutive_failures : Option ℕ
  pub retry_after : Option Text
  pub retry_in_seconds : Option ℕ

-- The generation of a failed reload: a value that counts as false, a text, or any other value.
pub data ReportedGeneration : Type 0 where
  no_generation other_generation : ReportedGeneration
  generation_text : Text → ReportedGeneration

pub data Event : Type 0 where
  no_json : Text → Event
  reload_failed : ReportedGeneration → (error : Text) → Event
  reloaded : (generation : Text) → Event
  status_report : (bytes connections : Option ℕ) (url : Option Text) → Event
  source_report : SourceEvent → Event

abbrev pub max_connections_per_line : ℕ
max_connections_per_line = 12

-- The "status" branch of `_consume_line`.
unfoldable pub consume_status : Option ℕ → Option ℕ → Option Text → EngineProcess → EngineProcess
consume_status bytes connections url e =
    let counted : EngineProcess = elim bytes [
      | none ↦ e
      | some total ↦ record e {
        process_bytes = total;
        total_bytes = e.byte_offset + total;
        has_metrics = true;
        consecutive_failures = 0;
      }
    ] in
    let resized : EngineProcess = elim connections [
      | none ↦ counted
      | some n ↦
          if leb 1 n && leb n max_connections_per_line
          then record counted { connections = n }
          else counted
    ] in
    elim url [ none ↦ resized | some u ↦ record resized { current_source = u } ]

-- Whether the "source" branch goes on: the url is one of the sources, the generation is the
-- confirmed one, and the epoch is positive and none that was passed.
unfoldable pub is_current : SourceEvent → EngineProcess → Bool
is_current v e =
    text_in v.url e.sources
    && ((length e.confirmed_generation == 0
          || elim (v.generation) [ none ↦ false | some g ↦ text_eq g e.confirmed_generation ])
        && (ltb 0 v.source_epoch && leb (or_else (lookup v.url e.source_epochs) 0) v.source_epoch))

abbrev is_error : Option Text → Bool
is_error none = false
is_error (some text) = not (length text == 0)

-- The "source" branch.
unfoldable pub consume_source : SourceEvent → EngineProcess → EngineProcess
consume_source v e =
    if not (is_current v e)
    then e
    else (let seen = record e { source_epochs = insert v.url v.source_epoch e.source_epochs } in
        if v.recovered
        then record seen {
          source_failures = insert v.url 0 seen.source_failures;
          source_states = insert v.url healthy_source seen.source_states;
        }
        else (let failures = or_else v.consecutive_failures (
              or_else (lookup v.url seen.source_failures) 0
              + (if is_error v.error then 1 else 0)) in
            record seen {
              source_failures = insert v.url failures seen.source_failures;
              source_states =
                  insert v.url
                    (record {
                      state = or_else v.state degraded;
                      consecutive_failures = failures;
                      retry_after = or_else v.retry_after [];
                      retry_in_seconds = or_else v.retry_in_seconds 0;
                      last_error = or_else v.error [];
                    })
                    seen.source_states;
              last_error =
                  if is_error v.error then tail_500 (or_else v.error []) else seen.last_error;
            }))

-- `_consume_line`
unfoldable pub consume : Event → EngineProcess → EngineProcess
consume (no_json line) e = record e { last_error = tail_500 line }
consume (reload_failed generation error) e =
    if elim generation [
      | no_generation ↦ true
      | generation_text g ↦ length g == 0 || text_eq g e.pending_generation
      | other_generation ↦ false
    ]
    then record e { reload_error = tail_500 error }
    else e
consume (reloaded generation) e = confirm_generation generation e
consume (status_report bytes connections url) e = consume_status bytes connections url e
consume (source_report v) e = consume_source v e

-- The events that one read finds.
unfoldable pub drain : List Event → EngineProcess → EngineProcess
drain [] e = e
drain (v ∷ vs) e = drain vs (consume v e)

-- The last lines of `poll`.
unfoldable pub restart_if_due : Launch → ℕ → EngineProcess → EngineProcess
restart_if_due launched now e =
    if not e.stop_requested && (is_none e.process && leb e.next_restart_at now)
    then start false launched now e
    else e

-- What `poll` does about a process that has ended, after its output was read.
unfoldable pub on_exit : Text → Launch → ℕ → EngineProcess → EngineProcess
on_exit error launched now e =
    let ended = record e { process = none } in
    if e.stop_requested
    then record ended { status = stopped }
    else restart_if_due launched now (schedule_restart error now ended)

-- `poll`: `exit` is the text with the code of a process that has ended.
unfoldable pub poll : List Event → Option Text → Launch → ℕ → EngineProcess → EngineProcess
poll events exit launched now e =
    if is_none e.process then restart_if_due launched now e else elim exit [
      | none ↦ drain events e
      | some error ↦ on_exit error launched now (drain events e)
    ]

-- `set_connections`: `alive` tells whether the process lives, `resized` whether the signals could
-- be sent.
unfoldable pub set_connections : ℕ → ℕ → (alive resized : Bool) → EngineProcess → EngineProcess
set_connections target maximum alive resized e =
    let bounded = max 1 (min target (min maximum max_connections_per_line)) in
    if not (is_none e.process) && (alive && (not (bounded == e.connections) && not resized))
    then e
    else record e { connections = bounded }
