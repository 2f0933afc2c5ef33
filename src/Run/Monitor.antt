-- ===== src/Run/Monitor.antt =====
-- runtime/run_monitor.py: the operations of `RunMonitor` on the files of its run. Each reading of the
-- clock is an argument, in the order of the calls of `_now`. The lock of a monitor is its own, and that
-- of a file covers one write: what other monitors do between the read of the record and a write is an
-- argument of `heartbeat_over` and `finish`. Run/Trace takes the other operations apart.
use knoarbor.Prelude.{
  ℕ, ◌+◌, String, false, not, ◌&&◌, Option, none, some, List, [], ◌∷◌, ◌++◌, if◌then◌else◌, ltb,
}
use mathlib.Core.Option
use knoarbor.Json.{Fields, end, field, set_field}
use knoarbor.Run.State.{
  Flow, RunStatus, queued, running, completed, cancelling, partially_failed, is_terminal,
  RunProgress, RunRecord, RunEvent, RunFiles, elapsed,
}
use knoarbor.Run.Payload.{safe_fields}
use knoarbor.Run.Display.{compact_display_text}
use knoarbor.Text.{is_empty}

-- What a `RunMonitor` is made with.
pub record RunMonitor : Type 0 where
  pub run_id : String
  pub flow : Flow
  pub metadata : Fields

-- The record of a run that starts, waits in a queue, or has no file.
abbrev pub fresh_record : RunMonitor → RunStatus → String → String → ℕ → RunRecord
fresh_record m status stage message now = record {
  run_id = m.run_id;
  flow = m.flow;
  status = status;
  stage = stage;
  current_item = none;
  message = message;
  started_at = some now;
  updated_at = some now;
  last_heartbeat_at = some now;
  finished_at = none;
  elapsed_seconds = 0;
  progress = record { total = none; completed = 0; current = none };
  metrics = end;
  metadata = m.metadata;
  result_summary = end;
  error = none;
  error_info = end;
  cancel_requested = false;
}

-- `_read_record_unlocked`.
unfoldable pub read_record : RunMonitor → ℕ → RunFiles → RunRecord
read_record m now files = elim files.record_file [
  | none ↦ fresh_record m queued "queued" "" now
  | some r ↦ r
]

-- `_write_record_unlocked`.
unfoldable pub write_record : RunRecord → RunFiles → RunFiles
write_record r files = record files { record_file = some r }

-- `_last_event_sequence`: the largest number in the log.
unfoldable pub last_event_sequence : List RunEvent → ℕ
last_event_sequence [] = 0
last_event_sequence (e ∷ es) =
    let rest = last_event_sequence es in if ltb rest e.sequence then e.sequence else rest

-- The line that `event` and `_append_event_for_record` add to the log.
unfoldable pub append_event :
    RunMonitor → RunRecord → String → String → Fields → Fields → ℕ → RunFiles → RunFiles
append_event m r event_type message metrics payload now files = record files {
  events =
      files.events
      ++ record {
        run_id = m.run_id;
        sequence = last_event_sequence files.events + 1;
        created_at = some now;
        event_type = event_type;
        status = r.status;
        stage = r.stage;
        message = message;
        current_item = r.current_item;
        progress = r.progress;
        metrics = metrics;
        payload = safe_fields payload;
      }
        ∷ [];
}

-- What a caller passes as `progress`: a `RunProgress`, or a dict that validates as one.
pub data ProgressInput : Type 0 where
  instance_of mapping : RunProgress → ProgressInput

-- `_progress`: an instance drops an empty text, a dict compacts every text.
abbrev pub progress_value : ProgressInput → RunProgress
progress_value (instance_of p) = record p {
  current = elim p.current [
    | none ↦ none
    | some t ↦ if is_empty t then none else some (compact_display_text t)
  ];
}
progress_value (mapping p) = record p { current = Option.map compact_display_text p.current }

-- `{**old, **new}`.
unfoldable pub merge_fields : Fields → Fields → Fields
merge_fields old end = old
merge_fields old (field k v fs) = merge_fields (set_field k v old) fs

-- The keyword arguments of `heartbeat`; no metrics and an empty dict of them act alike.
pub record Update : Type 0 where
  pub status : Option RunStatus
  pub stage : Option String
  pub current_item : Option String
  pub message : Option String
  pub progress : Option ProgressInput
  pub metrics : Fields

abbrev pub no_update : Update
no_update = record {
  status = none;
  stage = none;
  current_item = none;
  message = none;
  progress = none;
  metrics = end;
}

abbrev pub or_else {ℓ} : {A : Type ℓ} → Option A → A → A
or_else none a = a
or_else (some b) a = b

-- A request to cancel outlasts whatever status the caller reports.
abbrev pub reported_status : RunRecord → Option RunStatus → RunStatus
reported_status r status =
    if r.cancel_requested && not (is_terminal r.status) then cancelling else or_else status r.status

unfoldable pub refreshed : Update → ℕ → RunRecord → RunRecord
unfolding merge_fields
refreshed u now r = record r {
  status = reported_status r u.status;
  stage = or_else u.stage r.stage;
  current_item = elim u.current_item [
    | none ↦ r.current_item
    | some t ↦ some (compact_display_text t)
  ];
  message = or_else u.message r.message;
  progress = elim u.progress [ none ↦ r.progress | some p ↦ progress_value p ];
  metrics = merge_fields r.metrics u.metrics;
  updated_at = some now;
  last_heartbeat_at = some now;
  elapsed_seconds = elapsed r.started_at now;
}

-- `heartbeat`: the lock that it holds is its monitor's own, so that other monitors write between its
-- read and its write.
unfoldable pub heartbeat_over :
    RunMonitor → Update → ℕ → (RunFiles → RunFiles) → RunFiles → RunRecord × RunFiles
unfolding refreshed
heartbeat_over m u now between files =
    let r = refreshed u now (read_record m now files) in (r, write_record r (between files))

-- One that no other monitor overlaps.
unfoldable pub heartbeat : RunMonitor → Update → ℕ → RunFiles → RunRecord × RunFiles
unfolding heartbeat_over
heartbeat m u now = heartbeat_over m u now (λ files. files)

-- `message or None`.
abbrev pub nonempty : String → Option String
nonempty s = if is_empty s then none else some s

-- `event`: the arguments of its heartbeat, the message and the payload.
unfoldable pub event : RunMonitor → String → String → Update → Fields → ℕ → ℕ → RunFiles → RunFiles
event m event_type message u payload now later files =
    let (r, beaten) = heartbeat m (record u { message = nonempty message }) now files in
    append_event m r event_type message u.metrics payload later beaten

unfoldable pub start : RunMonitor → String → ℕ → ℕ → ℕ → RunFiles → RunFiles
unfolding event
start m message now beat later files =
    event m "run_started" message
      (record no_update { status = some running; stage = some "started" }) end beat later
      (write_record (fresh_record m running "started" message now) files)

unfoldable pub queue : RunMonitor → String → ℕ → ℕ → ℕ → RunFiles → RunFiles
unfolding event
queue m message now beat later files =
    event m "run_queued" message (record no_update { status = some queued; stage = some "queued" })
      end beat later (write_record (fresh_record m queued "queued" message now) files)

-- `_finish`: the record is read under the lock, the event is written, then the record. `between`
-- is what other holders of the lock did to the files after the read, and `during` after the event.
abbrev pub finished_record :
    RunStatus → String → String → Fields → Fields → ℕ → RunRecord → RunRecord
finished_record status stage message summary metrics now r = record r {
  status = status;
  stage = stage;
  message = message;
  updated_at = some now;
  last_heartbeat_at = some now;
  finished_at = some (some now);
  elapsed_seconds = elapsed r.started_at now;
  result_summary = summary;
  metrics = merge_fields r.metrics metrics;
}

unfoldable pub finish :
    RunMonitor
    → RunStatus
    → String
    → String
    → String
    → Fields
    → Fields
    → ℕ
    → ℕ
    → (RunFiles → RunFiles)
    → (RunFiles → RunFiles)
    → RunFiles
    → RunFiles
unfolding append_event merge_fields
finish m status stage event_type message summary metrics now later between during files =
    let r = finished_record status stage message summary metrics now (read_record m now files) in
    write_record r (during (append_event m r event_type message end summary later (between files)))

unfoldable pub complete :
    RunMonitor
    → String
    → Fields
    → Fields
    → ℕ
    → ℕ
    → (RunFiles → RunFiles)
    → (RunFiles → RunFiles)
    → RunFiles
    → RunFiles
unfolding finish
complete m = finish m completed "completed" "run_completed"

unfoldable pub partially_fail :
    RunMonitor
    → String
    → Fields
    → Fields
    → ℕ
    → ℕ
    → (RunFiles → RunFiles)
    → (RunFiles → RunFiles)
    → RunFiles
    → RunFiles
unfolding finish
partially_fail m = finish m partially_failed "partially_failed" "run_partially_failed"
