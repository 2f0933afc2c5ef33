-- ===== src/Run/Tests.antt =====
-- runtime/run_monitor.py and its readers: a run of the monitor, at which the theorems about it apply.
use knoarbor.Prelude.{ℕ, ◌≡◌, refl, true, false, none, some, [], if◌then◌else◌}
use knoarbor.Json.{Json, end, field, text, object, number, boolean, null, get}
use knoarbor.Errors.{
  Raised, known, external_service_error_class, error_info, ErrorCategory, category_text,
}
use knoarbor.Errors.Taxonomy.{is_transient, is_callers, is_client_status, error_info-classified}
use knoarbor.Ingest.State.{Task, Attempt, TaskState}
use knoarbor.Ingest.Recovery.{assess}
use knoarbor.Run.State.{
  query, ingest, RunStatus, running, waiting_model, completed, cancelled, RunRecord, RunFiles,
  is_terminal,
}
use knoarbor.Run.Payload.{mentions, event_safe_payload, event_safe_payload-mentions}
use knoarbor.Run.Monitor.{
  RunMonitor, no_update, fresh_record, read_record, heartbeat, heartbeat_over, start, finish,
  write_record, append_event, finished_record, event,
}
use knoarbor.Run.Endings.{request_cancel, request_cancel_over, raises_cancelled, reconcile}
use knoarbor.Run.Listing.{read_run_events}
use knoarbor.Run.Log.{IsNumbered, drop, take, read_run_events-take}
use knoarbor.Run.Trace.{Trace, Trace-IsNumbered, stays, starts, beats, finishes}
use knoarbor.Run.Closing.{IsClosed, Trace-IsClosed}
use knoarbor.Run.Stale.{GivenUp, reconcile-GivenUp}
use knoarbor.Run.Cancelling.{IsStopping, Work, asked, idles, request_cancel-holds}
use knoarbor.Run.Cancelling
use knoarbor.Run.Ends.{HasEnded, execute_task-HasEnded, is_stopped, end_status}
use knoarbor.Run.Queue.{execute_task, Outcome, returned, Clock, begin_run}
use knoarbor.Run.Policy.{is_failed_run}
use knoarbor.Run.Shown.{project_attempt-recoverable}
use knoarbor.Run.Projection.{project_attempt}

abbrev monitor : RunMonitor
monitor = record { run_id = "run"; flow = query; metadata = end }

abbrev no_files : RunFiles
no_files = record { record_file = none; events = [] }

abbrev started : RunFiles
started = start monitor "started" 10 10 10 no_files

abbrev waiting : RunFiles
waiting =
    (heartbeat_over monitor (record no_update { status = some waiting_model }) 20 (λ _. started)
      started).1

-- A run that starts, reports that it waits for a model, and ends.
abbrev ended : RunFiles
ended =
    finish monitor completed "completed" "run_completed" "done" end end 30 30 (λ _. waiting)
      (λ _.
        append_event monitor
          (finished_record completed "completed" "done" end end 30 (read_record monitor 30 waiting))
          "run_completed" "done" end end 30 waiting)
      waiting

history : Trace no_files ended
history =
    finishes monitor completed "completed" "run_completed" "done" end end 30 30 no_files waiting
      waiting
      (append_event monitor
        (finished_record completed "completed" "done" end end 30 (read_record monitor 30 waiting))
        "run_completed" "done" end end 30 waiting)
      (beats monitor (record no_update { status = some waiting_model }) 20 no_files started started
        refl (starts monitor "started" 10 10 10 no_files no_files (stays no_files)) (stays started))
      (stays waiting) (stays _)

Trace-IsNumbered_example : IsNumbered 0 ended.events
Trace-IsNumbered_example = Trace-IsNumbered no_files ended history tt

no_record : IsClosed no_files
no_record r e = cc

Trace-IsClosed_example : IsClosed ended
Trace-IsClosed_example = Trace-IsClosed no_files ended history no_record

numbered : IsNumbered 0 ended.events
numbered = Trace-IsNumbered no_files ended history tt

read_run_events-take_example : read_run_events 1 5 ended ≡ take 5 (drop 1 ended.events)
read_run_events-take_example = read_run_events-take 1 4 ended numbered

-- A run whose worker wrote its last heartbeat at 20.
abbrev stale : RunRecord
stale = fresh_record monitor running "started" "" 20

reconcile-GivenUp_example : GivenUp 700 stale started (reconcile 700 700 700 stale started)
reconcile-GivenUp_example = reconcile-GivenUp 700 700 700 stale started refl

started_running : is_terminal (read_record monitor 11 started).status ≡ false
unfolding start event heartbeat heartbeat_over write_record append_event read_record
started_running = refl

abbrev asked_files : RunFiles
asked_files =
    request_cancel_over monitor 11 11 11 (λ _. started) (λ _. asked monitor 11 11 started started)
      started

-- Two reports that overlap: the second one ends before the first one writes.
abbrev reported : RunFiles
reported =
    (heartbeat_over monitor (record no_update { status = some running }) 12 (λ _. asked_files)
      asked_files).1

abbrev overlapped : RunFiles
overlapped =
    (heartbeat_over monitor (record no_update { status = some running }) 13 (λ _. reported)
      asked_files).1

reports_overlap : Work asked_files overlapped
reports_overlap =
    Cancelling.beats monitor (record no_update { status = some running }) 13 asked_files asked_files
      reported (idles asked_files)
      (Cancelling.beats monitor (record no_update { status = some running }) 12 asked_files
        asked_files asked_files (idles asked_files) (idles asked_files))

request_cancel-holds_example :
    IsStopping overlapped
    × ((n : RunMonitor) (clock : ℕ) → raises_cancelled none n clock overlapped ≡ true)
    × ((n : RunMonitor) (t₁ t₂ t₃ : ℕ) (before between : RunFiles → RunFiles)
        → request_cancel_over n t₁ t₂ t₃ before between overlapped ≡ overlapped)
request_cancel-holds_example =
    request_cancel-holds monitor 11 11 11 started started (asked monitor 11 11 started started)
      overlapped started_running (idles (asked monitor 11 11 started started)) reports_overlap

abbrev clock : Clock
clock = record { checked = 1; started = 2; beat = 3; logged = 4; worker = 5; worker_logged = 6 }

abbrev target : RunFiles → Outcome × RunFiles
target f = (returned end end end, f)

execute_task-HasEnded_example :
    (status : RunStatus) × HasEnded status 30
      (execute_task monitor none target clock 30 31 (λ f. f) (λ f. f) no_files)
    × (is_terminal status ≡ true)
    × (status ≡ (
        if is_stopped monitor none clock no_files
        then cancelled
        else end_status monitor.flow (target (begin_run monitor clock no_files)).0))
execute_task-HasEnded_example =
    execute_task-HasEnded monitor none target clock 30 31 (λ f. f) (λ f. f) no_files

abbrev payload : Json
payload = object (field "items" (object (field "content" (text "secret") end)) end)

event_safe_payload-mentions_example : mentions (event_safe_payload payload) ≡ false
event_safe_payload-mentions_example = event_safe_payload-mentions payload

abbrev refusal : Raised
refusal = known external_service_error_class "timeout"

error_info-classified_example :
    (category : ErrorCategory) × (status : ℕ) × (get "category" (error_info refusal)
      ≡ text (category_text category))
    × (get "retryable" (error_info refusal) ≡ boolean (is_transient category))
    × (get "http_status" (error_info refusal) ≡ number status)
    × (is_client_status status ≡ is_callers category)
error_info-classified_example = error_info-classified refusal

abbrev ingest_run : RunRecord
ingest_run = fresh_record (record monitor { flow = ingest }) running "started" "" 20

abbrev attempt : Attempt
attempt = record {
  task_id = "task";
  ordinal = 1;
  state = TaskState.recovery_needed;
  created_at = 1;
  updated_at = 2;
  finished_at = some 2;
  result = none;
  error = none;
}

abbrev task : Task
task = record {
  command = null;
  command_hash = none;
  input_generation_id = "generation";
  state = TaskState.recovery_needed;
  current_attempt_id = "attempt";
  version = 3;
  cancel_requested = false;
  lease_owner = none;
  lease_epoch = 1;
  lease_expires_at = none;
  created_at = 1;
  updated_at = 2;
}

recoverable : (assess task attempt false).available ≡ true
unfolding assess
recoverable = refl

project_attempt-recoverable_example :
    is_failed_run (project_attempt ("attempt", attempt) ("task", task) none).status ≡ true
project_attempt-recoverable_example =
    project_attempt-recoverable "attempt" "task" attempt task none refl recoverable

abbrev stopping : RunFiles
stopping = request_cancel monitor 11 11 11 (λ g. g) started
