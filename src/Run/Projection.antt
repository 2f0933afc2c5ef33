-- ===== src/Run/Projection.antt =====
-- runtime/ingest_run_projection.py: the run record that an ingest attempt is shown as.
use knoarbor.Prelude.{
  ℕ, ◌-◌, String, Bool, true, false, ◌&&◌, ◌==◌, Option, none, some, str_eq, if◌then◌else◌,
}
use mathlib.Core.Option
use knoarbor.Json.{Fields, end, field, text, boolean, fields, set_field}
use knoarbor.Ingest.State.{Task, Attempt, TaskState}
use knoarbor.Run.State.{ingest, RunStatus, RunRecord, Timestamp, RunProgress}
use knoarbor.Text.{is_empty}

-- `_STATUS`.
abbrev pub shown_status : TaskState → RunStatus
shown_status TaskState.queued = RunStatus.queued
shown_status TaskState.running = RunStatus.running
shown_status TaskState.completed = RunStatus.completed
shown_status TaskState.partially_failed = RunStatus.partially_failed
shown_status TaskState.failed = RunStatus.failed
shown_status TaskState.paused_rate_limited = RunStatus.failed
shown_status TaskState.recovery_needed = RunStatus.failed
shown_status TaskState.cancelled = RunStatus.cancelled

abbrev pub state_text : TaskState → String
state_text TaskState.queued = "queued"
state_text TaskState.running = "running"
state_text TaskState.completed = "completed"
state_text TaskState.partially_failed = "partially_failed"
state_text TaskState.failed = "failed"
state_text TaskState.paused_rate_limited = "paused_rate_limited"
state_text TaskState.recovery_needed = "recovery_needed"
state_text TaskState.cancelled = "cancelled"

-- `_message`.
abbrev pub state_message : TaskState → String
state_message TaskState.queued = "ingest run queued."
state_message TaskState.running = "ingest run started."
state_message TaskState.completed = "ingest run completed."
state_message TaskState.partially_failed = "ingest run partially failed."
state_message TaskState.cancelled = "ingest run cancelled."
state_message TaskState.paused_rate_limited = "ingest run paused after provider rate limiting."
state_message TaskState.recovery_needed = "ingest run requires recovery."
state_message TaskState.failed = "ingest run failed."

-- `state in {"paused_rate_limited", "recovery_needed"}`.
abbrev pub needs_recovery : TaskState → Bool
needs_recovery TaskState.paused_rate_limited = true
needs_recovery TaskState.recovery_needed = true
needs_recovery _ = false

abbrev pub is_running : TaskState → Bool
is_running TaskState.running = true
is_running _ = false

-- `attempt.get("error") or default`, and `str(attempt.get("error") or "") or None`.
abbrev pub error_or : String → Option String → String
error_or default none = default
error_or default (some e) = if is_empty e then default else e

abbrev pub nonempty_error : Option String → Option String
nonempty_error none = none
nonempty_error (some e) = if is_empty e then none else some e

-- `attempt["finished_at"] or attempt["updated_at"]`; the number 0 is no time either.
abbrev pub end_time : Option ℕ → ℕ → ℕ
end_time none updated = updated
end_time (some t) updated = if t == 0 then updated else t

-- `_project_attempt`, from a row of the join of attempts and tasks, and the observed record of the
-- run, when it could be read. Times are seconds, as `_timestamp` writes them.
abbrev pub observed_fields : (RunRecord → Fields) → Option RunRecord → Fields
observed_fields f none = end
observed_fields f (some r) = f r

abbrev pub no_progress : RunProgress
no_progress = record { total = none; completed = 0; current = none }

abbrev pub observed_progress : Option RunRecord → RunProgress
observed_progress none = no_progress
observed_progress (some r) = r.progress

-- The time that a running attempt takes from its observed record, and any other from its row.
abbrev pub observed_time : (RunRecord → Timestamp) → Option RunRecord → TaskState → ℕ → Timestamp
observed_time f none state stored = some stored
observed_time f (some r) state stored = if is_running state then f r else some stored

abbrev pub required_info : TaskState → Option String → Fields
required_info state error = field "code" (text "KA-INGEST-RECOVERY-REQUIRED") (
    field "retryable" (boolean true)
      (field "message" (text (error_or (state_message state) error)) end))

unfoldable pub project_attempt : String × Attempt → String × Task → Option RunRecord → RunRecord
project_attempt (attempt_id, a) (task_id, t) observed = record {
  run_id = attempt_id;
  flow = ingest;
  status = shown_status a.state;
  stage = state_text a.state;
  current_item = none;
  message = state_message a.state;
  started_at = observed_time (λ r. r.started_at) observed a.state a.created_at;
  updated_at = some a.updated_at;
  last_heartbeat_at = observed_time (λ r. r.last_heartbeat_at) observed a.state a.updated_at;
  finished_at = Option.map (λ n. some n) a.finished_at;
  elapsed_seconds = end_time a.finished_at a.updated_at - a.created_at;
  progress = observed_progress observed;
  metrics = observed_fields (λ r. r.metrics) observed;
  metadata =
      set_field "input_generation_id" (text t.input_generation_id)
        (set_field "ingest_task_id" (text task_id) (observed_fields (λ r. r.metadata) observed));
  result_summary = elim a.result [ none ↦ end | some v ↦ fields v ];
  error = nonempty_error a.error;
  error_info =
      if needs_recovery a.state
      then required_info a.state a.error
      else observed_fields (λ r. r.error_info) observed;
  cancel_requested = t.cancel_requested && str_eq t.current_attempt_id attempt_id;
}
