-- ===== src/Ingest/Recovery.antt =====
-- runtime/transactional_ingest.py: the end of an attempt (`finish`, expired leases) and the
-- admission of a new one, with `_recovery_assessment`, which decides what can be recovered.
use knoarbor.Prelude.{
  ℕ, ◌+◌, String, Bool, true, false, Option, none, some, List, [], ◌∷◌, not, ◌&&◌, str_eq, Result,
  ok, ◌>>=◌, ◌>>◌, require, user_input, value_error, length, storage_conflict, if◌then◌else◌, ◌==◌,
}
use knoarbor.Table.{Table, update, update_where, row_count}
use knoarbor.Json.{Json, Fields, end, fields, get, is_true, any_in}
use knoarbor.Ingest.State.{
  Task, Attempt, AttemptLease, Store, TaskState, queued, running, partially_failed, failed,
  paused_rate_limited, recovery_needed, cancelled, is_queued, is_running, task_row, attempt_row,
  lapsed,
}
use knoarbor.Ingest.Tasks.{Admission, close_attempt, insert_attempt, new_attempt, holds_epoch}

pub record Assessment : Type 0 where
  pub available : Bool
  pub reason_code : String
  pub reason : String

abbrev pub interrupted : Assessment
interrupted = record {
  available = true;
  reason_code = "interrupted_attempt";
  reason = "The ingest attempt was interrupted before completion.";
}

abbrev pub rate_limited : Assessment
rate_limited = record {
  available = true;
  reason_code = "provider_rate_limited";
  reason = "The provider rate limit interrupted the ingest attempt.";
}

abbrev pub not_recoverable : Assessment
not_recoverable = record {
  available = false;
  reason_code = "task_not_recoverable";
  reason = "The ingest task is not recoverable in its current state.";
}

abbrev pub retryable_run : Assessment
retryable_run = record {
  available = true;
  reason_code = "retryable_run_error";
  reason = "The ingest attempt failed with a retryable runtime error.";
}

abbrev pub retryable_sources : Assessment
retryable_sources = record {
  available = true;
  reason_code = "retryable_source_failures";
  reason = "The ingest attempt contains retryable failed source items.";
}

abbrev pub no_recoverable_items : Assessment
no_recoverable_items = record {
  available = false;
  reason_code = "no_recoverable_items";
  reason = "The failed ingest items are not marked retryable.";
}

-- `isinstance(failure, dict) and failure.get("retryable") is True`.
unfoldable pub failure_retryable : Fields → Bool
failure_retryable result = is_true (get "retryable" (fields (get "failure" result)))

-- `isinstance(failures, list) and any(… item.get("error_retryable") is True …)`.
unfoldable pub sources_retryable : Fields → Bool
sources_retryable result =
    any_in (λ item. is_true (get "error_retryable" (fields item))) (get "failures" result)

-- The last part of `_recovery_assessment`: the result of an attempt that failed.
unfoldable pub assess_result : Fields → Assessment
assess_result result =
    if failure_retryable result
    then retryable_run
    else if sources_retryable result
    then retryable_sources
    else no_recoverable_items

abbrev pub result_fields : Option Json → Fields
result_fields none = end
result_fields (some v) = fields v

unfoldable pub assess_state : TaskState → Option Json → Assessment
assess_state recovery_needed result = interrupted
assess_state paused_rate_limited result = rate_limited
assess_state failed result = assess_result (result_fields result)
assess_state partially_failed result = assess_result (result_fields result)
assess_state _ result = not_recoverable

unfoldable pub assess : Task → Attempt → Bool → Assessment
unfolding assess_state
assess task attempt expired_running =
    if expired_running then interrupted else assess_state task.state attempt.result

abbrev pub is_expired_running : Task → ℕ → Bool
is_expired_running task now = is_running task.state && lapsed task.lease_expires_at now

abbrev pub historical_attempt : Assessment
historical_attempt = record {
  available = false;
  reason_code = "historical_attempt";
  reason = "Historical ingest attempts cannot recover the current task.";
}

unfoldable pub recovery_assessment : String → String → ℕ → Store → Result Assessment
unfolding assess
recovery_assessment task_id expected now s = do
  task ← task_row task_id s
  attempt ← attempt_row expected s
  ok (
      if str_eq task.current_attempt_id expected
      then assess task attempt (is_expired_running task now)
      else historical_attempt)

abbrev pub lease_expired_error : String
lease_expired_error = "Worker lease expired before completion."

abbrev pub expire_attempt : ℕ → Attempt → Attempt
expire_attempt now a = record a {
  state = recovery_needed;
  error = some lease_expired_error;
  updated_at = now;
  finished_at = some now;
}

-- `select count(*) from attempts where task_id=?`.
unfoldable pub attempt_count : String → Table Attempt → ℕ
attempt_count task_id rows = row_count (λ k a. str_eq a.task_id task_id) rows

-- The attempts once an expired one is closed.
abbrev pub closed_attempts : Bool → String → ℕ → Table Attempt → Table Attempt
closed_attempts expired expected now rows =
    if expired then update expected (expire_attempt now) rows else rows

abbrev pub requeue_task : String → ℕ → Task → Task
requeue_task attempt_id now t = record t {
  state = queued;
  current_attempt_id = attempt_id;
  cancel_requested = false;
  version = t.version + 1;
  lease_owner = none;
  lease_expires_at = none;
  updated_at = now;
}

unfoldable pub mark_requeued : String → String → ℕ → Table Attempt → Store → Store
mark_requeued task_id attempt_id now attempts s = record s {
  attempts = attempts;
  tasks = update task_id (requeue_task attempt_id now) s.tasks;
}

-- `checked` is the clock at the test of the lease, `now` the one written to the rows.
unfoldable pub admit_recovery :
    String → String → String → ℕ → ℕ → Store → Result (Admission × Store)
unfolding assess attempt_count mark_requeued
admit_recovery task_id expected attempt_id checked now s = do
  task ← task_row task_id s
  let expired = is_expired_running task checked
  previous ← attempt_row expected s
  let assessment = assess task previous expired
  require (str_eq task.current_attempt_id expected && assessment.available)
      (user_input assessment.reason)
  let closed = closed_attempts expired expected now s.attempts
  attempts ←
      insert_attempt attempt_id (new_attempt task_id (attempt_count task_id closed + 1) now) closed
  let s' = mark_requeued task_id attempt_id now attempts s
  task' ← task_row task_id s'
  attempt ← attempt_row attempt_id s'
  ok (((task_id, task'), (attempt_id, attempt)), s')

-- The states that `finish` accepts.
abbrev pub is_terminal : TaskState → Bool
is_terminal queued = false
is_terminal running = false
is_terminal _ = true

abbrev pub settle_task : TaskState → ℕ → Task → Task
settle_task state now t = record t {
  state = state;
  version = t.version + 1;
  lease_owner = none;
  lease_expires_at = none;
  updated_at = now;
}

unfoldable pub mark_finished :
    AttemptLease → TaskState → Option Json → Option String → ℕ → Store → Store
mark_finished lease state result error now s = record s {
  attempts = update lease.attempt_id (close_attempt state result error now) s.attempts;
  tasks = update lease.task_id (settle_task state now) s.tasks;
}

-- A cancellation that was requested while the worker ran wins over its own outcome.
abbrev pub terminal_state : Task → TaskState → TaskState
terminal_state task state = if task.cancel_requested then cancelled else state

unfoldable pub finish :
    AttemptLease → TaskState → Option Json → Option String → ℕ → ℕ → Store → Result (Task × Store)
unfolding mark_finished
finish lease state result error checked now s = do
  require (is_terminal state) (value_error "Unsupported ingest terminal state")
  task ← task_row lease.task_id s
  require (holds_epoch lease task checked && is_running task.state)
      (storage_conflict "Stale ingest worker cannot finalize this task.")
  let s' = mark_finished lease (terminal_state task state) result error now s
  task' ← task_row lease.task_id s'
  ok (task', s')

-- The body of the loop of `_reap_expired_attempts`, for one selected row.
unfoldable pub reap_one : ℕ → String × Task → Store → Store
reap_one now (task_id, row) s = record s {
  attempts =
      update_where (λ k a. str_eq k row.current_attempt_id && is_running a.state)
        (expire_attempt now) s.attempts;
  tasks =
      update_where (λ k t. str_eq k task_id && is_running t.state && t.version == row.version)
        (λ t. record t {
          state = recovery_needed;
          version = t.version + 1;
          lease_owner = none;
          lease_expires_at = none;
          updated_at = now;
        })
        s.tasks;
}

unfoldable pub reap_rows : ℕ → List (String × Task) → Store → Store
unfolding reap_one
reap_rows now [] s = s
reap_rows now (row ∷ rows) s = reap_rows now rows (reap_one now row s)

-- The rows that the loop's `select` finds.
unfoldable pub expired_tasks : ℕ → Table Task → List (String × Task)
expired_tasks now [] = []
expired_tasks now ((k, t) ∷ ts) =
    let rest = expired_tasks now ts in if is_expired_running t now then (k, t) ∷ rest else rest

unfoldable pub reap_expired_attempts : ℕ → Store → ℕ × Store
unfolding reap_rows expired_tasks
reap_expired_attempts now s =
    let rows = expired_tasks now s.tasks in (length rows, reap_rows now rows s)

-- `dispatchable_tasks` after its reaping: `select … where state='queued' and cancel_requested=0`.
-- Rows come in the order of the table, which is that of `created_at`.
unfoldable pub dispatchable : Table Task → List (String × Task)
dispatchable [] = []
dispatchable ((k, t) ∷ ts) =
    let rest = dispatchable ts in
    if is_queued t.state && not t.cancel_requested then (k, t) ∷ rest else rest

unfoldable pub dispatchable_tasks : ℕ → Store → List (String × Task) × Store
unfolding dispatchable reap_expired_attempts
dispatchable_tasks now s = let (n, s') = reap_expired_attempts now s in (dispatchable s'.tasks, s')

unfoldable pub set_ingest_paused : Bool → ℕ → Store → Store
set_ingest_paused paused now s = record s {
  control = record s.control { paused = paused; version = s.control.version + 1; updated_at = now };
}
