-- ===== src/Ingest/Claiming.antt =====
-- runtime/ingest_executor.py: `IngestTaskExecutor.execute`, from the reservation of the provider and the
-- claim of the task to the answer, with its handlers.
pub mod Tracing
pub mod Answered
use knoarbor.Prelude.{
  ℕ, String, Bool, true, false, not, ◌||◌, Option, none, some, Result, ok, err, Fault,
  storage_conflict, if◌then◌else◌,
}
use knoarbor.Errors.{ErrorClass, Raised, known, storage_conflict_class, materialization_pending}
use knoarbor.Ingest.State.{AttemptLease, Store, Task, TaskState, queued, task_row}
use knoarbor.Ingest.Tasks.{claim, request_cancel, fail_queued_task}
use knoarbor.Ingest.Materialize.{Digest}
use knoarbor.Ingest.Executor.{
  Failure, provider_rate_limited, raised, is_cancelled_run, failure_result, failure_text,
}
use knoarbor.Ingest.Session.{World, with_store, Session, synced}
use knoarbor.Ingest.Execution.{Circumstances, fault_failure, fail_run, execute_claimed}

-- What `execute` is called for: the task, its attempt when it was read, the worker and its lease.
pub record Request : Type 0 where
  pub task_id : String
  pub attempt_id : String
  pub owner_id : String
  pub lease_seconds : ℕ

-- How the reservation of the provider ends: with the version of the control that it saw, or raising.
pub data Reservation : Type 0 where
  admitted : ℕ → Reservation
  refused : Failure → Reservation

-- `isinstance(exc, StorageConflict)`.
abbrev pub is_conflict_class : ErrorClass → Bool
is_conflict_class storage_conflict_class = true
is_conflict_class materialization_pending = true
is_conflict_class _ = false

abbrev pub is_conflict : Raised → Bool
is_conflict (known c message) = is_conflict_class c
is_conflict _ = false

abbrev pub waits : TaskState → Bool
waits queued = true
waits _ = false

-- `return self.store.task(task_id)`.
unfoldable pub answer : Request → World → World × Result Task
answer request world = (world, task_row request.task_id world.vault.store)

module _ (c : Circumstances) (request : Request) where
  -- The request of `_finish_unclaimed_cancel`, and what follows it.
  abbrev pub cancelled_unclaimed : Failure → World → Result (Task × Store) → World × Result Task
  cancelled_unclaimed f world (err e) = (world, err e)
  cancelled_unclaimed f world (ok (t, s)) =
      answer request
        (record (with_store s world) { files = fail_run c world.monitor f "failed" world.files })

  -- `_finish_unclaimed_cancel`.
  unfoldable pub finish_unclaimed_cancel : Failure → World → World × Result Task
  unfolding answer
  finish_unclaimed_cancel f world = elim (task_row request.task_id world.vault.store) [
    | err e ↦ (world, err e)
    | ok task ↦
        if not (waits task.state) || not task.cancel_requested
        then answer request world
        else cancelled_unclaimed f world (
            request_cancel request.task_id (some request.attempt_id) c.failure_now
              world.vault.store)
  ]

  -- The call of `_fail_unclaimed`, and what follows it.
  abbrev pub failed_unclaimed : Failure → World → Result (Task × Store) → World × Result Task
  failed_unclaimed f world (err (storage_conflict m)) = answer request world
  failed_unclaimed f world (err e) = (world, err e)
  failed_unclaimed f world (ok (t, s)) = answer request (record (with_store s world) {
    files = fail_run c world.monitor f "admission_failed" world.files;
  })

  -- `_fail_unclaimed`.
  unfoldable pub fail_unclaimed : Failure → World → World × Result Task
  unfolding answer
  fail_unclaimed f world = failed_unclaimed f world (
      fail_queued_task request.task_id request.attempt_id (failure_text f) (some (failure_result f))
        c.failure_now world.vault.store)

  -- The handlers of `execute`.
  unfoldable pub handled : Failure → World → World × Result Task
  unfolding finish_unclaimed_cancel fail_unclaimed
  handled (provider_rate_limited shown) world = fail_unclaimed (provider_rate_limited shown) world
  handled (raised x shown) world =
      if is_cancelled_run x
      then finish_unclaimed_cancel (raised x shown) world
      else if is_conflict x
      then answer request world
      else fail_unclaimed (raised x shown) world

  abbrev pub closed : World × Option Fault → World × Result Task
  closed (world, none) = answer request world
  closed (world, some e) = handled (fault_failure e) world

  -- The claim, the session and the attempt.
  abbrev pub claimed : Digest → World → Result (AttemptLease × Store) → World × Result Task
  claimed digest world (err e) = handled (fault_failure e) world
  claimed digest world (ok (lease, s)) =
      let session : Session = record { lease = lease; lease_seconds = request.lease_seconds } in
      closed (execute_claimed digest c session (synced session (with_store s world)))

  -- `execute`, once its task and its command are read and valid; `now` is the clock of the claim.
  unfoldable pub execute : Digest → Reservation → ℕ → World → World × Result Task
  unfolding handled
  execute digest (refused f) now world = handled f world
  execute digest (admitted version) now world = claimed digest world (
      claim request.task_id request.attempt_id request.owner_id request.lease_seconds (some version)
        now world.vault.store)
