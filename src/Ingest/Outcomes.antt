-- ===== src/Ingest/Outcomes.antt =====
-- runtime/transactional_ingest.py: what a transaction that returned has found in its rows, and
-- what it has written.
use knoarbor.Prelude.{
  ℕ, String, ◌≡◌, true, false, Option, some, arith, str_eq, ◌+◌, Option-cases, inl, inr, ok,
  if◌then◌else◌,
}
use knoarbor.Json.{Json}
use knoarbor.Table.{lookup}
use knoarbor.Ingest.State.{
  Task, AttemptLease, Store, TaskState, is_queued, is_running, is_settled, task_row,
}
use knoarbor.Ingest.Tasks.{
  claim, mark_claimed, renew, mark_renewed, request_cancel, mark_cancelled, fail_queued_task,
  mark_failed, holds_epoch,
}
use knoarbor.Ingest.Recovery.{finish, mark_finished, terminal_state, is_terminal}

pub claim-ok :
    (task_id attempt_id owner : String) (secs : ℕ) (version : Option ℕ) (now : ℕ) (s : Store)
    (lease : AttemptLease) (s' : Store)
    → claim task_id attempt_id owner secs version now s ≡ ok (lease, s')
    → (task : Task) × (lookup task_id s.tasks ≡ some task)
      × (str_eq task.current_attempt_id attempt_id ≡ true)
      × (is_queued task.state ≡ true)
      × (task.cancel_requested ≡ false)
      × (s.control.paused ≡ false)
      × (lease ≡ record {
        task_id = task_id;
        attempt_id = attempt_id;
        epoch = task.lease_epoch + 1;
        expires_at = now + secs;
      })
      × (s' ≡ mark_claimed task_id task attempt_id owner (now + secs) now s)
unfolding claim task_row
claim-ok task_id attempt_id owner secs version now s lease s' h =
    elim (Option-cases (lookup task_id s.tasks)) [
      | inl e ↦ absurd (ground arith)
      | inr (task, e) ↦ (
        task,
        e,
        ground arith,
        ground arith,
        ground arith,
        ground arith,
        ground arith,
        ground arith,
      )
    ]

pub renew-ok :
    (lease : AttemptLease) (secs now : ℕ) (s : Store) (lease' : AttemptLease) (s' : Store)
    → renew lease secs now s ≡ ok (lease', s')
    → (task : Task) × (lookup lease.task_id s.tasks ≡ some task)
      × (holds_epoch lease task now ≡ true)
      × (is_running task.state ≡ true)
      × (task.cancel_requested ≡ false)
      × (lease' ≡ record lease { expires_at = now + secs })
      × (s' ≡ mark_renewed lease.task_id (now + secs) now s)
unfolding renew task_row
renew-ok lease secs now s lease' s' h = elim (Option-cases (lookup lease.task_id s.tasks)) [
  | inl e ↦ absurd (ground arith)
  | inr (task, e) ↦ (task, e, ground arith, ground arith, ground arith, ground arith, ground arith)
]

pub request_cancel-ok :
    (task_id : String) (expected : Option String) (now : ℕ) (s : Store) (t' : Task) (s' : Store)
    → request_cancel task_id expected now s ≡ ok (t', s')
    → (task : Task) × (lookup task_id s.tasks ≡ some task)
      × (s' ≡ (if is_settled task.state then s else mark_cancelled task_id task now s))
unfolding request_cancel task_row
request_cancel-ok task_id expected now s t' s' h = elim (Option-cases (lookup task_id s.tasks)) [
  | inl e ↦ absurd (ground arith)
  | inr (task, e) ↦ (task, e, ground arith)
]

pub fail_queued_task-ok :
    (task_id attempt_id error : String) (result : Option Json) (now : ℕ) (s : Store) (t' : Task)
    (s' : Store)
    → fail_queued_task task_id attempt_id error result now s ≡ ok (t', s')
    → (task : Task) × (lookup task_id s.tasks ≡ some task)
      × (str_eq task.current_attempt_id attempt_id ≡ true)
      × (is_queued task.state ≡ true)
      × (s' ≡ mark_failed task_id attempt_id error result now s)
unfolding fail_queued_task task_row
fail_queued_task-ok task_id attempt_id error result now s t' s' h =
    elim (Option-cases (lookup task_id s.tasks)) [
      | inl e ↦ absurd (ground arith)
      | inr (task, e) ↦ (task, e, ground arith, ground arith, ground arith)
    ]

pub finish-ok :
    (lease : AttemptLease) (state : TaskState) (result : Option Json) (error : Option String)
    (checked now : ℕ) (s : Store) (t' : Task) (s' : Store)
    → finish lease state result error checked now s ≡ ok (t', s')
    → (task : Task) × (lookup lease.task_id s.tasks ≡ some task)
      × (is_terminal state ≡ true)
      × (holds_epoch lease task checked ≡ true)
      × (is_running task.state ≡ true)
      × (s' ≡ mark_finished lease (terminal_state task state) result error now s)
unfolding finish task_row
finish-ok lease state result error checked now s t' s' h =
    elim (Option-cases (lookup lease.task_id s.tasks)) [
      | inl e ↦ absurd (ground arith)
      | inr (task, e) ↦ (task, e, ground arith, ground arith, ground arith, ground arith)
    ]
