-- ===== src/Ingest/OutcomesMore.antt =====
-- runtime/transactional_ingest.py: the same for the transactions that add rows.
use knoarbor.Prelude.{
  ℕ, String, ◌≡◌, true, false, some, arith, str_eq, ◌+◌, Option-cases, inl, inr, ok, ◌⊎◌, >>=-eq-ok,
  require, user_input, ◌&&◌,
}
use knoarbor.Table.{Table, lookup, insert}
use knoarbor.Ingest.State.{Task, Attempt, AttemptLease, Store, task_row, attempt_row}
use knoarbor.Ingest.Tasks.{
  Command, Admission, existing_command, new_command, new_task, new_attempt, insert_task,
  insert_attempt, holds_epoch,
}
use knoarbor.Ingest.Recovery.{
  admit_recovery, assess, is_expired_running, closed_attempts, mark_requeued, attempt_count,
}
use knoarbor.Ingest.Publish.{Publication, publish_revision, existing_revision, publish_new}
use knoarbor.Ingest.Materialize.{Digest}

-- A new row went under its primary key.
pub insert_attempt-ok :
    (k : String) (a : Attempt) (rows rows' : Table Attempt)
    → insert_attempt k a rows ≡ ok rows'
    → insert k a rows ≡ ok rows'
unfolding insert_attempt
insert_attempt-ok k a rows rows' h = ground arith

pub insert_task-ok :
    (k : String) (t : Task) (rows rows' : Table Task)
    → insert_task k t rows ≡ ok rows'
    → insert k t rows ≡ ok rows'
unfolding insert_task
insert_task-ok k t rows rows' h = ground arith

pub existing_command-ok :
    (row : String × Task) (s s' : Store) (r : Admission)
    → existing_command row s ≡ ok (r, s')
    → (s' ≡ s) × (r.0.0 ≡ row.0) × (lookup row.0 s.tasks ≡ some r.0.1)
unfolding existing_command task_row attempt_row
existing_command-ok (k, t) s s' r h = ground arith

pub new_command-ok :
    (c : Command) (hash task_id attempt_id : String) (now : ℕ) (s s' : Store) (r : Admission)
    → new_command c hash task_id attempt_id now s ≡ ok (r, s')
    → (tasks : Table Task) × (attempts : Table Attempt) × (insert_task task_id
          (new_task c hash attempt_id now)
          s.tasks
        ≡ ok tasks)
      × (insert_attempt attempt_id (new_attempt task_id 1 now) s.attempts ≡ ok attempts)
      × (s' ≡ record s { tasks = tasks; attempts = attempts })
      × (r.0.0 ≡ task_id)
      × (lookup task_id tasks ≡ some r.0.1)
unfolding new_command task_row attempt_row
new_command-ok c hash task_id attempt_id now s s' r h =
    let (tasks, e, h₁) =
      >>=-eq-ok (insert_task task_id (new_task c hash attempt_id now) s.tasks) _ h in
    let (attempts, e', h₂) =
      >>=-eq-ok (insert_attempt attempt_id (new_attempt task_id 1 now) s.attempts) _ h₁ in
    (tasks, attempts, e, e', ground arith, ground arith, ground arith)

row_found :
    (task_id : String) (s : Store) (t : Task)
    → task_row task_id s ≡ ok t
    → lookup task_id s.tasks ≡ some t
unfolding task_row
row_found task_id s t h = ground arith

attempt_found :
    (attempt_id : String) (s : Store) (a : Attempt)
    → attempt_row attempt_id s ≡ ok a
    → lookup attempt_id s.attempts ≡ some a
unfolding attempt_row
attempt_found attempt_id s a h = ground arith

pub admit_recovery-ok :
    (task_id expected attempt_id : String) (checked now : ℕ) (s s' : Store) (r : Admission)
    → admit_recovery task_id expected attempt_id checked now s ≡ ok (r, s')
    → (task : Task) × (previous : Attempt) × (attempts : Table Attempt) × (lookup task_id s.tasks
        ≡ some task)
      × (lookup expected s.attempts ≡ some previous)
      × (str_eq task.current_attempt_id expected ≡ true)
      × ((assess task previous (is_expired_running task checked)).available ≡ true)
      × (insert_attempt attempt_id
            (new_attempt task_id
              (attempt_count task_id
                  (closed_attempts (is_expired_running task checked) expected now s.attempts)
                + 1)
              now)
            (closed_attempts (is_expired_running task checked) expected now s.attempts)
          ≡ ok attempts)
      × (s' ≡ mark_requeued task_id attempt_id now attempts s)
unfolding admit_recovery
admit_recovery-ok task_id expected attempt_id checked now s s' r h =
    let (task, e, h₁) = >>=-eq-ok (task_row task_id s) _ h in
    let (previous, e', h₂) = >>=-eq-ok (attempt_row expected s) _ h₁ in
    let (u, guard, h₃) =
      >>=-eq-ok
        (require
          (str_eq task.current_attempt_id expected
            && (assess task previous (is_expired_running task checked)).available)
          (user_input (assess task previous (is_expired_running task checked)).reason))
        _ h₂ in
    let (attempts, added, h₄) =
      >>=-eq-ok
        (insert_attempt attempt_id
          (new_attempt task_id
            (attempt_count task_id
                (closed_attempts (is_expired_running task checked) expected now s.attempts)
              + 1)
            now)
          (closed_attempts (is_expired_running task checked) expected now s.attempts))
        _ h₃ in
    (
      task,
      previous,
      attempts,
      row_found task_id s task e,
      attempt_found expected s previous e',
      ground arith,
      ground arith,
      added,
      ground arith,
    )

-- A publication that returned held the current lease of a task not cancelled; then either the
-- input had been published before, or it was published now.
pub publish_revision-ok :
    (digest : Digest) (lease : AttemptLease) (p : Publication) (checked now later : ℕ) (s : Store)
    (revision : String) (s' : Store)
    → publish_revision digest lease p checked now later s ≡ ok (revision, s')
    → (task : Task) × (lookup lease.task_id s.tasks ≡ some task)
      × (holds_epoch lease task checked ≡ true)
      × (task.cancel_requested ≡ false)
      × ((s' ≡ s) ⊎ (publish_new digest lease p now later s ≡ ok (revision, s')))
unfolding publish_revision task_row
publish_revision-ok digest lease p checked now later s revision s' h =
    elim (Option-cases (lookup lease.task_id s.tasks)) [
      | inl e ↦ absurd (ground arith)
      | inr (task, e) ↦ (
        task,
        e,
        ground arith,
        ground arith,
        elim (Option-cases (existing_revision p s.source_revisions)) [
          | inl fresh ↦ inr (ground arith)
          | inr (row, found) ↦ inl (ground arith)
        ],
      )
    ]
