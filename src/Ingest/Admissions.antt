-- ===== src/Ingest/Admissions.antt =====
-- runtime/transactional_ingest.py: `submit_command` and `admit_recovery` keep the store
-- well-formed: each adds an attempt and points a task at it.
use knoarbor.Prelude.{
  ℕ, String, ◌≡◌, refl, ◌∙◌, Bool, true, false, some, arith, eq_iff, eq_refl, Option-cases, inl,
  inr, ok, ◌+◌,
}
use knoarbor.Table.{Table, lookup, Unique-update_where, Unique-insert, lookup-insert}
use knoarbor.Ingest.State.{Task, Attempt, Store}
use knoarbor.Ingest.Tasks.{
  Command, Admission, submit_command, new_command, find_command, new_task, new_attempt,
}
use knoarbor.Ingest.Recovery.{
  admit_recovery, mark_requeued, closed_attempts, is_expired_running, expire_attempt, requeue_task,
  attempt_count,
}
use knoarbor.Ingest.OutcomesMore.{
  insert_attempt-ok, insert_task-ok, existing_command-ok, new_command-ok, admit_recovery-ok,
}
use knoarbor.Ingest.Consistent.{
  TaskOk, Others, Others-total, Others-update, Others-insert, Others-update_task, new_task_added,
}
use knoarbor.Ingest.Invariant.{IsConsistent}

new_command-IsConsistent :
    (c : Command) (hash task_id attempt_id : String) (now : ℕ) (s : Store) (r : Admission)
    (s' : Store)
    → IsConsistent s
    → new_command c hash task_id attempt_id now s ≡ ok (r, s')
    → IsConsistent s'
new_command-IsConsistent c hash task_id attempt_id now s r s' v h =
    let (tasks, attempts, e, e', s'_is, named, found) =
      new_command-ok c hash task_id attempt_id now s s' r h in
    let t = new_task c hash attempt_id now in
    let a = new_attempt task_id 1 now in
    let ins = insert_task-ok task_id t s.tasks tasks e in
    let ins' = insert_attempt-ok attempt_id a s.attempts attempts e' in
    rw s'_is (record {
      unique = Unique-insert task_id t s.tasks tasks ins v.unique;
      tied =
          new_task_added task_id t attempt_id a s.tasks tasks s.attempts attempts ins ins'
            (record {
              current = a;
              found =
                  lookup-insert attempt_id a s.attempts attempts attempt_id ins'
                  ∙ rw (eq_refl attempt_id);
              own = refl;
              same_state = refl;
              leased = refl;
            })
            v.tied;
    })

pub submit_command-IsConsistent :
    (c : Command) (hash task_id attempt_id : String) (now : ℕ) (s : Store) (r : Admission)
    (s' : Store)
    → IsConsistent s
    → submit_command c hash task_id attempt_id now s ≡ ok (r, s')
    → IsConsistent s'
unfolding submit_command
submit_command-IsConsistent c hash task_id attempt_id now s r s' v h =
    elim (Option-cases (find_command hash s.tasks)) [
      | inl fresh ↦ new_command-IsConsistent c hash task_id attempt_id now s r s' v (ground arith)
      | inr (row, found) ↦ rw (existing_command-ok row s s' r (ground arith)).0 v
    ]

closed-Others :
    (id expected : String) (expired : Bool) (now : ℕ) (attempts : Table Attempt)
    (tasks : Table Task) (a : Attempt)
    → lookup expected attempts ≡ some a
    → a.task_id ≡ id
    → Others id attempts tasks
    → Others id (closed_attempts expired expected now attempts) tasks
closed-Others id expected true now attempts tasks a e own w =
    Others-update id expected (expire_attempt now) attempts tasks a e own w
closed-Others id expected false now attempts tasks a e own w = w

pub admit_recovery-IsConsistent :
    (task_id expected attempt_id : String) (checked now : ℕ) (s : Store) (r : Admission)
    (s' : Store)
    → IsConsistent s
    → admit_recovery task_id expected attempt_id checked now s ≡ ok (r, s')
    → IsConsistent s'
unfolding mark_requeued
admit_recovery-IsConsistent task_id expected attempt_id checked now s r s' v h =
    let (task, previous, attempts, e, e', same, _, added, s'_is) =
      admit_recovery-ok task_id expected attempt_id checked now s s' r h in
    let expired = is_expired_running task checked in
    let closed = closed_attempts expired expected now s.attempts in
    let a = new_attempt task_id (attempt_count task_id closed + 1) now in
    let ins = insert_attempt-ok attempt_id a closed attempts added in
    let row : TaskOk s.attempts task_id task = v.tied task_id task e in
    let own : previous.task_id ≡ task_id =
      cc ((eq_iff task.current_attempt_id expected).0 same, row.found, row.own, e') in
    let others = Others-insert task_id attempt_id a closed attempts s.tasks ins (
      closed-Others task_id expected expired now s.attempts s.tasks previous e' own
        (Others-total task_id s.attempts s.tasks v.tied)) in
    rw (s'_is, mark_requeued)
      (record {
        unique = Unique-update_where _ _ s.tasks v.unique;
        tied =
            Others-update_task task_id (requeue_task attempt_id now) attempts s.tasks task e
              (record {
                current = a;
                found =
                    lookup-insert attempt_id a closed attempts attempt_id ins
                    ∙ rw (eq_refl attempt_id);
                own = refl;
                same_state = refl;
                leased = refl;
              })
              others;
      })
