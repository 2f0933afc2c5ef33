-- ===== src/Ingest/Execution/Released.antt =====
-- runtime/ingest_executor.py: the writes that end an attempt, and the lease after them.
use knoarbor.Prelude.{
  ℕ, String, ◌≡◌, refl, sym, ◌∙◌, true, false, ◌&&◌, Option, none, some, arith, str_eq, eq_refl, ok,
  err, Fault, storage_conflict, Bool-cases, ◌⊎◌, inl, inr,
}
use knoarbor.Json.{Json, Fields, object}
use knoarbor.Table.{lookup, update_where-hit}
use knoarbor.Run.State.{ingest, RunStatus, completed, partially_failed, is_terminal}
use knoarbor.Run.Monitor.{complete, partially_fail}
use knoarbor.Run.Endings.{failed_status}
use knoarbor.Run.Policy.{completion_status, ingest_partially_failed}
use knoarbor.Run.Ends.{HasEnded, finish-HasEnded, fail-HasEnded}
use knoarbor.Ingest.State.{AttemptLease, Store, Task, TaskState, is_running, task_row}
use knoarbor.Ingest.Tasks.{holds_epoch}
use knoarbor.Ingest.Recovery
use knoarbor.Ingest.Recovery.{settle_task, mark_finished, terminal_state}
use knoarbor.Ingest.Executor.{
  failure-is_terminal, Failure, failure_state, failure_exception, failure_result, failure_text,
  finish_failed,
}
use knoarbor.Ingest.Summary.{result_summary}
use knoarbor.Ingest.Session.{World, Session}
use knoarbor.Ingest.Execution.{
  Circumstances, Worked, failed_with, returned_with, close_failed, end_failed, with_pending,
  task_state, close_returned, end_worked,
}

-- `finish` for a task that exists: it is refused, or the task is settled.
pub finish-refused :
    (lease : AttemptLease) (state : TaskState) (result : Option Json) (error : Option String)
    (checked now : ℕ) (s : Store) (t : Task)
    → Recovery.is_terminal state ≡ true
    → lookup lease.task_id s.tasks ≡ some t
    → (holds_epoch lease t checked && is_running t.state) ≡ false
    → Recovery.finish lease state result error checked now s
      ≡ err (storage_conflict "Stale ingest worker cannot finalize this task.")
unfolding Recovery.finish task_row
finish-refused lease state result error checked now s t terminal found refused =
    rw (terminal, found, refused) refl

pub finish-taken :
    (lease : AttemptLease) (state : TaskState) (result : Option Json) (error : Option String)
    (checked now : ℕ) (s : Store) (t : Task)
    → Recovery.is_terminal state ≡ true
    → lookup lease.task_id s.tasks ≡ some t
    → (holds_epoch lease t checked && is_running t.state) ≡ true
    → Recovery.finish lease state result error checked now s
      ≡ ok (
        settle_task (terminal_state t state) now t,
        mark_finished lease (terminal_state t state) result error now s,
      )
unfolding Recovery.finish mark_finished task_row
finish-taken lease state result error checked now s t terminal found owned =
    let written =
      update_where-hit (λ k _. str_eq k lease.task_id) (settle_task (terminal_state t state) now)
        lease.task_id s.tasks found (eq_refl lease.task_id) in
    rw (terminal, found, owned, written) refl

terminal-idle :
    (state : TaskState) (t : Task)
    → Recovery.is_terminal state ≡ true
    → is_running (terminal_state t state) ≡ false
terminal-idle state t terminal = ground (arith, terminal)

-- The worker does not own a running task any more.
abbrev pub IsReleased : AttemptLease → ℕ → Store → Type 0
IsReleased lease checked s =
    (t : Task)
    → lookup lease.task_id s.tasks ≡ some t
    → (holds_epoch lease t checked && is_running t.state) ≡ false

mark_finished-IsReleased :
    (lease : AttemptLease) (state : TaskState) (result : Option Json) (error : Option String)
    (checked now : ℕ) (s : Store) (t : Task)
    → Recovery.is_terminal state ≡ true
    → lookup lease.task_id s.tasks ≡ some t
    → IsReleased lease checked (mark_finished lease (terminal_state t state) result error now s)
unfolding mark_finished
mark_finished-IsReleased lease state result error checked now s t terminal found u e =
    let written =
      update_where-hit (λ k _. str_eq k lease.task_id) (settle_task (terminal_state t state) now)
        lease.task_id s.tasks found (eq_refl lease.task_id) in
    let same : some (settle_task (terminal_state t state) now t) ≡ some u = sym written ∙ e in
    let idle = terminal-idle state t terminal in ground (arith, same, idle)

-- No exception is left, the run has ended and the worker has released the task.
abbrev pub Ends : Circumstances → Session → World × Option Fault → Type 0
Ends c session r =
    (r.1 ≡ none)
    × (status : RunStatus) × HasEnded status c.ended r.0.files
    × (is_terminal status ≡ true)
    × IsReleased session.lease c.failure_checked r.0.vault.store

failed-terminal : (f : Failure) → is_terminal (failed_status (failure_exception f).0) ≡ true
failed-terminal f = ground arith

close_failed-Ends :
    (c : Circumstances) (session : Session) (f : Failure) (world : World) (s : Store)
    → IsReleased session.lease c.failure_checked s
    → Ends c session (close_failed c f world (ok s))
close_failed-Ends c session f world s released = (
  refl,
  failed_status (failure_exception f).0,
  fail-HasEnded _ _ _ _ _ _ _ _ _,
  failed-terminal f,
  released,
)

end_failed-Ends :
    (c : Circumstances) (session : Session) (f : Failure) (world : World) (t : Task)
    → lookup session.lease.task_id world.vault.store.tasks ≡ some t
    → Ends c session (end_failed c session f world)
unfolding end_failed finish_failed
end_failed-Ends c session f world t found =
    let s = world.vault.store in
    let lease = session.lease in
    let state = failure_state f in
    let result = some (failure_result f) in
    let error = some (failure_text f) in
    let terminal = failure-is_terminal f in
    elim (Bool-cases (holds_epoch lease t c.failure_checked && is_running t.state)) [
      | inl owned ↦
          let taken =
            finish-taken lease state result error c.failure_checked c.failure_now s t terminal found
              owned in
          let s' = mark_finished lease (terminal_state t state) result error c.failure_now s in
          rw (end_failed, finish_failed, taken)
            (close_failed-Ends c session f world s' (
              mark_finished-IsReleased lease state result error c.failure_checked c.failure_now s t
                terminal found))
      | inr lost ↦
          let refused =
            finish-refused lease state result error c.failure_checked c.failure_now s t terminal
              found lost in
          rw (end_failed, finish_failed, refused)
            (close_failed-Ends c session f world s
              (λ u e. let same : some t ≡ some u = sym found ∙ e in ground (arith, same, lost)))
    ]

pub completion-cases :
    (dump : Fields)
    → ((completion_status ingest dump ≡ partially_failed)
        ⊎ (completion_status ingest dump ≡ completed))
unfolding completion_status
completion-cases dump = elim (Bool-cases (ingest_partially_failed dump)) [
  | inl partial ↦ inl (rw partial refl)
  | inr whole ↦ inr (rw whole refl)
]

-- What `store.finish` let through is recorded as it is.
pub close_returned-HasEnded :
    (c : Circumstances) (session : Session) (status : RunStatus) (summary metrics : Fields)
    (world : World) (t : Task) (s : Store)
    → ((status ≡ partially_failed) ⊎ (status ≡ completed))
    → HasEnded status c.ended
        (close_returned c session status summary metrics world (ok (t, s))).0.files
unfolding complete partially_fail
close_returned-HasEnded c session status summary metrics world t s (inl partial) = rw partial (
    finish-HasEnded world.monitor partially_failed "partially_failed" "run_partially_failed" _
      summary metrics c.ended c.ended_logged c.between c.during world.files)
close_returned-HasEnded c session status summary metrics world t s (inr whole) = rw whole (
    finish-HasEnded world.monitor completed "completed" "run_completed" _ summary metrics c.ended
      c.ended_logged c.between c.during world.files)

status-terminal :
    (status : RunStatus)
    → ((status ≡ partially_failed) ⊎ (status ≡ completed))
    → is_terminal status ≡ true
status-terminal status (inl partial) = rw partial refl
status-terminal status (inr whole) = rw whole refl

pub end_worked-Ends :
    (c : Circumstances) (session : Session) (ended : Worked) (world : World) (t : Task)
    → lookup session.lease.task_id world.vault.store.tasks ≡ some t
    → Ends c session (end_worked c session ended world)
unfolding end_worked
end_worked-Ends c session (failed_with f) world t found = end_failed-Ends c session f world t found
end_worked-Ends c session (returned_with dump metrics error) world t found =
    let s = world.vault.store in
    let lease = session.lease in
    let status = completion_status ingest dump in
    let state = task_state status in
    let summary = with_pending error (result_summary dump) in
    let terminal : Recovery.is_terminal state ≡ true = ground arith in
    elim (Bool-cases (holds_epoch lease t c.finish_checked && is_running t.state)) [
      | inl owned ↦
          let taken =
            finish-taken lease state (some (object summary)) none c.finish_checked c.finish_now s t
              terminal found owned in
          let s' =
            mark_finished lease (terminal_state t state) (some (object summary)) none c.finish_now
              s in
          rw taken (
            refl,
            status,
            close_returned-HasEnded c session status summary metrics world
                (settle_task (terminal_state t state) c.finish_now t) s' (completion-cases dump),
            status-terminal status (completion-cases dump),
            (mark_finished-IsReleased lease state (some (object summary)) none c.failure_checked
                c.finish_now s t terminal found),
          )
      | inr lost ↦
          rw
            (finish-refused lease state (some (object summary)) none c.finish_checked c.finish_now s
              t terminal found lost)
            (end_failed-Ends c session _ world t found)
    ]
