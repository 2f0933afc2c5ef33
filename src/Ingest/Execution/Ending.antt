-- ===== src/Ingest/Execution/Ending.antt =====
-- runtime/ingest_executor.py: the end of a claimed attempt, in the store and in the files of its run.
use mathlib.Core.Path.{subst}
use knoarbor.Prelude.{
  ℕ, ◌≤◌, ◌≡◌, refl, sym, ap, true, false, ◌&&◌, Option, none, some, arith, str_eq, eq_refl, Fault,
  Option-cases, inl, inr,
}
use knoarbor.Json.{object}
use knoarbor.Errors.{run_cancelled}
use knoarbor.Table.{lookup, update_where-hit}
use knoarbor.Run.State.{ingest, RunStatus}
use knoarbor.Run.Policy.{completion_status}
use knoarbor.Run.Ends.{HasEnded, fail-HasEnded}
use knoarbor.Ingest.State.{AttemptLease, Store, Task, TaskState, is_running}
use knoarbor.Ingest.Tasks.{holds_epoch}
use knoarbor.Ingest.Recovery
use knoarbor.Ingest.Recovery.{settle_task, mark_finished, terminal_state}
use knoarbor.Ingest.Materialize.{Digest}
use knoarbor.Ingest.History.{run}
use knoarbor.Ingest.Epochs.{epoch_at, epoch_of, run-Grows}
use knoarbor.Ingest.Executor.{
  Failure, provider_rate_limited, raised, failure-is_terminal, failure_state, failure_exception,
  failure_result, failure_text, finish_failed,
}
use knoarbor.Ingest.Summary.{result_summary}
use knoarbor.Ingest.Session.{World, Session}
use knoarbor.Ingest.Execution.{
  Circumstances, failure_stage, Worked, failed_with, returned_with, work, end_failed, with_pending,
  task_state, end_worked, execute_claimed,
}
use knoarbor.Run.Projection.{shown_status}
use knoarbor.Ingest.Execution.Released.{
  IsReleased, Ends, end_worked-Ends, finish-taken, completion-cases, close_returned-HasEnded,
}
use knoarbor.Ingest.Execution.Working.{work-Keeps}
use knoarbor.Ingest.Execution.Fates.{
  end_state, run_status, break_ends, ends_as, shown_as, break-ends, work-ends,
}

IsReleased-same :
    (lease lease' : AttemptLease) (checked : ℕ) (s : Store)
    → lease'.task_id ≡ lease.task_id
    → lease'.attempt_id ≡ lease.attempt_id
    → lease'.epoch ≡ lease.epoch
    → IsReleased lease' checked s
    → IsReleased lease checked s
IsReleased-same lease lease' checked s task attempt epoch released t found =
    rw (attempt, epoch) at (released t (rw task found))

-- A claimed attempt ends, whatever the service, the reconciliation and other processes do: no
-- exception is left, the run has a terminal status and the time of its end, and the task is not left
-- running under the lease.
pub execute_claimed-Ends :
    (digest : Digest) (c : Circumstances) (session : Session) (world : World)
    → 1 ≤ epoch_at session.lease.task_id world.vault.store.tasks
    → Ends c session (execute_claimed digest c session world)
unfolding execute_claimed
execute_claimed-Ends digest c session world held =
    let r = work digest c session world in
    let (task, attempt, epoch, (calls, reached)) = work-Keeps digest c session world in
    elim (Option-cases (lookup r.1.lease.task_id r.2.vault.store.tasks)) [
      | inl gone ↦
          let no_epoch : epoch_at session.lease.task_id (run digest world.vault.store calls).tasks
              ≡ 0 =
            ap epoch_of (rw (task, reached) at gone) in
          absurd (
            omega (
              arith,
              held,
              run-Grows digest world.vault.store calls session.lease.task_id,
              no_epoch,
            ))
      | inr (t, found) ↦
          let (returns_none, status, ended, terminal, released) =
            end_worked-Ends c r.1 r.0 r.2 t found in
          (
            returns_none,
            status,
            ended,
            terminal,
            IsReleased-same session.lease r.1.lease c.failure_checked
                (end_worked c r.1 r.0 r.2).0.vault.store task attempt epoch released,
          )
    ]

-- The task is in the state, the run has ended with the status.
abbrev pub Records : Circumstances → Session → TaskState → RunStatus → World × Option Fault → Type 0
Records c session state status r =
    (t : Task) × (lookup session.lease.task_id r.0.vault.store.tasks ≡ some t)
    × (t.state ≡ state)
    × HasEnded status c.ended r.0.files

abbrev pub Owns : Circumstances → Session → Task → Type 0
Owns c session t =
    (t.cancel_requested ≡ false)
    × (is_running t.state ≡ true)
    × (holds_epoch session.lease t c.finish_checked ≡ true)
    × (holds_epoch session.lease t c.failure_checked ≡ true)

end_worked-Records :
    (c : Circumstances) (session : Session) (ended : Worked) (world : World) (t : Task)
    → lookup session.lease.task_id world.vault.store.tasks ≡ some t
    → Owns c session t
    → Records c session (end_state ended) (run_status ended) (end_worked c session ended world)
unfolding end_worked end_failed finish_failed mark_finished
end_worked-Records c session (failed_with f) world t found (open_task, active, _, holds) =
    let s = world.vault.store in
    let lease = session.lease in
    let state = failure_state f in
    let result = some (failure_result f) in
    let error = some (failure_text f) in
    let owned : (holds_epoch lease t c.failure_checked && is_running t.state) ≡ true =
      ground (arith, holds, active) in
    let taken =
      finish-taken lease state result error c.failure_checked c.failure_now s t
        (failure-is_terminal f) found owned in
    let written =
      update_where-hit (λ k _. str_eq k lease.task_id) (settle_task state c.failure_now)
        lease.task_id s.tasks found (eq_refl lease.task_id) in
    rw (end_failed, finish_failed, taken, open_task)
      (
        settle_task state c.failure_now t,
        written,
        refl,
        fail-HasEnded world.monitor (failure_exception f).0 (failure_stage f)
            (failure_exception f).1 c.ended c.ended_logged c.between c.during world.files,
      )
end_worked-Records c session (returned_with dump metrics error) world t found
      (open_task, active, holds, _) =
    let s = world.vault.store in
    let lease = session.lease in
    let status = completion_status ingest dump in
    let state = task_state status in
    let summary = with_pending error (result_summary dump) in
    let result = some (object summary) in
    let terminal : Recovery.is_terminal state ≡ true = ground arith in
    let owned : (holds_epoch lease t c.finish_checked && is_running t.state) ≡ true =
      ground (arith, holds, active) in
    let taken =
      finish-taken lease state result none c.finish_checked c.finish_now s t terminal found owned in
    let written =
      update_where-hit (λ k _. str_eq k lease.task_id) (settle_task state c.finish_now)
        lease.task_id s.tasks found (eq_refl lease.task_id) in
    rw (taken, open_task)
      (
        settle_task state c.finish_now t,
        written,
        refl,
        close_returned-HasEnded c session status summary metrics world t s (completion-cases dump),
      )

break-shown : (f : Failure) → shown_status (break_ends f).0 ≡ shown_as (break_ends f).1
break-shown (provider_rate_limited shown) = refl
break-shown (raised (run_cancelled message) shown) = refl
break-shown (raised x shown) = refl

shown-end_state : (ended : Worked) → shown_status (end_state ended) ≡ shown_as (run_status ended)
shown-end_state (failed_with f) =
    subst (λ (e : TaskState × RunStatus). shown_status e.0 ≡ shown_as e.1) (sym (break-ends f))
      (break-shown f)
shown-end_state (returned_with dump metrics error) = elim (completion-cases dump) [
  | inl partial ↦ rw partial refl
  | inr done ↦ rw done refl
]

-- A claimed attempt that its worker still owns when it ends it, and that nobody asked to cancel, ends in the
-- store and in its run by what happened to it: stopped before the service or after it returned, or broken off by a
-- cancellation, it is kept for recovery and its run cancelled; at the limit of a provider it is paused and its
-- run failed; with another exception of the service, or a renewal that the store refused, both failed;
-- otherwise both are completed, or partially failed where the result says so. The store shows the task with the
-- status of the run, but a cancelled run as failed.
pub execute_claimed-Records :
    (digest : Digest) (c : Circumstances) (session : Session) (world : World) (t : Task)
    → lookup session.lease.task_id (work digest c session world).2.vault.store.tasks ≡ some t
    → Owns c session t
    → Records c session
        (ends_as digest c session world).0
        (ends_as digest c session world).1
        (execute_claimed digest c session world)
      × (shown_status (ends_as digest c session world).0
          ≡ shown_as (ends_as digest c session world).1)
unfolding execute_claimed
execute_claimed-Records digest c session world t found owns =
    let r = work digest c session world in
    let (task, attempt, epoch, _) = work-Keeps digest c session world in
    subst
      (λ (e : TaskState × RunStatus).
        Records c session e.0 e.1 (end_worked c r.1 r.0 r.2) × (shown_status e.0 ≡ shown_as e.1))
      (work-ends digest c session world)
      (
        subst
            (λ id.
              (u : Task) × (lookup id (end_worked c r.1 r.0 r.2).0.vault.store.tasks ≡ some u)
              × (u.state ≡ end_state r.0)
              × HasEnded (run_status r.0) c.ended (end_worked c r.1 r.0 r.2).0.files)
            task
            (end_worked-Records c r.1 r.0 r.2 t (rw task found)
              (owns.0, owns.1, rw (attempt, epoch) (owns.2), rw (attempt, epoch) (owns.3))),
        shown-end_state r.0,
      )
