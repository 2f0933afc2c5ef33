-- ===== src/Ingest/Claiming/Answered.antt =====
-- runtime/ingest_executor.py: what `execute` answers and leaves behind.
use knoarbor.Prelude.{
  ℕ, ◌≤◌, ◌≡◌, refl, ap, true, false, ◌&&◌, Option, none, some, arith, Result, ok, Fault,
  Option-cases, inl, inr,
}
use knoarbor.Table.{lookup}
use knoarbor.Run.State.{RunStatus, is_terminal}
use knoarbor.Run.Ends.{HasEnded}
use knoarbor.Ingest.State.{AttemptLease, Store, Task, is_running, task_row}
use knoarbor.Ingest.Tasks.{claim, holds_epoch}
use knoarbor.Ingest.Materialize.{Digest}
use knoarbor.Ingest.History.{run}
use knoarbor.Ingest.Epochs.{epoch_at, epoch_of, run-Grows, claim-epoch}
use knoarbor.Ingest.Session.{World, with_store, Session, synced}
use knoarbor.Ingest.Execution.{Circumstances, execute_claimed}
use knoarbor.Ingest.Execution.Released.{Ends}
use knoarbor.Ingest.Execution.Ending.{execute_claimed-Ends}
use knoarbor.Ingest.Claiming.{Request, Reservation, admitted, answer, closed, execute}
use knoarbor.Ingest.Claiming.Tracing.{execute_claimed-Reaches, execute-Reaches}
use knoarbor.Ingest.Invariant.{IsConsistent}
use knoarbor.Ingest.Safety.{run-IsConsistent}

-- The answer is the task as the store has it, which the worker has released, and the run has ended.
abbrev pub Answers : Circumstances → Request → AttemptLease → World × Result Task → Type 0
Answers c request lease r =
    (t : Task) × (r.1 ≡ ok t)
    × (lookup request.task_id r.0.vault.store.tasks ≡ some t)
    × ((holds_epoch lease t c.failure_checked && is_running t.state) ≡ false)
    × (status : RunStatus) × HasEnded status c.ended r.0.files
    × (is_terminal status ≡ true)

module _ (digest : Digest) (c : Circumstances) (request : Request) where
  answer-Answers :
      (session : Session) (world : World) (r : World × Option Fault) (t : Task)
      → session.lease.task_id ≡ request.task_id
      → Ends c session r
      → lookup request.task_id r.0.vault.store.tasks ≡ some t
      → Answers c request session.lease (closed c request r)
  unfolding answer task_row
  answer-Answers session world (world', some e) t same ends found = absurd (ground (arith, ends.0))
  answer-Answers session world (world', none) t same (_, status, ended, terminal, released) found =
      (t, rw found refl, found, released t (rw same found), status, ended, terminal)

  -- Once the claim of a task has returned, its execution ends: it answers with the task as the store has it,
  -- the run has a terminal status and the time of its end, and the task is not left running under the lease.
  pub execute-Answers :
      (version now : ℕ) (world : World) (lease : AttemptLease) (s : Store)
      → claim request.task_id request.attempt_id request.owner_id request.lease_seconds
          (some version)
          now
          world.vault.store
        ≡ ok (lease, s)
      → Answers c request lease (execute c request digest (admitted version) now world)
  unfolding execute
  execute-Answers version now world lease s h =
      let session : Session = record { lease = lease; lease_seconds = request.lease_seconds } in
      let opened = synced session (with_store s world) in
      let (task, epoch, held) =
        claim-epoch request.task_id request.attempt_id request.owner_id request.lease_seconds
          (some version) now world.vault.store lease s h in
      let held_here : 1 ≤ epoch_at request.task_id s.tasks = omega (arith, epoch, held) in
      let r = execute_claimed digest c session opened in
      let ends = execute_claimed-Ends digest c session opened (rw task held_here) in
      let (calls, reached) = execute_claimed-Reaches digest c session opened in
      elim (Option-cases (lookup request.task_id r.0.vault.store.tasks)) [
        | inl gone ↦
            let no_epoch : epoch_at request.task_id (run digest s calls).tasks ≡ 0 =
              ap epoch_of (rw reached at gone) in
            absurd (omega (arith, held_here, run-Grows digest s calls request.task_id, no_epoch))
        | inr (t, found) ↦ rw h (answer-Answers session world r t task ends found)
      ]

  -- An execution keeps a well-formed store well-formed, whatever the reservation, the service, the
  -- reconciliation and other processes do.
  pub execute-IsConsistent :
      (reservation : Reservation) (now : ℕ) (world : World)
      → IsConsistent world.vault.store
      → IsConsistent (execute c request digest reservation now world).0.vault.store
  execute-IsConsistent reservation now world v =
      let (calls, reached) = execute-Reaches digest c request reservation now world in
      rw reached (run-IsConsistent digest world.vault.store calls v)
