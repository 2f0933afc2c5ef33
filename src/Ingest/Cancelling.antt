-- ===== src/Ingest/Cancelling.antt =====
-- runtime/transactional_ingest.py: what a cancellation does to the workers of its task.
use knoarbor.Prelude.{
  ℕ, ◌≤◌, String, ◌≡◌, refl, true, List, str_eq, Option-cases, Option, none, some, arith, eq_refl,
  Bool-cases, inl, inr, if◌then◌else◌, ok, is_err,
}
use knoarbor.Json.{Json}
use knoarbor.Table.{lookup, update_where-hit}
use knoarbor.Ingest.State.{Task, AttemptLease, Store, TaskState, is_settled, task_row, cancelled}
use knoarbor.Ingest.Tasks.{renew, request_cancel, mark_cancelled, cancel_task, after_cancel}
use knoarbor.Ingest.Recovery.{finish, mark_finished, settle_task, terminal_state}
use knoarbor.Ingest.Materialize.{Digest}
use knoarbor.Ingest.Publish.{Publication, publish_revision}
use knoarbor.Ingest.Outcomes.{request_cancel-ok, finish-ok}
use knoarbor.Ingest.Consistent.{TaskOk}
use knoarbor.Ingest.Invariant.{IsConsistent}
use knoarbor.Ingest.History.{Call, run}
use knoarbor.Ingest.Epochs.{epoch_at}
use knoarbor.Ingest.Kept.{run-kept}
use knoarbor.Ingest.Stopping.{halts, Stays, Stays-IsKept, Stays-Forgotten}

settled-unleased :
    (s : Store) (id : String) (t : Task)
    → IsConsistent s
    → lookup id s.tasks ≡ some t
    → is_settled t.state ≡ true
    → t.lease_expires_at ≡ none
settled-unleased s id t v e over =
    let row : TaskOk s.attempts id t = v.tied id t e in ground (arith, row.leased)

-- The cancellation halts the leases given so far: the request is there, or no lease.
cancel-halts :
    (id : String) (expected : Option String) (now : ℕ) (s : Store) (r : Task) (s' : Store)
    → IsConsistent s
    → request_cancel id expected now s ≡ ok (r, s')
    → halts (epoch_at id s.tasks) (lookup id s'.tasks) ≡ true
unfolding mark_cancelled
cancel-halts id expected now s r s' v h =
    let (t, e, s'_is) = request_cancel-ok id expected now s r s' h in
    elim (Bool-cases (is_settled t.state)) [
      | inl over ↦ rw (s'_is, over, e, settled-unleased s id t v e over) (ground arith)
      | inr live ↦
          let written =
            update_where-hit (λ k _. str_eq k id) (cancel_task (after_cancel t.state) now) id
              s.tasks e (eq_refl id) in
          rw (s'_is, live, e, written) (ground arith)
    ]

halted_renew :
    (lease : AttemptLease) (bound secs now : ℕ) (s : Store) (t : Task)
    → lookup lease.task_id s.tasks ≡ some t
    → lease.epoch ≤ bound
    → halts bound (some t) ≡ true
    → is_err (renew lease secs now s) ≡ true
unfolding renew task_row
halted_renew lease bound secs now s t e old stopped = ground arith

halted_publish :
    (digest : Digest) (lease : AttemptLease) (p : Publication) (bound checked now later : ℕ)
    (s : Store) (t : Task)
    → lookup lease.task_id s.tasks ≡ some t
    → lease.epoch ≤ bound
    → halts bound (some t) ≡ true
    → is_err (publish_revision digest lease p checked now later s) ≡ true
unfolding publish_revision task_row
halted_publish digest lease p bound checked now later s t e old stopped = ground arith

-- Once `request_cancel` has returned, no lease of the task that was given before can be renewed and
-- none can publish, whatever is called in between: also after a recovery and a new claim of the task.
pub request_cancel-stops :
    (digest : Digest) (id : String) (expected : Option String) (now : ℕ) (s : Store) (r : Task)
    (s' : Store) (calls : List Call) (lease : AttemptLease) (secs clock checked done later : ℕ)
    (p : Publication)
    → IsConsistent s
    → request_cancel id expected now s ≡ ok (r, s')
    → lease.task_id ≡ id
    → lease.epoch ≤ epoch_at id s.tasks
    → (is_err (renew lease secs clock (run digest s' calls)) ≡ true)
      × (is_err (publish_revision digest lease p checked done later (run digest s' calls)) ≡ true)
request_cancel-stops digest id expected now s r s' calls lease secs clock checked done later p v h
      same old =
    let bound = epoch_at id s.tasks in
    let s'' = run digest s' calls in
    let stopped : halts bound (lookup lease.task_id s''.tasks) ≡ true = rw same (
      run-kept (Stays bound) (Stays-IsKept bound) digest s' calls (inr (Stays-Forgotten bound)) id
        (cancel-halts id expected now s r s' v h)) in
    elim (Option-cases (lookup lease.task_id s''.tasks)) [
      | inl gone ↦ absurd (ground (arith, stopped, gone))
      | inr (t, found) ↦
          let halted : halts bound (some t) ≡ true = rw found at stopped in
          (
            halted_renew lease bound secs clock s'' t found old halted,
            halted_publish digest lease p bound checked done later s'' t found old halted,
          )
    ]

-- A worker that ends a task for which cancellation was asked leaves it cancelled, whatever outcome
-- it reports; any other task it leaves in the state that it reports. The lease is given up.
pub finish-state :
    (lease : AttemptLease) (state : TaskState) (result : Option Json) (error : Option String)
    (checked now : ℕ) (s : Store) (t r : Task) (s' : Store)
    → lookup lease.task_id s.tasks ≡ some t
    → finish lease state result error checked now s ≡ ok (r, s')
    → (u : Task) × (lookup lease.task_id s'.tasks ≡ some u)
      × (u.state ≡ (if t.cancel_requested then cancelled else state))
      × (u.lease_expires_at ≡ none)
      × (u.lease_epoch ≡ t.lease_epoch)
unfolding mark_finished
finish-state lease state result error checked now s t r s' e h =
    let (t₀, e₀, _, _, _, s'_is) = finish-ok lease state result error checked now s r s' h in
    let same : t₀ ≡ t = cc in
    (
      settle_task (terminal_state t₀ state) now t₀,
      rw s'_is (update_where-hit _ _ lease.task_id s.tasks e₀ (eq_refl lease.task_id)),
      ground arith,
      refl,
      ground arith,
    )
