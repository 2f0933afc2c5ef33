-- ===== src/Ingest/Claiming/Tracing.antt =====
-- runtime/ingest_executor.py: the calls by which an execution changes the store.
use knoarbor.Prelude.{
  ℕ, sym, ap, not, ◌||◌, Option, none, some, [], ◌∷◌, Result, ok, err, Fault, storage_conflict,
  user_input, value_error, integrity, run_not_found, Bool-cases, Result-cases, inl, inr,
}
use knoarbor.Json.{Fields, object}
use knoarbor.Run.State.{RunStatus, ingest}
use knoarbor.Run.Policy.{completion_status}
use knoarbor.Ingest.Summary.{result_summary}
use knoarbor.Ingest.State.{AttemptLease, Store, Task, task_row}
use knoarbor.Ingest.Tasks.{claim, request_cancel, fail_queued_task}
use knoarbor.Ingest.Recovery.{finish}
use knoarbor.Ingest.Materialize.{Digest}
use knoarbor.Ingest.History.{run, claims, cancels, fails_queued, finishes, after, step}
use knoarbor.Ingest.Executor.{
  Failure, provider_rate_limited, raised, is_cancelled_run, failure_state, failure_result,
  failure_text, finish_failed,
}
use knoarbor.Ingest.Materializer.Tracing.{Reaches, Reaches-refl, Reaches-step, Reaches-trans}
use knoarbor.Ingest.Session.{World, with_store, Session, synced}
use knoarbor.Ingest.Execution.{
  Circumstances, fault_failure, Worked, failed_with, returned_with, work, end_failed, with_pending,
  task_state, close_returned, end_worked, execute_claimed,
}
use knoarbor.Ingest.Execution.Working.{work-Keeps}
use knoarbor.Ingest.Claiming.{
  Request, Reservation, admitted, refused, is_conflict, waits, answer, cancelled_unclaimed,
  finish_unclaimed_cancel, failed_unclaimed, fail_unclaimed, handled, closed, claimed, execute,
}

module _ (digest : Digest) where
  end_failed-Reaches :
      (c : Circumstances) (session : Session) (f : Failure) (world : World)
      → Reaches digest world.vault.store (end_failed c session f world).0.vault.store
  unfolding end_failed finish_failed run step
  end_failed-Reaches c session f world =
      let s = world.vault.store in
      let lease = session.lease in
      let state = failure_state f in
      let result = some (failure_result f) in
      let error = some (failure_text f) in
      elim (Result-cases (finish lease state result error c.failure_checked c.failure_now s)) [
        | inr ((t, s'), taken) ↦
            rw (end_failed, finish_failed, taken)
              (
                finishes lease state result error c.failure_checked c.failure_now ∷ [],
                sym (ap (after s) taken),
              )
        | inl (storage_conflict m, lost) ↦
            rw (end_failed, finish_failed, lost) (Reaches-refl digest s)
        | inl (user_input m, lost) ↦ rw (end_failed, finish_failed, lost) (Reaches-refl digest s)
        | inl (value_error m, lost) ↦ rw (end_failed, finish_failed, lost) (Reaches-refl digest s)
        | inl (integrity m, lost) ↦ rw (end_failed, finish_failed, lost) (Reaches-refl digest s)
        | inl (run_not_found m, lost) ↦ rw (end_failed, finish_failed, lost) (Reaches-refl digest s)
      ]

  close_returned-Reaches :
      (c : Circumstances) (session : Session) (status : RunStatus) (summary metrics : Fields)
      (world : World) (r : Result (Task × Store))
      → Reaches digest world.vault.store (after world.vault.store r)
      → Reaches digest world.vault.store
          (close_returned c session status summary metrics world r).0.vault.store
  close_returned-Reaches c session status summary metrics world (ok (t, s)) h = h
  close_returned-Reaches c session status summary metrics world (err e) h =
      end_failed-Reaches c session (fault_failure e) world

  end_worked-Reaches :
      (c : Circumstances) (session : Session) (ended : Worked) (world : World)
      → Reaches digest world.vault.store (end_worked c session ended world).0.vault.store
  unfolding end_worked step
  end_worked-Reaches c session (failed_with f) world = end_failed-Reaches c session f world
  end_worked-Reaches c session (returned_with dump metrics error) world =
      let status = completion_status ingest dump in
      let summary = with_pending error (result_summary dump) in
      close_returned-Reaches c session status summary metrics world
        (finish session.lease (task_state status) (some (object summary)) none c.finish_checked
          c.finish_now world.vault.store)
        (Reaches-step digest world.vault.store (
          finishes session.lease (task_state status) (some (object summary)) none c.finish_checked
            c.finish_now))

  pub execute_claimed-Reaches :
      (c : Circumstances) (session : Session) (world : World)
      → Reaches digest world.vault.store (execute_claimed digest c session world).0.vault.store
  unfolding execute_claimed
  execute_claimed-Reaches c session world =
      let r = work digest c session world in
      Reaches-trans digest world.vault.store r.2.vault.store _ (work-Keeps digest c session world).3
        (end_worked-Reaches c r.1 r.0 r.2)

  cancelled_unclaimed-Reaches :
      (c : Circumstances) (request : Request) (f : Failure) (world : World)
      (r : Result (Task × Store))
      → Reaches digest world.vault.store (after world.vault.store r)
      → Reaches digest world.vault.store (cancelled_unclaimed c request f world r).0.vault.store
  unfolding answer
  cancelled_unclaimed-Reaches c request f world (err e) h = Reaches-refl digest world.vault.store
  cancelled_unclaimed-Reaches c request f world (ok (t, s)) h = h

  failed_unclaimed-Reaches :
      (c : Circumstances) (request : Request) (f : Failure) (world : World)
      (r : Result (Task × Store))
      → Reaches digest world.vault.store (after world.vault.store r)
      → Reaches digest world.vault.store (failed_unclaimed c request f world r).0.vault.store
  unfolding answer
  failed_unclaimed-Reaches c request f world (ok (t, s)) h = h
  failed_unclaimed-Reaches c request f world (err (storage_conflict m)) h =
      Reaches-refl digest world.vault.store
  failed_unclaimed-Reaches c request f world (err (user_input m)) h =
      Reaches-refl digest world.vault.store
  failed_unclaimed-Reaches c request f world (err (value_error m)) h =
      Reaches-refl digest world.vault.store
  failed_unclaimed-Reaches c request f world (err (integrity m)) h =
      Reaches-refl digest world.vault.store
  failed_unclaimed-Reaches c request f world (err (run_not_found m)) h =
      Reaches-refl digest world.vault.store

  finish_unclaimed_cancel-Reaches :
      (c : Circumstances) (request : Request) (f : Failure) (world : World)
      → Reaches digest world.vault.store (finish_unclaimed_cancel c request f world).0.vault.store
  unfolding finish_unclaimed_cancel answer step
  finish_unclaimed_cancel-Reaches c request f world =
      let s = world.vault.store in
      elim (Result-cases (task_row request.task_id s)) [
        | inl (e, gone) ↦ rw (finish_unclaimed_cancel, gone) (Reaches-refl digest s)
        | inr (task, found) ↦
            elim (Bool-cases (not (waits task.state) || not task.cancel_requested)) [
              | inl other ↦ rw (finish_unclaimed_cancel, found, other) (Reaches-refl digest s)
              | inr asked ↦
                  rw (finish_unclaimed_cancel, found, asked)
                    (cancelled_unclaimed-Reaches c request f world
                      (request_cancel request.task_id (some request.attempt_id) c.failure_now s)
                      (Reaches-step digest s
                        (cancels request.task_id (some request.attempt_id) c.failure_now)))
            ]
      ]

  fail_unclaimed-Reaches :
      (c : Circumstances) (request : Request) (f : Failure) (world : World)
      → Reaches digest world.vault.store (fail_unclaimed c request f world).0.vault.store
  unfolding fail_unclaimed step
  fail_unclaimed-Reaches c request f world =
      failed_unclaimed-Reaches c request f world
        (fail_queued_task request.task_id request.attempt_id (failure_text f)
          (some (failure_result f)) c.failure_now world.vault.store)
        (Reaches-step digest world.vault.store (
          fails_queued request.task_id request.attempt_id (failure_text f) (some (failure_result f))
            c.failure_now))

  handled-Reaches :
      (c : Circumstances) (request : Request) (f : Failure) (world : World)
      → Reaches digest world.vault.store (handled c request f world).0.vault.store
  unfolding handled answer
  handled-Reaches c request (provider_rate_limited shown) world =
      fail_unclaimed-Reaches c request (provider_rate_limited shown) world
  handled-Reaches c request (raised x shown) world = elim (Bool-cases (is_cancelled_run x)) [
    | inl stopped ↦ rw stopped (finish_unclaimed_cancel-Reaches c request (raised x shown) world)
    | inr other ↦ elim (Bool-cases (is_conflict x)) [
      | inl conflict ↦ rw (other, conflict) (Reaches-refl digest world.vault.store)
      | inr fails ↦ rw (other, fails) (fail_unclaimed-Reaches c request (raised x shown) world)
    ]
  ]

  closed-Reaches :
      (c : Circumstances) (request : Request) (s : Store) (r : World × Option Fault)
      → Reaches digest s r.0.vault.store
      → Reaches digest s (closed c request r).0.vault.store
  unfolding answer
  closed-Reaches c request s (world, none) h = h
  closed-Reaches c request s (world, some e) h =
      Reaches-trans digest s world.vault.store _ h
        (handled-Reaches c request (fault_failure e) world)

  claimed-Reaches :
      (c : Circumstances) (request : Request) (world : World) (r : Result (AttemptLease × Store))
      → Reaches digest world.vault.store (after world.vault.store r)
      → Reaches digest world.vault.store (claimed c request digest world r).0.vault.store
  claimed-Reaches c request world (err e) h = handled-Reaches c request (fault_failure e) world
  claimed-Reaches c request world (ok (lease, s)) h =
      let session : Session = record { lease = lease; lease_seconds = request.lease_seconds } in
      closed-Reaches c request world.vault.store _ (
        Reaches-trans digest world.vault.store s _ h
          (execute_claimed-Reaches c session (synced session (with_store s world))))

  -- Whatever an execution meets, the store that it leaves is one that calls of the store lead to.
  pub execute-Reaches :
      (c : Circumstances) (request : Request) (reservation : Reservation) (now : ℕ) (world : World)
      → Reaches digest world.vault.store
          (execute c request digest reservation now world).0.vault.store
  unfolding execute step
  execute-Reaches c request (refused f) now world = handled-Reaches c request f world
  execute-Reaches c request (admitted version) now world =
      claimed-Reaches c request world
        (claim request.task_id request.attempt_id request.owner_id request.lease_seconds
          (some version) now world.vault.store)
        (Reaches-step digest world.vault.store (
          claims request.task_id request.attempt_id request.owner_id request.lease_seconds
            (some version) now))
