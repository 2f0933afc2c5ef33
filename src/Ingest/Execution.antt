-- ===== src/Ingest/Execution.antt =====
-- runtime/ingest_executor.py: `_execute_claimed`, the one attempt of an ingest task, over the store, the
-- reconciliation of the vault and the run monitor.
pub mod Released
pub mod Working
pub mod Fates
pub mod Ending
use knoarbor.Prelude.{
  ℕ, String, Bool, true, false, Option, none, some, List, Result, ok, err, Fault, storage_conflict,
  user_input, value_error, integrity, run_not_found, if◌then◌else◌,
}
use knoarbor.Text.{is_empty}
use knoarbor.Json.{Fields, boolean, text, object, set_field}
use knoarbor.Errors.{
  ErrorClass, Raised, known, run_cancelled, other, user_input_error_class, storage_conflict_class,
  materialization_pending,
}
use knoarbor.Run.State.{ingest, RunStatus, partially_failed, RunFiles}
use knoarbor.Run.Monitor.{RunMonitor, start, complete, partially_fail}
use knoarbor.Run.Endings.{fail}
use knoarbor.Run.Policy.{completion_status}
use knoarbor.Run.Queue.{is_partial}
use knoarbor.Ingest.State.{Store, Task, TaskState, completed, partially_failed}
use knoarbor.Ingest.Recovery.{finish}
use knoarbor.Ingest.Materialize.{Digest, is_clean}
use knoarbor.Ingest.History.{Call, run}
use knoarbor.Ingest.Executor.{
  Failure, provider_rate_limited, raised, failure_exception, finish_failed,
}
use knoarbor.Ingest.Session.{World, with_store, Session, synced, with_lease, renew_session}
use knoarbor.Ingest.Summary.{result_summary}
use knoarbor.Ingest.Materializer.{Vault, Surroundings, Outcome, settled, reconcile}

-- How the service ends: it raises, or returns a result with its fields and metrics.
pub data Service : Type 0 where
  breaks : Failure → Service
  returns : Fields → Fields → Service

-- What a claimed attempt meets: the calls of the store while the service runs, its own and those of
-- others, the end of the lease that the session holds after them, what becomes of the files of the run, how
-- the service ends, whether the operation is stopped, what the reconciliation meets, and the clock.
pub record Circumstances : Type 0 where
  pub calls : List Call
  pub lease_expires_at : ℕ
  pub reports : RunFiles → RunFiles
  pub service : Service
  pub is_stopped_before : Bool
  pub is_stopped_after : Bool
  pub surroundings : Surroundings
  pub started : ℕ
  pub beat : ℕ
  pub logged : ℕ
  pub renewed : ℕ
  pub finish_checked : ℕ
  pub finish_now : ℕ
  pub failure_checked : ℕ
  pub failure_now : ℕ
  pub ended : ℕ
  pub ended_logged : ℕ
  pub between : RunFiles → RunFiles
  pub during : RunFiles → RunFiles

-- `OperationCancellationToken.raise_if_stopped`.
abbrev pub stop : Failure
stop =
    raised (run_cancelled "Local application operation is shutting down.")
      "Local application operation is shutting down."

-- The exception of a call of the store; `IntegrityError` is one of sqlite3.
abbrev pub fault_failure : Fault → Failure
fault_failure (storage_conflict m) = raised (known storage_conflict_class m) m
fault_failure (user_input m) = raised (known user_input_error_class m) m
fault_failure (value_error m) = raised (Raised.value_error m) m
fault_failure (integrity m) = raised (other "IntegrityError" m) m
fault_failure (run_not_found m) = raised (known ErrorClass.run_not_found m) m

-- `materialization_error` of a reconciliation. The row of the store has no column `last_error`, so that
-- its text is never shown.
abbrev pub reconciliation_error : Outcome → Option String
reconciliation_error (settled state) =
    if is_clean state.phase
    then none
    else some "Vault changed during materialization; reconciliation remains requested."
reconciliation_error (Outcome.raised e) = some e

unfoldable pub materialize : Digest → Surroundings → Vault → Vault × Option String
materialize digest w v =
    let (v', outcome) = reconcile digest false w v in
    if is_clean v.store.materialization.phase then (v, none) else (v', reconciliation_error outcome)

-- How the body of `_execute_claimed` ends before the task is finished.
pub data Worked : Type 0 where
  failed_with : Failure → Worked
  returned_with : Fields → Fields → Option String → Worked

-- The vault is reconciled once the session is renewed.
abbrev pub renewed :
    Digest
    → Circumstances
    → Fields
    → Fields
    → World
    → Session
    → Result (Session × World)
    → Worked × Session × World
renewed digest c dump metrics world session (err e) =
    (failed_with (fault_failure e), session, world)
renewed digest c dump metrics world session (ok (session', world')) =
    let (v, error) = materialize digest c.surroundings world'.vault in
    (returned_with dump metrics error, session', record world' { vault = v })

abbrev pub served : Digest → Circumstances → World → Session → Service → Worked × Session × World
served digest c world session (breaks f) = (failed_with f, session, world)
served digest c world session (returns dump metrics) =
    if c.is_stopped_after
    then (failed_with stop, session, world)
    else renewed digest c dump metrics world session (renew_session c.renewed session world)

abbrev pub begun : Circumstances → World → World
begun c world = record world {
  files = start world.monitor "ingest run started." c.started c.beat c.logged world.files;
}

-- The session and the world that the service leaves.
abbrev pub left_session : Circumstances → Session → Session
left_session c session =
    with_lease (record session.lease { expires_at = c.lease_expires_at }) session

abbrev pub left : Digest → Circumstances → Session → World → World
left digest c session world = synced (left_session c session) (
    with_store (run digest world.vault.store c.calls)
      (record world { files = c.reports (begun c world).files }))

-- The body of `_execute_claimed` from the start of the monitor up to `store.finish`.
unfoldable pub work : Digest → Circumstances → Session → World → Worked × Session × World
unfolding materialize renew_session
work digest c session world =
    if c.is_stopped_before
    then (failed_with stop, session, begun c world)
    else served digest c (left digest c session world) (left_session c session) c.service

abbrev failure_stage : Failure → String
failure_stage (provider_rate_limited shown) = "rate_limited"
failure_stage (raised x shown) = "failed"

abbrev pub fail_run : Circumstances → RunMonitor → Failure → String → RunFiles → RunFiles
fail_run c monitor f stage =
    fail monitor (failure_exception f).0 stage (failure_exception f).1 c.ended c.ended_logged
      c.between c.during

-- The handlers of `_execute_claimed`; an exception of `_finish` leaves them.
abbrev pub close_failed : Circumstances → Failure → World → Result Store → World × Option Fault
close_failed c f world (err e) = (world, some e)
close_failed c f world (ok s) = (
  record (with_store s world) { files = fail_run c world.monitor f (failure_stage f) world.files },
  none,
)

unfoldable pub end_failed : Circumstances → Session → Failure → World → World × Option Fault
end_failed c session f world =
    close_failed c f world
      (finish_failed session.lease f c.failure_checked c.failure_now world.vault.store)

-- `if materialization_error: …`.
abbrev pub with_pending : Option String → Fields → Fields
with_pending none summary = summary
with_pending (some e) summary =
    if is_empty e
    then summary
    else set_field "materialization_error" (text e)
        (set_field "materialization_pending" (boolean true) summary)

abbrev pub task_state : RunStatus → TaskState
task_state status = if is_partial status then partially_failed else completed

-- What follows `store.finish`.
abbrev pub close_returned :
    Circumstances
    → Session
    → RunStatus
    → Fields
    → Fields
    → World
    → Result (Task × Store)
    → World × Option Fault
close_returned c session status summary metrics world (err e) =
    end_failed c session (fault_failure e) world
close_returned c session status summary metrics world (ok (t, s)) = (
  record (with_store s world) {
    files =
        if is_partial status
        then partially_fail world.monitor "ingest run partially failed." summary metrics c.ended
            c.ended_logged c.between c.during world.files
        else complete world.monitor "ingest run completed." summary metrics c.ended c.ended_logged
            c.between c.during world.files;
  },
  none,
)

unfoldable pub end_worked : Circumstances → Session → Worked → World → World × Option Fault
unfolding end_failed
end_worked c session (failed_with f) world = end_failed c session f world
end_worked c session (returned_with dump metrics error) world =
    let status = completion_status ingest dump in
    let summary = with_pending error (result_summary dump) in
    close_returned c session status summary metrics world (
      finish session.lease (task_state status) (some (object summary)) none c.finish_checked
        c.finish_now world.vault.store)

-- `_execute_claimed`, with the exception that it raises, if any.
unfoldable pub execute_claimed : Digest → Circumstances → Session → World → World × Option Fault
unfolding work end_worked
execute_claimed digest c session world =
    let (ended, session', world') = work digest c session world in
    end_worked c session' ended world'
