-- ===== src/Ingest/Execution/Fates.antt =====
-- runtime/ingest_executor.py: what becomes of a claimed attempt, by what happens to it.
use knoarbor.Prelude.{
  ◌≡◌, refl, String, Result, ok, err, storage_conflict, user_input, value_error, integrity,
  run_not_found, Bool, Option, Fault, Bool-cases, inl, inr, if◌then◌else◌,
}
use knoarbor.Json.{Fields}
use knoarbor.Errors.{run_cancelled}
use knoarbor.Run.State.{ingest, RunStatus}
use knoarbor.Run.Endings.{failed_status}
use knoarbor.Run.Policy.{completion_status, ingest_partially_failed}
use knoarbor.Ingest.State.{TaskState}
use knoarbor.Ingest.Materialize.{Digest}
use knoarbor.Ingest.Executor.{
  Failure, provider_rate_limited, raised, failure_state, failure_exception,
}
use knoarbor.Ingest.Session.{World, Session, renew_session}
use knoarbor.Ingest.Execution.{
  Service, breaks, returns, fault_failure, renewed, served, left, left_session, materialize,
  Circumstances, Worked, failed_with, returned_with, work, task_state,
}

-- How the store and the run record an attempt that the worker owns to its end.
abbrev pub end_state : Worked → TaskState
end_state (failed_with f) = failure_state f
end_state (returned_with dump metrics error) = task_state (completion_status ingest dump)

abbrev pub run_status : Worked → RunStatus
run_status (failed_with f) = failed_status (failure_exception f).0
run_status (returned_with dump metrics error) = completion_status ingest dump

-- The states of the store and of the run, by what happens to the attempt.
abbrev pub stopped_ends : TaskState × RunStatus
stopped_ends = (TaskState.recovery_needed, RunStatus.cancelled)

abbrev pub break_ends : Failure → TaskState × RunStatus
break_ends (provider_rate_limited shown) = (TaskState.paused_rate_limited, RunStatus.failed)
break_ends (raised (run_cancelled message) shown) = stopped_ends
break_ends (raised _ shown) = (TaskState.failed, RunStatus.failed)

abbrev pub return_ends : Fields → TaskState × RunStatus
return_ends dump =
    if ingest_partially_failed dump
    then (TaskState.partially_failed, RunStatus.partially_failed)
    else (TaskState.completed, RunStatus.completed)

abbrev pub renewal_ends : Fields → Result (Session × World) → TaskState × RunStatus
renewal_ends dump (err e) = (TaskState.failed, RunStatus.failed)
renewal_ends dump (ok renewal) = return_ends dump

abbrev pub service_ends : Bool → Result (Session × World) → Service → TaskState × RunStatus
service_ends stopped renewal (breaks f) = break_ends f
service_ends stopped renewal (returns dump metrics) =
    if stopped then stopped_ends else renewal_ends dump renewal

-- The renewal of the session after the service returned.
abbrev pub renewal_of : Digest → Circumstances → Session → World → Result (Session × World)
renewal_of digest c session world =
    renew_session c.renewed (left_session c session) (left digest c session world)

abbrev pub ends_as : Digest → Circumstances → Session → World → TaskState × RunStatus
ends_as digest c session world =
    if c.is_stopped_before
    then stopped_ends
    else service_ends c.is_stopped_after (renewal_of digest c session world) c.service

-- A run that was cancelled is shown as failed by its task, every other one as itself.
abbrev pub shown_as : RunStatus → RunStatus
shown_as RunStatus.cancelled = RunStatus.failed
shown_as status = status

abbrev pub ends_of : Worked → TaskState × RunStatus
ends_of w = (end_state w, run_status w)

pub break-ends : (f : Failure) → ends_of (failed_with f) ≡ break_ends f
break-ends (provider_rate_limited shown) = refl
break-ends (raised (run_cancelled message) shown) = refl
break-ends (raised x shown) = refl

fault-ends :
    (e : Fault) → ends_of (failed_with (fault_failure e)) ≡ (TaskState.failed, RunStatus.failed)
fault-ends (storage_conflict m) = refl
fault-ends (user_input m) = refl
fault-ends (value_error m) = refl
fault-ends (integrity m) = refl
fault-ends (run_not_found m) = refl

return-ends :
    (dump metrics : Fields) (error : Option String)
    → ends_of (returned_with dump metrics error) ≡ return_ends dump
unfolding completion_status
return-ends dump metrics error = elim (Bool-cases (ingest_partially_failed dump)) [
  | inl partial ↦ rw partial refl
  | inr done ↦ rw done refl
]

renewed-ends :
    (digest : Digest) (c : Circumstances) (dump metrics : Fields) (world : World)
    (session : Session) (renewal : Result (Session × World))
    → ends_of (renewed digest c dump metrics world session renewal).0 ≡ renewal_ends dump renewal
renewed-ends digest c dump metrics world session (err e) = fault-ends e
renewed-ends digest c dump metrics world session (ok (session', world')) =
    return-ends dump metrics (materialize digest c.surroundings world'.vault).1

served-ends :
    (digest : Digest) (c : Circumstances) (world : World) (session : Session) (service : Service)
    → ends_of (served digest c world session service).0
      ≡ service_ends c.is_stopped_after (renew_session c.renewed session world) service
served-ends digest c world session (breaks f) = break-ends f
served-ends digest c world session (returns dump metrics) = elim (Bool-cases c.is_stopped_after) [
  | inl stopped ↦ rw stopped refl
  | inr going ↦
      rw going
        (renewed-ends digest c dump metrics world session (renew_session c.renewed session world))
]

pub work-ends :
    (digest : Digest) (c : Circumstances) (session : Session) (world : World)
    → ends_of (work digest c session world).0 ≡ ends_as digest c session world
unfolding work
work-ends digest c session world = elim (Bool-cases c.is_stopped_before) [
  | inl stopped ↦ rw stopped refl
  | inr going ↦
      rw going
        (served-ends digest c (left digest c session world) (left_session c session) c.service)
]
