-- ===== src/Run/Shown.antt =====
-- runtime/ingest_run_projection.py against runtime/transactional_ingest.py: what the state of an
-- attempt looks like as a run.
use knoarbor.Prelude.{String, ◌≡◌, true, false, not, ◌||◌, Option, arith}
use knoarbor.Ingest.State.{Task, Attempt, TaskState}
use knoarbor.Ingest.State
use knoarbor.Ingest.Recovery.{assess, assess_state}
use knoarbor.Run.State.{RunRecord, is_terminal, is_active}
use knoarbor.Run.Policy.{is_failed_run}
use knoarbor.Run.Projection.{project_attempt, shown_status}

-- An attempt is shown as a run that goes on exactly while it is queued or running, and as one that
-- has ended otherwise.
pub project_attempt-terminal :
    (attempt_id task_id : String) (a : Attempt) (t : Task) (observed : Option RunRecord)
    → (is_terminal (project_attempt (attempt_id, a) (task_id, t) observed).status
        ≡ not (State.is_queued a.state || State.is_running a.state))
      × (is_active (project_attempt (attempt_id, a) (task_id, t) observed).status
          ≡ (State.is_queued a.state || State.is_running a.state))
unfolding project_attempt
project_attempt-terminal attempt_id task_id a t observed = (ground arith, ground arith)

shown-failed :
    (t : Task) (a : Attempt)
    → (assess t a false).available ≡ true
    → is_failed_run (shown_status t.state) ≡ true
unfolding assess assess_state
shown-failed t a h = ground arith

-- The current attempt of a task whose lease has not run out is shown as a run that failed, or failed
-- in part, whenever the store would let it be recovered.
pub project_attempt-recoverable :
    (attempt_id task_id : String) (a : Attempt) (t : Task) (observed : Option RunRecord)
    → a.state ≡ t.state
    → (assess t a false).available ≡ true
    → is_failed_run (project_attempt (attempt_id, a) (task_id, t) observed).status ≡ true
unfolding project_attempt
project_attempt-recoverable attempt_id task_id a t observed same h = rw same (shown-failed t a h)
