-- ===== src/Ingest/Tests/Executions.antt =====
-- runtime/ingest_executor.py: concrete executions of a task, at which the theorems about them apply.
use knoarbor.Prelude.{◌≡◌, refl, false, none, some, [], ◌∷◌, ok}
use knoarbor.Table.{lookup, update_where, row_count, insert, upsert}
use knoarbor.Json.{end}
use knoarbor.Run.State.{ingest, RunFiles}
use knoarbor.Run.Monitor.{RunMonitor}
use knoarbor.Run.Projection.{shown_status}
use knoarbor.Ingest.State.{
  Store, Task, active_facts, head_facts, window_facts, task_row, attempt_row,
}
use knoarbor.Ingest.Tasks.{
  claim, submit_command, new_command, insert_task, insert_attempt, mark_claimed, hash_taken,
  ordinal_taken, find_command, renew, mark_renewed,
}
use knoarbor.Ingest.Recovery.{
  reap_expired_attempts, expired_tasks, reap_rows, reap_one, admit_recovery, recovery_assessment,
  assess, assess_state, mark_requeued, attempt_count,
}
use knoarbor.Ingest.Materialize.{
  begin_materialization, prepare_materialization, request_materialization, finish_materialization,
  mark_prepared, mark_published,
}
use knoarbor.Ingest.Publish.{
  publish_new, publish_revision, find_input, existing_revision, check_head, check_window,
  insert_revision, input_taken, deactivate, move_head, insert_window, move_watermark,
  add_contributions, put_cursor, record_head, record_window, record_revision, settle_publication,
}
use knoarbor.Ingest.History.{init, run, publishes}
use knoarbor.Ingest.Materializer.{absent, reconcile}
use knoarbor.Ingest.Materializer.Recovering.{quiet}
use knoarbor.Ingest.Session.{World, Session, renew_session}
use knoarbor.Ingest.Execution.{Circumstances, returns, work, materialize, execute_claimed}
use knoarbor.Ingest.Execution.Ending.{Records, Owns, execute_claimed-Records}
use knoarbor.Ingest.Execution.Fates.{ends_as, shown_as}
use knoarbor.Ingest.Claiming.{Request, admitted, execute}
use knoarbor.Ingest.Claiming.Answered.{Answers, execute-Answers}
use knoarbor.Ingest.Tests.{sample_digest, submitted, claimed, lease_1, document}

abbrev no_files : RunFiles
no_files = record { record_file = none; events = [] }

abbrev monitor : RunMonitor
monitor = record { run_id = "attempt_1"; flow = ingest; metadata = end }

abbrev world_of : Store → World
world_of s = record {
  vault = record { store = s; migration = none; snapshot = absent };
  files = no_files;
  monitor = monitor;
}

-- A service that publishes a document and returns.
abbrev publishing : Circumstances
publishing = record {
  calls = publishes lease_1 (document none "revision_1") 3 4 5 ∷ [];
  lease_expires_at = 12;
  reports = λ f. f;
  service = returns end end;
  is_stopped_before = false;
  is_stopped_after = false;
  surroundings = quiet "wiki" "wiki" "index" 7;
  started = 2;
  beat = 2;
  logged = 2;
  renewed = 6;
  finish_checked = 8;
  finish_now = 8;
  failure_checked = 9;
  failure_now = 9;
  ended = 10;
  ended_logged = 10;
  between = λ f. f;
  during = λ f. f;
}

abbrev request : Request
request = record {
  task_id = "task";
  attempt_id = "attempt_1";
  owner_id = "worker_1";
  lease_seconds = 10;
}

claim_returns : claim "task" "attempt_1" "worker_1" 10 (some 1) 2 submitted ≡ ok (lease_1, claimed)
unfolding run init submit_command new_command insert_task insert_attempt insert claim mark_claimed
    task_row attempt_row lookup update_where row_count hash_taken ordinal_taken find_command
claim_returns = refl

execute-Answers_example :
    Answers publishing request lease_1
      (execute publishing request sample_digest (admitted 1) 2 (world_of submitted))
execute-Answers_example =
    execute-Answers sample_digest publishing request 1 2 (world_of submitted) lease_1 claimed
      claim_returns

abbrev session : Session
session = record { lease = lease_1; lease_seconds = 10 }

owned_task :
    (t : Task) × (lookup "task"
        (work sample_digest publishing session (world_of claimed)).2.vault.store.tasks
      ≡ some t)
    × Owns publishing session t
unfolding run init submit_command new_command insert_task insert_attempt insert claim mark_claimed
    task_row attempt_row lookup update_where row_count hash_taken ordinal_taken find_command
    reap_expired_attempts expired_tasks reap_rows reap_one admit_recovery recovery_assessment assess
    assess_state mark_requeued attempt_count publish_revision publish_new find_input
    existing_revision check_head check_window insert_revision input_taken deactivate move_head
    insert_window move_watermark add_contributions put_cursor record_head record_window
    record_revision settle_publication upsert request_materialization active_facts head_facts
    window_facts sample_digest begin_materialization prepare_materialization finish_materialization
    mark_prepared mark_published reconcile work materialize renew_session renew mark_renewed
owned_task = (_, refl, (refl, refl, refl, refl))

execute_claimed-Records_example :
    Records publishing session
      (ends_as sample_digest publishing session (world_of claimed)).0
      (ends_as sample_digest publishing session (world_of claimed)).1
      (execute_claimed sample_digest publishing session (world_of claimed))
    × (shown_status (ends_as sample_digest publishing session (world_of claimed)).0
        ≡ shown_as (ends_as sample_digest publishing session (world_of claimed)).1)
execute_claimed-Records_example =
    execute_claimed-Records sample_digest publishing session (world_of claimed) owned_task.0
      owned_task.1 owned_task.2
