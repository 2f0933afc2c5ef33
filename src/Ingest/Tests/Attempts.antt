-- ===== src/Ingest/Tests/Attempts.antt =====
-- runtime/transactional_ingest.py: concrete histories of tasks, attempts and leases, at which
-- the theorems about them apply.
use knoarbor.Prelude.{◌≤◌, ◌≡◌, refl, true, false, none, some, List, [], ◌∷◌, ok, is_err, arith}
use mathlib.Core.Option
use knoarbor.Table.{lookup, update_where, row_count, insert}
use knoarbor.Ingest.State.{AttemptLease, Store, Task, is_running, task_row, attempt_row}
use knoarbor.Ingest.Tasks.{
  holds_epoch, claim, Admission, submit_command, request_cancel, renew, new_command, insert_task,
  insert_attempt, mark_claimed, hash_taken, ordinal_taken, find_command, mark_cancelled,
}
use knoarbor.Ingest.Recovery.{
  Assessment, reap_expired_attempts, expired_tasks, reap_rows, reap_one, admit_recovery,
  recovery_assessment, assess, assess_state, mark_requeued, attempt_count, finish, mark_finished,
}
use knoarbor.Ingest.Publish.{publish_revision}
use knoarbor.Ingest.History.{Call, init, run, submits, claims, reaps, recovers, cancels}
use knoarbor.Ingest.Fencing.{IsRefused, claim-fences}
use knoarbor.Ingest.Invariant.{IsConsistent}
use knoarbor.Ingest.Executor.{provider_rate_limited, finish_failed, finish_failed-recovery}
use knoarbor.Ingest.Safety.{run-init-IsConsistent}
use knoarbor.Ingest.Cancelling.{request_cancel-stops}
use knoarbor.Ingest.Epochs.{epoch_at}
use knoarbor.Ingest.Reaping.{reap_row, lookup-reap_expired_attempts}
use knoarbor.Ingest.Resubmission.{submit_command-submit_command}
use knoarbor.Ingest.Tests.{
  sample_digest, command, empty_vault, submitted, lease_1, claimed, claimed-IsConsistent, document,
}

abbrev recovery : List Call
recovery = reaps 20 ∷ recovers "task" "attempt_1" "attempt_2" 21 22 ∷ []

abbrev recovered : Store
recovered = run sample_digest claimed recovery

abbrev lease_2 : AttemptLease
lease_2 = record { task_id = "task"; attempt_id = "attempt_2"; epoch = 2; expires_at = 33 }

abbrev reclaimed : Store
reclaimed = run sample_digest recovered (claims "task" "attempt_2" "worker_2" 10 none 23 ∷ [])

first_claim : claim "task" "attempt_1" "worker_1" 10 none 2 submitted ≡ ok (lease_1, claimed)
unfolding run init submit_command new_command insert_task insert_attempt insert claim mark_claimed
    task_row attempt_row lookup update_where row_count hash_taken ordinal_taken find_command
first_claim = refl

second_claim :
    claim "task" "attempt_2" "worker_2" 10 none 23 (run sample_digest claimed recovery)
    ≡ ok (lease_2, reclaimed)
unfolding run init submit_command new_command insert_task insert_attempt insert claim mark_claimed
    task_row attempt_row lookup update_where row_count hash_taken ordinal_taken find_command
    reap_expired_attempts expired_tasks reap_rows reap_one admit_recovery recovery_assessment assess
    assess_state mark_requeued attempt_count
second_claim = refl

claim-fences_example : IsRefused sample_digest (run sample_digest reclaimed (reaps 24 ∷ [])) lease_1
claim-fences_example =
    claim-fences sample_digest "task" "attempt_1" "attempt_2" "worker_1" "worker_2" 10 10 none none
      2 23 submitted claimed reclaimed lease_1 lease_2 recovery (reaps 24 ∷ []) first_claim
      second_claim

abbrev asked : Store
asked = run sample_digest claimed (cancels "task" none 3 ∷ [])

cancel_asked : (t : Task) × (request_cancel "task" none 3 claimed ≡ ok (t, asked))
unfolding run init submit_command new_command insert_task insert_attempt insert claim mark_claimed
    task_row attempt_row lookup update_where row_count hash_taken ordinal_taken find_command
    request_cancel mark_cancelled finish mark_finished
cancel_asked = (_, refl)

claimed_epoch : 1 ≤ epoch_at "task" claimed.tasks
unfolding run init submit_command new_command insert_task insert_attempt insert claim mark_claimed
    task_row attempt_row lookup update_where row_count hash_taken ordinal_taken find_command
claimed_epoch = omega arith

-- The lease lapses, the task is recovered, and another worker claims it.
abbrev resumed : List Call
resumed =
    reaps 20
    ∷ recovers "task" "attempt_1" "attempt_2" 21 22
    ∷ claims "task" "attempt_2" "worker_2" 10 none 23
    ∷ []

request_cancel-stops_example :
    (is_err (renew lease_1 10 24 (run sample_digest asked resumed)) ≡ true)
    × (is_err (
          publish_revision sample_digest lease_1
            (document none "revision_1")
            24
            25
            26
            (run sample_digest asked resumed))
        ≡ true)
request_cancel-stops_example =
    request_cancel-stops sample_digest "task" none 3 claimed cancel_asked.0 asked resumed lease_1 10
      24 24 25 26 (document none "revision_1") claimed-IsConsistent cancel_asked.1 refl
      claimed_epoch

run-init-IsConsistent_example :
    IsConsistent (run sample_digest empty_vault (submits command "hash" "task" "attempt_1" 1 ∷ []))
run-init-IsConsistent_example =
    run-init-IsConsistent sample_digest 0 (submits command "hash" "task" "attempt_1" 1 ∷ [])

claimed_task :
    (t : Task) × (lookup "task" claimed.tasks ≡ some t)
    × (t.cancel_requested ≡ false)
    × (holds_epoch lease_1 t 4 ≡ true)
    × (is_running t.state ≡ true)
unfolding run init submit_command new_command insert_task insert_attempt insert claim mark_claimed
    task_row attempt_row lookup update_where row_count hash_taken ordinal_taken find_command
claimed_task = (_, refl, refl, refl, refl)

finish_failed-recovery_example :
    (s' : Store) × (finish_failed lease_1 (provider_rate_limited "slow down") 4 5 claimed ≡ ok s')
    × (v : Assessment) × (recovery_assessment "task" "attempt_1" 6 s' ≡ ok v)
    × (v.available ≡ true)
finish_failed-recovery_example =
    finish_failed-recovery lease_1 (provider_rate_limited "slow down") 4 5 6 claimed claimed_task.0
      claimed-IsConsistent claimed_task.1 claimed_task.2 claimed_task.3 claimed_task.4

lookup-reap_expired_attempts_example :
    lookup "task" (reap_expired_attempts 20 claimed).1.tasks
    ≡ Option.map (reap_row 20) (lookup "task" claimed.tasks)
lookup-reap_expired_attempts_example =
    lookup-reap_expired_attempts 20 claimed "task" claimed-IsConsistent

first_submission :
    (r : Admission) × (submit_command command "hash" "task" "attempt_1" 1 empty_vault
      ≡ ok (r, submitted))
unfolding run init submit_command new_command insert_task insert_attempt insert claim mark_claimed
    task_row attempt_row lookup update_where row_count hash_taken ordinal_taken find_command
first_submission = (_, refl)

empty-IsConsistent : IsConsistent empty_vault
unfolding run
empty-IsConsistent = run-init-IsConsistent sample_digest 0 []

-- The task is claimed, recovered and claimed again.
abbrev worked : List Call
worked = claims "task" "attempt_1" "worker_1" 10 none 2 ∷ resumed

submit_command-submit_command_example :
    (r : Admission) × (submit_command command "hash" "task_2" "attempt_9" 30
        (run sample_digest submitted worked)
      ≡ ok (r, run sample_digest submitted worked))
    × (r.0.0 ≡ first_submission.0.0.0)
    × (lookup first_submission.0.0.0 (run sample_digest submitted worked).tasks ≡ some r.0.1)
submit_command-submit_command_example =
    submit_command-submit_command sample_digest command "hash" "task" "attempt_1" "task_2"
      "attempt_9" 1 30 empty_vault first_submission.0 submitted worked empty-IsConsistent
      first_submission.1 refl
