-- ===== src/Ingest/Tests.antt =====
-- runtime/transactional_ingest.py: sample stores, shared by the tests.
mod Attempts
mod Publications
mod Cycles
mod Vaults
mod Executions
use knoarbor.Prelude.{String, ◌≡◌, refl, Option, none, some, [], ◌∷◌, ok}
use Prim.Native.String.{◌++◌ as str_append}
use knoarbor.Table.{lookup, update_where, row_count, insert, upsert}
use knoarbor.Json.{object, end}
use knoarbor.Ingest.State.{
  AttemptLease, Store, active_facts, head_facts, window_facts, task_row, attempt_row,
}
use knoarbor.Ingest.Tasks.{
  Command, claim, submit_command, new_command, insert_task, insert_attempt, mark_claimed,
  hash_taken, ordinal_taken, find_command,
}
use knoarbor.Ingest.Recovery.{
  reap_expired_attempts, expired_tasks, reap_rows, reap_one, admit_recovery, recovery_assessment,
  assess, assess_state, mark_requeued, attempt_count,
}
use knoarbor.Ingest.Materialize.{Digest, request_materialization}
use knoarbor.Ingest.Publish.{
  Publication, publish_new, publish_revision, find_input, existing_revision, check_head,
  check_window, insert_revision, input_taken, deactivate, move_head, insert_window, move_watermark,
  add_contributions, put_cursor, record_head, record_window, record_revision, settle_publication,
}
use knoarbor.Ingest.History.{init, run, submits, claims, publishes}
use knoarbor.Ingest.Invariant.{IsConsistent}
use knoarbor.Ingest.Safety.{run-init-IsConsistent}

-- A digest that keeps the revisions apart.
unfoldable sample_digest : Digest
sample_digest [] = ""
sample_digest ((k, r) ∷ rows) = str_append k (str_append r (sample_digest rows))

abbrev command : Command
command = record { payload = object end; generation_id = "generation_1" }

abbrev empty_vault : Store
empty_vault = init sample_digest 0

abbrev submitted : Store
submitted = run sample_digest empty_vault (submits command "hash" "task" "attempt_1" 1 ∷ [])

abbrev lease_1 : AttemptLease
lease_1 = record { task_id = "task"; attempt_id = "attempt_1"; epoch = 1; expires_at = 12 }

abbrev claimed : Store
claimed = run sample_digest submitted (claims "task" "attempt_1" "worker_1" 10 none 2 ∷ [])

claimed-IsConsistent : IsConsistent claimed
unfolding run
claimed-IsConsistent = run-init-IsConsistent sample_digest 0 (
    submits command "hash" "task" "attempt_1" 1
    ∷ claims "task" "attempt_1" "worker_1" 10 none 2
    ∷ [])

-- A document, and the second version of it.
abbrev document : Option String → String → Publication
document head revision = record {
  source_id = "source";
  expected_source_head = head;
  revision_id = revision;
  manifest_path = "manifest.json";
  manifest_hash = "hash";
  window_id = none;
  previous_window_id = none;
  window_from_index = none;
  window_to_index = none;
  entity_contributions = ("entity", object end) ∷ [];
  checkpoint_cursor = none;
  input_revision_key = some revision;
}

abbrev published : Store
published = run sample_digest claimed (publishes lease_1 (document none "revision_1") 3 4 5 ∷ [])

first_publication :
    publish_new sample_digest lease_1 (document none "revision_1") 4 5 claimed
    ≡ ok ("revision_1", published)
unfolding run init submit_command new_command insert_task insert_attempt insert claim mark_claimed
    task_row attempt_row lookup update_where row_count hash_taken ordinal_taken find_command
    reap_expired_attempts expired_tasks reap_rows reap_one admit_recovery recovery_assessment assess
    assess_state mark_requeued attempt_count publish_revision publish_new find_input
    existing_revision check_head check_window insert_revision input_taken deactivate move_head
    insert_window move_watermark add_contributions put_cursor record_head record_window
    record_revision settle_publication upsert request_materialization active_facts head_facts
    window_facts sample_digest
first_publication = refl
