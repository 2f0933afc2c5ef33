-- ===== src/Ingest/Tests/Publications.antt =====
-- runtime/transactional_ingest.py: concrete histories of publications, at which
-- the theorems about them apply.
use knoarbor.Prelude.{
  str_eq, ℕ, String, ◌≡◌, refl, true, false, none, some, List, [], ◌∷◌, ok, if◌then◌else◌, ◌≤◌, any,
  ◌⊎◌,
}
use knoarbor.Table.{lookup, update_where, row_count, insert, upsert}
use knoarbor.Ingest.State.{
  Revision, Store, Task, active_facts, head_facts, window_facts, is_running, task_row, attempt_row,
}
use knoarbor.Ingest.Tasks.{
  claim, submit_command, new_command, insert_task, insert_attempt, mark_claimed, hash_taken,
  ordinal_taken, find_command,
}
use knoarbor.Ingest.Recovery.{
  reap_expired_attempts, expired_tasks, reap_rows, reap_one, admit_recovery, recovery_assessment,
  assess, assess_state, mark_requeued, attempt_count,
}
use knoarbor.Ingest.Materialize.{request_materialization, begin_materialization}
use knoarbor.Ingest.Publish.{
  Publication, publish_new, publish_revision, find_input, existing_revision, check_head,
  check_window, insert_revision, input_taken, deactivate, move_head, insert_window, move_watermark,
  add_contributions, put_cursor, record_head, record_window, record_revision, settle_publication,
  new_revision, same_window,
}
use knoarbor.Ingest.Purge.{purge_source, purged_rows, replace_revision_manifest}
use knoarbor.Ingest.History.{Call, purges, init, run, publishes, replaces_manifest, begins}
use knoarbor.Ingest.Fencing.{publish_revision-running}
use knoarbor.Ingest.Heads.{source_head, session_watermark, publish_revision-head}
use knoarbor.Ingest.Windows.{Follows, publish_revision-window}
use knoarbor.Ingest.Republishing.{publish_revision-again}
use knoarbor.Ingest.Readers.{
  revision_manifest, input_generation_id_for_revision, publish_new-readers,
}
use knoarbor.Ingest.Erasing.{IsErased, purge_source-erases}
use knoarbor.Ingest.Tests.{
  sample_digest, lease_1, claimed, claimed-IsConsistent, document, published, first_publication,
}

checked_publication :
    publish_revision sample_digest lease_1 (document none "revision_1") 3 4 5 claimed
    ≡ ok ("revision_1", published)
unfolding run init submit_command new_command insert_task insert_attempt insert claim mark_claimed
    task_row attempt_row lookup update_where row_count hash_taken ordinal_taken find_command
    reap_expired_attempts expired_tasks reap_rows reap_one admit_recovery recovery_assessment assess
    assess_state mark_requeued attempt_count publish_revision publish_new find_input
    existing_revision check_head check_window insert_revision input_taken deactivate move_head
    insert_window move_watermark add_contributions put_cursor record_head record_window
    record_revision settle_publication upsert request_materialization active_facts head_facts
    window_facts sample_digest
checked_publication = refl

publish_revision-head_example :
    ((r : Revision) × (existing_revision (document none "revision_1") claimed.source_revisions
        ≡ some ("revision_1", r))
      × (published ≡ claimed))
    ⊎ ((existing_revision (document none "revision_1") claimed.source_revisions ≡ none)
        × (source_head "source" claimed ≡ none)
        × (lookup "revision_1" claimed.source_revisions ≡ none)
        × (lookup "revision_1" published.source_revisions
            ≡ some (new_revision lease_1 (document none "revision_1") 4))
        × (source_head "source" published ≡ some "revision_1")
        × (session_watermark "source" published ≡ session_watermark "source" claimed)
        × (published.window_heads ≡ claimed.window_heads))
publish_revision-head_example =
    publish_revision-head sample_digest lease_1 (document none "revision_1") 3 4 5 claimed
      "revision_1" published "source" refl checked_publication

abbrev session_window : Publication
session_window = record (document none "revision_1") {
  window_id = some "window_1";
  window_from_index = some 0;
  window_to_index = some 3;
}

abbrev opened : Store
opened = run sample_digest claimed (publishes lease_1 session_window 3 4 5 ∷ [])

first_window :
    publish_revision sample_digest lease_1 session_window 3 4 5 claimed ≡ ok ("revision_1", opened)
unfolding run init submit_command new_command insert_task insert_attempt insert claim mark_claimed
    task_row attempt_row lookup update_where row_count hash_taken ordinal_taken find_command
    reap_expired_attempts expired_tasks reap_rows reap_one admit_recovery recovery_assessment assess
    assess_state mark_requeued attempt_count publish_revision publish_new find_input
    existing_revision check_head check_window insert_revision input_taken deactivate move_head
    insert_window move_watermark add_contributions put_cursor record_head record_window
    record_revision settle_publication upsert request_materialization active_facts head_facts
    window_facts sample_digest
first_window = refl

publish_revision-window_example :
    ((r : Revision) × (existing_revision session_window claimed.source_revisions
        ≡ some ("revision_1", r))
      × (opened ≡ claimed))
    ⊎ ((existing_revision session_window claimed.source_revisions ≡ none)
        × (from : ℕ) × (to : ℕ) × (some 0 ≡ some from)
        × (some 3 ≡ some to)
        × (from ≤ to)
        × Follows session_window from (session_watermark "source" claimed)
        × (any (same_window "source" "window_1") claimed.window_heads ≡ false)
        × (session_watermark "source" opened ≡ some ("window_1", to))
        × (source_head "source" opened ≡ source_head "source" claimed))
publish_revision-window_example =
    publish_revision-window sample_digest lease_1 session_window "window_1" 3 4 5 claimed
      "revision_1" opened "source" refl first_window

publish_revision-running_example :
    (t : Task) × (lookup "task" claimed.tasks ≡ some t)
    × (is_running t.state ≡ true)
    × (t.current_attempt_id ≡ "attempt_1")
    × (t.lease_epoch ≡ 1)
    × (t.cancel_requested ≡ false)
publish_revision-running_example =
    publish_revision-running sample_digest lease_1 (document none "revision_1") 3 4 5 claimed
      "revision_1" published claimed-IsConsistent checked_publication

abbrev repeated : Publication
repeated = record (document none "revision_1") { revision_id = "revision_9" }

abbrev first_revision : String
first_revision = "revision_1"

-- The manifest of the revision is replaced, and a round of the materialization begins.
abbrev meanwhile : List Call
meanwhile = replaces_manifest "revision_1" "manifest_9" "hash_9" ∷ begins 6 ∷ []

abbrev moved : Store
moved = run sample_digest published meanwhile

abbrev republished : Store
republished = run sample_digest moved (publishes lease_1 repeated 6 7 8 ∷ [])

second_publication :
    publish_revision sample_digest lease_1 repeated 6 7 8 moved ≡ ok (first_revision, republished)
unfolding run init submit_command new_command insert_task insert_attempt insert claim mark_claimed
    task_row attempt_row lookup update_where row_count hash_taken ordinal_taken find_command
    publish_revision publish_new find_input existing_revision check_head insert_revision input_taken
    deactivate move_head add_contributions put_cursor record_head record_revision settle_publication
    upsert request_materialization active_facts head_facts window_facts sample_digest
    replace_revision_manifest begin_materialization
second_publication = refl

publish_revision-again_example : (first_revision ≡ first_revision) × (republished ≡ moved)
publish_revision-again_example =
    publish_revision-again sample_digest lease_1 lease_1 (document none "revision_1") repeated
      "revision_1" 3 4 5 6 7 8 claimed published republished meanwhile first_revision first_revision
      refl refl refl refl checked_publication refl second_publication

abbrev purged_vault : Store
purged_vault = run sample_digest published (purges "source" 9 ∷ [])

source_purge :
    (paths : List String) × (purge_source sample_digest "source" 9 published
      ≡ ok (paths, purged_vault))
unfolding run init submit_command new_command insert_task insert_attempt insert claim mark_claimed
    task_row attempt_row lookup update_where row_count hash_taken ordinal_taken find_command
    publish_revision publish_new find_input existing_revision check_head insert_revision input_taken
    deactivate move_head add_contributions put_cursor record_head record_revision settle_publication
    upsert request_materialization active_facts head_facts window_facts sample_digest purge_source
    purged_rows
source_purge = (_, refl)

purge_source-erases_example :
    IsErased "source" purged_vault
    × ((other : String)
        → (source_head other purged_vault
            ≡ (if str_eq "source" other then none else source_head other published))
          × (session_watermark other purged_vault
              ≡ (if str_eq "source" other then none else session_watermark other published)))
purge_source-erases_example =
    purge_source-erases sample_digest "source" 9 published source_purge.0 purged_vault
      source_purge.1

the_task :
    (t : Task) × (lookup "task" claimed.tasks ≡ some t) × (str_eq t.input_generation_id "" ≡ false)
unfolding run init submit_command new_command insert_task insert_attempt insert claim mark_claimed
    task_row attempt_row lookup update_where row_count hash_taken ordinal_taken find_command
the_task = (_, refl, refl)

publish_new-readers_example :
    (revision_manifest "revision_1" published
      ≡ ok (new_revision lease_1 (document none "revision_1") 4))
    × (input_generation_id_for_revision "revision_1" published ≡ ok the_task.0.input_generation_id)
publish_new-readers_example =
    publish_new-readers sample_digest lease_1 (document none "revision_1") 4 5 claimed "revision_1"
      published the_task.0 refl the_task.1 the_task.2 first_publication
