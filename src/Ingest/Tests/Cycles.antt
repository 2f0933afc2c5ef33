-- ===== src/Ingest/Tests/Cycles.antt =====
-- runtime/transactional_ingest.py: concrete histories of the materialization and the migration, at which
-- the theorems about them apply.
use knoarbor.Prelude.{is_some, ◌≡◌, refl, true, none, some, List, [], ◌∷◌, ok, if◌then◌else◌, ◌≤◌}
use knoarbor.Table.{lookup, update_where, row_count, insert}
use knoarbor.Ingest.State.{Store, Token, clean, active_facts, task_row, attempt_row}
use knoarbor.Ingest.Tasks.{
  claim, submit_command, new_command, insert_task, insert_attempt, mark_claimed, hash_taken,
  ordinal_taken, find_command,
}
use knoarbor.Ingest.Materialize.{
  is_clean, begin_materialization, prepare_materialization, finish_materialization, mark_prepared,
  mark_published,
}
use knoarbor.Ingest.History.{Call, init, run, begins, prepares, completes}
use knoarbor.Ingest.Migration.{
  db_migrated, index_ready, complete, is_resumed, progress_of, resume_v5_migration,
  complete_v5_migration, resume-complete,
}
use knoarbor.Ingest.Freshness.{clean_is_current}
use knoarbor.Ingest.Tests.{sample_digest, empty_vault, claimed}

abbrev first_token : Token
first_token = record { requested_epoch = 1; fact_generation = "" }

abbrev building_vault : Store
building_vault = run sample_digest claimed (begins 3 ∷ [])

abbrev whole_round : List Call
whole_round =
    begins 3 ∷ prepares first_token "index" "wiki" 4 ∷ completes first_token "index" "wiki" 5 ∷ []

ends_clean : (run sample_digest empty_vault whole_round).materialization.phase ≡ clean
unfolding run init submit_command new_command insert_task insert_attempt insert claim mark_claimed
    task_row attempt_row lookup update_where row_count hash_taken ordinal_taken find_command
    begin_materialization prepare_materialization finish_materialization mark_prepared
    mark_published sample_digest
ends_clean = refl

clean_is_current_example :
    (run sample_digest empty_vault whole_round).materialization.published_fact_generation
    ≡ some (sample_digest (active_facts (run sample_digest empty_vault whole_round)))
clean_is_current_example = clean_is_current sample_digest 0 whole_round ends_clean

abbrev clean_vault : Store
clean_vault = run sample_digest empty_vault whole_round

migration_ends : complete_v5_migration clean_vault (some index_ready) ≡ ok (some complete)
unfolding run init submit_command new_command lookup begin_materialization prepare_materialization
    finish_materialization mark_prepared mark_published sample_digest complete_v5_migration
migration_ends = refl

migration_resumes :
    resume_v5_migration (some db_migrated) (some db_migrated) ≡ ok (some index_ready)
unfolding resume_v5_migration
migration_resumes = refl

resume-complete_example :
    (is_resumed (some index_ready) ≡ true)
    × (progress_of (some db_migrated) ≤ progress_of (some index_ready))
    × (is_clean clean_vault.materialization.phase ≡ true)
    × (some complete ≡ (if is_some (some db_migrated) then some complete else none))
resume-complete_example =
    resume-complete clean_vault (some db_migrated) (some index_ready) (some complete)
      migration_resumes migration_ends
