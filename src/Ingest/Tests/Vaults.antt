-- ===== src/Ingest/Tests/Vaults.antt =====
-- storage/materialization.py: concrete vaults, at which the theorems about their reconciliation apply.
use knoarbor.Prelude.{◌≡◌, refl, true, false, none, [], ◌∷◌}
use knoarbor.Table.{lookup, update_where, row_count, insert, upsert}
use knoarbor.Ingest.State.{
  Token, Materialization, active_facts, head_facts, window_facts, task_row, attempt_row,
}
use knoarbor.Ingest.Tasks.{
  claim, submit_command, new_command, insert_task, insert_attempt, mark_claimed, hash_taken,
  ordinal_taken, find_command,
}
use knoarbor.Ingest.Recovery.{
  reap_expired_attempts, expired_tasks, reap_rows, reap_one, admit_recovery, recovery_assessment,
  assess, assess_state, mark_requeued, attempt_count,
}
use knoarbor.Ingest.Materialize.{
  is_clean, begin_materialization, prepare_materialization, request_materialization,
  finish_materialization, mark_prepared, mark_published,
}
use knoarbor.Ingest.Publish.{
  publish_new, publish_revision, find_input, existing_revision, check_head, check_window,
  insert_revision, input_taken, deactivate, move_head, insert_window, move_watermark,
  add_contributions, put_cursor, record_head, record_window, record_revision, settle_publication,
}
use knoarbor.Ingest.History.{init, run, begins, prepares}
use knoarbor.Ingest.Materializer.{Vault, absent, settled, needs_rebuild, reconcile}
use knoarbor.Ingest.Materializer.Reconciling.{reconcile-shown}
use knoarbor.Ingest.Materializer.Recovering.{quiet}
use knoarbor.Ingest.Tests.{sample_digest, published}

-- A vault with a publication and no index.
abbrev vault : Vault
vault = record { store = published; migration = none; snapshot = absent }

-- The vault after a reconciliation.
abbrev rebuilt : Vault
rebuilt = (reconcile sample_digest false (quiet "wiki" "wiki" "index" 20) vault).0

vault_reconciled :
    (state : Materialization) × (reconcile sample_digest false
        (quiet "wiki" "wiki" "index" 20)
        vault
      ≡ (rebuilt, settled state))
    × (is_clean state.phase ≡ true)
unfolding run init submit_command new_command insert_task insert_attempt insert claim mark_claimed
    task_row attempt_row lookup update_where row_count hash_taken ordinal_taken find_command
    reap_expired_attempts expired_tasks reap_rows reap_one admit_recovery recovery_assessment assess
    assess_state mark_requeued attempt_count publish_revision publish_new find_input
    existing_revision check_head check_window insert_revision input_taken deactivate move_head
    insert_window move_watermark add_contributions put_cursor record_head record_window
    record_revision settle_publication upsert request_materialization active_facts head_facts
    window_facts sample_digest begin_materialization prepare_materialization finish_materialization
    mark_prepared mark_published reconcile
vault_reconciled = (_, refl, refl)

reconcile-shown_example : needs_rebuild rebuilt ≡ false
reconcile-shown_example =
    reconcile-shown sample_digest false (quiet "wiki" "wiki" "index" 20) vault rebuilt
      vault_reconciled.0 vault_reconciled.1 vault_reconciled.2

-- The token of the round that is open after the publication.
abbrev published_token : Token
published_token = record {
  requested_epoch = published.materialization.requested_epoch;
  fact_generation = published.materialization.requested_fact_generation;
}

-- The vault when a process ended between the preparation of an index and its publication.
abbrev interrupted_vault : Vault
interrupted_vault = record vault {
  store =
      run sample_digest published (begins 6 ∷ prepares published_token "index_1" "wiki_1" 7 ∷ []);
}
