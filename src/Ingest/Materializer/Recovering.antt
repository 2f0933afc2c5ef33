-- ===== src/Ingest/Materializer/Recovering.antt =====
-- storage/materialization.py: reconciliations that nothing disturbs, from any state of a vault.
use knoarbor.Prelude.{ℕ, String, ◌≡◌, Bool, true, not, ◌&&◌, ◌||◌, []}
use knoarbor.Text.{is_empty}
use knoarbor.Ingest.State.{Store, Token}
use knoarbor.Ingest.Materialize.{is_clean, is_prepared}
use knoarbor.Ingest.Materializer.{
  Vault, done, index, shown, Surroundings, Outcome, settled, raised, column_text,
}

-- Nobody else changes the pages or calls the store, and no call of the index or the pages raises. The
-- pages have one fingerprint until the reconciliation writes its projections, and another one then.
abbrev pub quiet : String → String → String → ℕ → Surroundings
quiet seen wiki generation now = record {
  wiki_checked = seen;
  wiki_resumed = seen;
  wiki_before = wiki;
  wiki_after = wiki;
  projections = done;
  built = index generation;
  discarded = done;
  publishing = shown;
  during = [];
  late = [];
  now = now;
}

-- The reconciliation returns a clean state, and the vault is clean.
abbrev pub EndsClean : Vault × Outcome → Type 0
EndsClean (v, settled state) =
    (is_clean state.phase ≡ true) × (is_clean v.store.materialization.phase ≡ true)
EndsClean (v, raised e) = ⊥

-- The token of the round that a store has open.
abbrev own_token : Store → Token
own_token s = record {
  requested_epoch = s.materialization.requested_epoch;
  fact_generation = s.materialization.requested_fact_generation;
}

-- A round that is left prepared names its index and its fingerprint.
abbrev pub is_complete : Vault → Bool
is_complete v =
    let m = v.store.materialization in
    not (is_prepared m.phase)
    || (not (is_empty (column_text m.prepared_index_generation))
        && not (is_empty (column_text m.prepared_wiki_fingerprint)))
