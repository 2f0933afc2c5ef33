-- ===== src/Ingest/Materializer.antt =====
-- storage/materialization.py: `VaultMaterializer.reconcile`, which brings the index and the pages of a
-- vault up to the facts of its store, over runtime/transactional_ingest.py.
pub mod Reconciling
pub mod Recovering
pub mod Tracing
use Prim.Native.String.{◌++◌ as str_append}
use knoarbor.Prelude.{
  ℕ, String, Bool, true, false, not, ◌&&◌, ◌||◌, Option, none, some, List, Result, ok, err, Fault,
  storage_conflict, user_input, value_error, integrity, run_not_found, if◌then◌else◌, str_eq,
}
use knoarbor.Text.{is_empty}
use knoarbor.Ingest.State.{Store, Token, Materialization}
use knoarbor.Ingest.Materialize.{
  Digest, is_clean, is_prepared, request_materialization, begin_materialization,
  prepare_materialization, finish_materialization, fail_materialization,
}
use knoarbor.Ingest.Migration.{MigrationPhase, completed_phase}
use knoarbor.Ingest.History.{Call, run}

-- What `open_index_snapshot` finds: no published index, one that raises `RuntimeError`, or a generation.
pub data Snapshot : Type 0 where
  absent : Snapshot
  broken : Snapshot
  current : String → Snapshot

-- A vault: its store, the row of its migration, and its published index.
pub record Vault : Type 0 where
  pub store : Store
  pub migration : Option MigrationPhase
  pub snapshot : Snapshot

-- A call of the index or the pages that returns or raises, with `f"{type(exc).__name__}: {exc}"`.
pub data Attempted : Type 0 where
  done : Attempted
  broke : String → Attempted

pub data Built : Type 0 where
  index : String → Built
  not_built : String → Built

-- A publication of an index that raises leaves some snapshot behind.
pub data Shown : Type 0 where
  shown : Shown
  not_shown : String → Snapshot → Shown

-- What a reconciliation meets: the fingerprints of the pages each time that they are read, how the
-- calls of the index and the pages end, the calls of the store that others make while the index is
-- built and while it is published, and the clock.
pub record Surroundings : Type 0 where
  pub wiki_checked : String
  pub wiki_resumed : String
  pub wiki_before : String
  pub wiki_after : String
  pub projections : Attempted
  pub built : Built
  pub discarded : Attempted
  pub publishing : Shown
  pub during : List Call
  pub late : List Call
  pub now : ℕ

-- How `reconcile` ends: with the state that it returns, or with an exception.
pub data Outcome : Type 0 where
  settled : Materialization → Outcome
  raised : String → Outcome

-- `str(column or "")`.
abbrev pub column_text : Option String → String
column_text none = ""
column_text (some s) = s

-- `_published_snapshot_needs_rebuild`.
abbrev pub is_shown : String → Snapshot → Bool
is_shown generation (current g) = str_eq g generation
is_shown generation _ = false

abbrev pub needs_rebuild : Vault → Bool
needs_rebuild v =
    let published = column_text v.store.materialization.published_index_generation in
    not (is_empty published) && not (is_shown published v.snapshot)

-- `_external_wiki_change`.
abbrev pub external_wiki_change : String → Vault → Bool
external_wiki_change wiki v =
    let published = column_text v.store.materialization.published_wiki_fingerprint in
    not (is_empty published) && not (str_eq published wiki)

abbrev pub fault_text : Fault → String
fault_text (storage_conflict m) = str_append "StorageConflict: " m
fault_text (user_input m) = str_append "UserInputError: " m
fault_text (value_error m) = str_append "ValueError: " m
fault_text (integrity m) = str_append "IntegrityError: " m
fault_text (run_not_found m) = str_append "RunNotFound: " m

-- `_clean_state`: in a clean vault `complete_v5_migration` does not raise.
abbrev pub clean_state : Vault → Vault × Outcome
clean_state v =
    let state = v.store.materialization in
    (
      (if is_clean state.phase then record v { migration = completed_phase v.migration } else v),
      settled state,
    )

-- `return self._clean_state(store) if finished else store.materialization_state()`.
abbrev pub returned : Bool → Vault → Vault × Outcome
returned true v = clean_state v
returned false v = (v, settled v.store.materialization)

-- `finish_materialization` and what follows it.
abbrev pub finished : Result (Bool × Store) → Vault → Vault × Outcome
finished (ok (all, s)) v = returned all (record v { store = s })
finished (err e) v = (v, raised (fault_text e))

module _ (digest : Digest) where
  abbrev pub requested : ℕ → Vault → Vault
  requested now v = record v { store = (request_materialization digest now v.store).1 }

  abbrev pub is_stale : Bool → Surroundings → Vault → Bool
  is_stale force w v = force || needs_rebuild v || external_wiki_change w.wiki_checked v

  -- `_publish_machine_index` and `finish_materialization`.
  abbrev pub publish : Token → String → String → Surroundings → Shown → Vault → Vault × Outcome
  publish token generation wiki w (not_shown e left) v = (record v { snapshot = left }, raised e)
  publish token generation wiki w shown v =
      let s = run digest v.store w.late in
      finished (finish_materialization token generation wiki w.now s)
        (record v { store = s; snapshot = current generation })

  -- The pages changed since the index was prepared: it is discarded.
  abbrev pub set_aside : ℕ → Attempted → Vault → Vault × Outcome
  set_aside now (broke e) v = (v, raised e)
  set_aside now done v = returned false (requested now v)

  -- `_resume_prepared` of a prepared round.
  unfoldable pub resume_prepared : Surroundings → Vault → Vault × Outcome
  resume_prepared w v =
      let state = v.store.materialization in
      let generation = column_text state.prepared_index_generation in
      let fingerprint = column_text state.prepared_wiki_fingerprint in
      if is_empty generation || is_empty fingerprint
      then (v, raised "RuntimeError: Prepared materialization state is incomplete.")
      else if not (str_eq w.wiki_resumed fingerprint)
      then set_aside w.now w.discarded v
      else publish
          (record {
            requested_epoch = state.requested_epoch;
            fact_generation = state.requested_fact_generation;
          })
          generation fingerprint w w.publishing v

  -- The handler of an exception before the round is prepared.
  abbrev pub failed : Token → String → ℕ → Vault → Vault × Outcome
  failed token e now v = (record v { store = fail_materialization token e now v.store }, raised e)

  -- `prepare_materialization` and what follows it.
  abbrev pub prepared :
      Token → String → Surroundings → Result (Unit {0} × Store) → Vault → Vault × Outcome
  prepared token generation w (err e) v = failed token (fault_text e) w.now v
  prepared token generation w (ok (u, s)) v =
      publish token generation w.wiki_after w w.publishing (record v { store = s })

  -- The pages changed while the index was built: it is discarded.
  abbrev pub overtaken : Token → ℕ → Attempted → Vault → Vault × Outcome
  overtaken token now (broke e) v = failed token e now v
  overtaken token now done v = returned false (requested now v)

  -- `prepare_machine_index` and what follows it.
  abbrev pub with_index : Token → Surroundings → Built → Vault → Vault × Outcome
  with_index token w (not_built e) v = failed token e w.now v
  with_index token w (index generation) v =
      if not (str_eq w.wiki_before w.wiki_after)
      then overtaken token w.now w.discarded v
      else prepared token generation w
          (prepare_materialization token generation w.wiki_after w.now v.store) v

  -- `_write_projections` and what follows it; `v` is the vault by then.
  abbrev pub build : Token → Surroundings → Attempted → Vault → Vault × Outcome
  build token w (broke e) v = failed token e w.now v
  build token w done v = with_index token w w.built v

  abbrev pub begun : Surroundings → Option Token × Store → Vault → Vault × Outcome
  begun w (none, s) v = clean_state (record v { store = s })
  begun w (some token, s) v =
      build token w w.projections (record v { store = run digest s w.during })

  -- `reconcile`.
  unfoldable pub reconcile : Bool → Surroundings → Vault → Vault × Outcome
  unfolding resume_prepared
  reconcile force w v =
      let v' = if is_stale force w v then requested w.now v else v in
      if is_prepared v'.store.materialization.phase
      then resume_prepared w v'
      else begun w (begin_materialization w.now v'.store) v'
