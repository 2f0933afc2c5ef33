-- ===== src/Ingest/Purging.antt =====
-- runtime/transactional_ingest.py: `purge_source` and `_request_materialization` keep the
-- store well-formed: they forget the hash of a command, and touch no task otherwise.
use knoarbor.Prelude.{ℕ, String, ◌≡◌, Bool, List, [], ◌∷◌, arith, ok}
use knoarbor.Table.{Table, update_where, Rows, Unique, Unique-update_where}
use knoarbor.Ingest.State.{Task, Attempt, Store, Revision}
use knoarbor.Ingest.Materialize.{Digest, request_materialization}
use knoarbor.Ingest.Purge.{
  purged, forget_tasks, forget_inputs, forget_hash, purge_source, purged_rows,
}
use knoarbor.Ingest.Consistent.{TaskOk, tasks_updated}
use knoarbor.Ingest.Invariant.{IsConsistent}

forget-tied :
    (test : String → Task → Bool) (attempts : Table Attempt) (ts : Table Task)
    → Rows (TaskOk attempts) ts
    → Rows (TaskOk attempts) (update_where test forget_hash ts)
forget-tied test attempts ts = tasks_updated test forget_hash attempts ts λ k u e hit row. record {
  current = row.current;
  found = row.found;
  own = row.own;
  same_state = row.same_state;
  leased = row.leased;
}

forget_tasks-tied :
    (rows : List (Revision × Task)) (attempts : Table Attempt) (ts : Table Task)
    → Unique ts
    → Rows (TaskOk attempts) ts
    → Unique (forget_tasks rows ts) × Rows (TaskOk attempts) (forget_tasks rows ts)
unfolding forget_tasks
forget_tasks-tied [] attempts ts u w = (u, w)
forget_tasks-tied ((r, t) ∷ rows) attempts ts u w =
    forget_tasks-tied rows attempts _ (Unique-update_where _ _ ts u) (forget-tied _ attempts ts w)

forget_inputs-tied :
    (rows : List (Revision × Task)) (attempts : Table Attempt) (ts : Table Task)
    → Unique ts
    → Rows (TaskOk attempts) ts
    → Unique (forget_inputs rows ts) × Rows (TaskOk attempts) (forget_inputs rows ts)
unfolding forget_inputs
forget_inputs-tied [] attempts ts u w = (u, w)
forget_inputs-tied ((r, t) ∷ rows) attempts ts u w =
    forget_inputs-tied rows attempts _ (Unique-update_where _ _ ts u) (forget-tied _ attempts ts w)

pub purge_source-ok :
    (digest : Digest) (source : String) (now : ℕ) (s : Store) (paths : List String) (s' : Store)
    → purge_source digest source now s ≡ ok (paths, s')
    → s'
      ≡ (request_materialization digest now
          (purged source (purged_rows source s.tasks s.source_revisions) s)).1
unfolding purge_source
purge_source-ok digest source now s paths s' h = ground arith

pub request-IsConsistent :
    (digest : Digest) (now : ℕ) (s : Store)
    → IsConsistent s
    → IsConsistent (request_materialization digest now s).1
unfolding request_materialization
request-IsConsistent digest now s v = record { unique = v.unique; tied = v.tied }

purged-IsConsistent :
    (source : String) (rows : List (Revision × Task)) (s : Store)
    → IsConsistent s
    → IsConsistent (purged source rows s)
unfolding purged
purged-IsConsistent source rows s v =
    let (u₁, w₁) = forget_tasks-tied rows s.attempts s.tasks v.unique v.tied in
    let (u₂, w₂) = forget_inputs-tied rows s.attempts (forget_tasks rows s.tasks) u₁ w₁ in
    record { unique = u₂; tied = w₂ }

pub purge_source-IsConsistent :
    (digest : Digest) (source : String) (now : ℕ) (s : Store) (paths : List String) (s' : Store)
    → IsConsistent s
    → purge_source digest source now s ≡ ok (paths, s')
    → IsConsistent s'
purge_source-IsConsistent digest source now s paths s' v h =
    rw (purge_source-ok digest source now s paths s' h)
      (request-IsConsistent digest now _ (purged-IsConsistent source _ s v))
