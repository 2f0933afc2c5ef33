-- ===== src/Ingest/Purge.antt =====
-- runtime/transactional_ingest.py: `purge_source`, which takes a source and its revisions out of the
-- store, and `replace_revision_manifest`.
use knoarbor.Prelude.{
  ℕ, String, Bool, none, some, List, [], ◌∷◌, not, ◌&&◌, ◌||◌, str_eq, is_some, Result, ok, ◌>>◌,
  require, user_input, any, if◌then◌else◌, ◌==◌, map, keep,
}
use Prim.Native.String.{◌++◌ as str_append}
use knoarbor.Table.{Table, lookup, update, update_where, row_count, delete}
use knoarbor.Ingest.State.{Task, Store, Revision, WindowHead, Contribution}
use knoarbor.Ingest.Materialize.{Digest, request_materialization}

-- The rows of `purge_source`'s join: each revision of the source whose task exists.
unfoldable pub purged_rows : String → Table Task → Table Revision → List (Revision × Task)
purged_rows source ts [] = []
purged_rows source ts ((k, r) ∷ rows) =
    let rest = purged_rows source ts rows in
    if str_eq r.source_id source
    then elim (lookup r.task_id ts) [ none ↦ rest | some t ↦ (r, t) ∷ rest ]
    else rest

-- `update tasks set command_hash=null` for each task and each input generation of the rows.
abbrev pub forget_hash : Task → Task
forget_hash t = record t { command_hash = none }

unfoldable pub forget_tasks : List (Revision × Task) → Table Task → Table Task
forget_tasks [] ts = ts
forget_tasks ((r, t) ∷ rows) ts = forget_tasks rows (update r.task_id forget_hash ts)

-- `if row["input_generation_id"]` leaves the empty text out.
unfoldable pub forget_inputs : List (Revision × Task) → Table Task → Table Task
forget_inputs [] ts = ts
forget_inputs ((r, t) ∷ rows) ts =
    let by_input =
      update_where
        (λ k u.
          not (str_eq t.input_generation_id "")
          && str_eq u.input_generation_id t.input_generation_id)
        forget_hash ts in
    forget_inputs rows by_input

-- `delete from t where source_id=?` on a table whose key is not the source.
unfoldable pub delete_rows {ℓ} : {A : Type ℓ} → (A → Bool) → Table A → Table A
delete_rows test [] = []
delete_rows test ((k, a) ∷ t) =
    let rest = delete_rows test t in if test a then rest else (k, a) ∷ rest

-- The deletions of `purge_source`, and the commands that it forgets.
unfoldable pub purged : String → List (Revision × Task) → Store → Store
unfolding forget_tasks forget_inputs delete_rows
purged source rows s = record s {
  source_heads = delete source s.source_heads;
  window_heads = keep (λ (w : WindowHead). not (str_eq w.source_id source)) s.window_heads;
  session_streams = delete source s.session_streams;
  source_cursors = delete_rows (λ c. str_eq c.source_id source) s.source_cursors;
  contributions = keep (λ (c : Contribution). not (str_eq c.source_id source)) s.contributions;
  source_revisions = delete_rows (λ r. str_eq r.source_id source) s.source_revisions;
  tasks = forget_inputs rows (forget_tasks rows s.tasks);
}

unfoldable pub purge_source : Digest → String → ℕ → Store → Result (List String × Store)
unfolding purged_rows purged request_materialization
purge_source digest source now s = do
  require
      (is_some (lookup source s.source_heads)
        || any (λ (w : WindowHead). str_eq w.source_id source) s.window_heads)
      (user_input (str_append "Active source was not found: " source))
  let rows = purged_rows source s.tasks s.source_revisions
  ok (
    map (λ (row : Revision × Task). row.0.manifest_path) rows,
    (request_materialization digest now (purged source rows s)).1,
  )

unfoldable pub replace_revision_manifest :
    String → String → String → Store → Result (Unit {0} × Store)
replace_revision_manifest revision_id path hash s = do
  require (row_count (λ k r. str_eq k revision_id) s.source_revisions == 1)
      (user_input (str_append "Source revision was not found: " revision_id))
  ok (
    tt,
    record s {
      source_revisions =
          update revision_id (λ r. record r { manifest_path = path; manifest_hash = hash })
            s.source_revisions;
    },
  )
