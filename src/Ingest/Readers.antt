-- ===== src/Ingest/Readers.antt =====
-- runtime/transactional_ingest.py: the reads of rows that other parts of the program make.
use knoarbor.Prelude.{
  ℕ, String, ◌≡◌, refl, ap, ◌∙◌, Bool, true, false, not, Option, none, some, List, [], ◌∷◌, Result,
  ok, ◌>>=◌, ◌>>◌, require, or_raise, user_input, storage_conflict, str_eq, if◌then◌else◌,
}
use Prim.Native.String.{◌++◌ as str_append}
use knoarbor.Json.{Json, object, field}
use knoarbor.Table.{Table, lookup}
use knoarbor.Ingest.State.{AttemptLease, Store, Task, Attempt, Revision, Cursor, task_row}
use knoarbor.Ingest.Materialize.{Digest}
use knoarbor.Ingest.Publish.{Publication, find_input, new_revision, publish_new}
use knoarbor.Ingest.Heads.{publish_new-head}
use knoarbor.Ingest.Publishing.{publish_new-Published, publish_new-ok}

unfoldable pub revision_manifest : String → Store → Result Revision
revision_manifest revision_id s =
    or_raise (lookup revision_id s.source_revisions)
      (user_input (str_append "Source revision was not found: " revision_id))

-- The join of the revision with its task; an empty generation is none.
unfoldable pub input_generation_id_for_revision : String → Store → Result String
input_generation_id_for_revision revision_id s =
    let missing =
      user_input (str_append "Source revision input generation was not found: " revision_id) in
    do
      r ← or_raise (lookup revision_id s.source_revisions) missing
      t ← or_raise (lookup r.task_id s.tasks) missing
      require (not (str_eq t.input_generation_id "")) missing
      ok t.input_generation_id

unfoldable pub revision_for_input : String → String → Store → Option (String × Revision)
unfolding find_input
revision_for_input source_id key s = find_input source_id key s.source_revisions

unfoldable pub source_cursor : String → Store → Option Cursor
source_cursor cursor_key s = lookup cursor_key s.source_cursors

-- The attempts of a task, in the order of their insertion, which is that of their ordinals.
unfoldable pub attempts_for_task : String → Table Attempt → List (String × Attempt)
attempts_for_task task_id [] = []
attempts_for_task task_id ((k, a) ∷ rows) =
    let rest = attempts_for_task task_id rows in
    if str_eq a.task_id task_id then (k, a) ∷ rest else rest

-- The join of an attempt with its task.
unfoldable pub attempt_projection : String → Store → Result ((String × Attempt) × (String × Task))
attempt_projection attempt_id s =
    let missing = user_input (str_append "Ingest attempt was not found: " attempt_id) in
    do
      a ← or_raise (lookup attempt_id s.attempts) missing
      t ← or_raise (lookup a.task_id s.tasks) missing
      ok ((attempt_id, a), (a.task_id, t))

-- `command_for_task`, before the command is validated.
abbrev pub is_command : Json → Bool
is_command (object (field k v fs)) = true
is_command _ = false

unfoldable pub command_for_task : String → Store → Result Json
unfolding task_row
command_for_task task_id s = do
  t ← task_row task_id s
  require (is_command t.command)
      (storage_conflict (str_append "Ingest task has no v4 execution command: " task_id))
  ok t.command

-- A published document can be read back: its revision, and the input generation of the task that
-- published it, when that is not empty.
pub publish_new-readers :
    (digest : Digest) (lease : AttemptLease) (p : Publication) (now later : ℕ) (s : Store)
    (revision : String) (s' : Store) (t : Task)
    → p.window_id ≡ none
    → lookup lease.task_id s.tasks ≡ some t
    → str_eq t.input_generation_id "" ≡ false
    → publish_new digest lease p now later s ≡ ok (revision, s')
    → (revision_manifest revision s' ≡ ok (new_revision lease p now))
      × (input_generation_id_for_revision revision s' ≡ ok t.input_generation_id)
unfolding revision_manifest input_generation_id_for_revision
publish_new-readers digest lease p now later s revision s' t document found real h =
    let (_, _, written, _, _, _) =
      publish_new-head digest lease p now later s revision s' p.source_id document h in
    let (_, _, _, _, named, _) = publish_new-ok digest lease p now later s revision s' h in
    let task : lookup lease.task_id s'.tasks ≡ some t =
      ap (lookup lease.task_id)
        (publish_new-Published digest lease p now later s revision s' h).tasks
      ∙ found in
    rw (named, written) (refl, rw (task, real) refl)
