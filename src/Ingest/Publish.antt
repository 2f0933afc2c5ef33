-- ===== src/Ingest/Publish.antt =====
-- runtime/transactional_ingest.py: `publish_revision` behind the lease and source fences, its
-- parts in the order of the method.
use knoarbor.Prelude.{
  ℕ, ◌+◌, String, Bool, true, false, Option, none, some, List, [], ◌∷◌, ◌++◌, not, ◌&&◌, ◌||◌,
  str_eq, opt_eq, is_some, Result, ok, ◌>>=◌, ◌>>◌, require, or_raise, value_error, any,
  storage_conflict, integrity, if◌then◌else◌, ltb, ◌==◌,
}
use mathlib.Core.Option
use knoarbor.Table.{Table, lookup, update_where, row_count, insert, upsert}
use knoarbor.Json.{Json, text, object, Fields, set_field}
use knoarbor.Ingest.State.{
  AttemptLease, Store, SourceHead, Revision, WindowHead, Stream, Contribution, task_row,
}
use knoarbor.Ingest.Tasks.{holds_epoch}
use knoarbor.Ingest.Materialize.{Digest, request_materialization}

-- `checkpoint_cursor`.
pub record Checkpoint : Type 0 where
  pub cursor_key : String
  pub cursor_type : String
  pub payload : Fields

-- The arguments of `publish_revision` after the lease.
pub record Publication : Type 0 where
  pub source_id : String
  pub expected_source_head : Option String
  pub revision_id : String
  pub manifest_path : String
  pub manifest_hash : String
  pub window_id : Option String
  pub previous_window_id : Option String
  pub window_from_index : Option ℕ
  pub window_to_index : Option ℕ
  pub entity_contributions : List (String × Json)
  pub checkpoint_cursor : Option Checkpoint
  pub input_revision_key : Option String

-- `select … from source_revisions where source_id=? and input_revision_key=?`.
unfoldable pub find_input : String → String → Table Revision → Option (String × Revision)
find_input source key [] = none
find_input source key ((k, r) ∷ rows) =
    if str_eq r.source_id source && opt_eq r.input_revision_key (some key)
    then some (k, r)
    else find_input source key rows

-- `if input_revision_key:` also takes the empty text for absent.
unfoldable pub existing_revision : Publication → Table Revision → Option (String × Revision)
unfolding find_input
existing_revision p rows = elim p.input_revision_key [
  | none ↦ none
  | some key ↦ if str_eq key "" then none else find_input p.source_id key rows
]

-- The row of `source_heads`, when it is the expected one.
unfoldable pub check_head : Publication → Store → Result (Option SourceHead)
check_head p s = do
  let head = lookup p.source_id s.source_heads
  require (opt_eq (Option.map (λ (h : SourceHead). h.revision_id) head) p.expected_source_head)
      (storage_conflict "Source head changed before ingest publication.")
  ok head

abbrev pub expected_start : Option Stream → ℕ → ℕ
expected_start none from = from
expected_start (some stream) from = stream.watermark_to_index + 1

abbrev pub watermark : Option Stream → Option String
watermark = Option.map (λ (st : Stream). st.watermark_window_id)

-- The row of `session_streams`, when the window is the next one; with the last index of the window.
unfoldable pub check_window : Publication → Store → Result (Option Stream × ℕ)
check_window p s = do
  from ←
      or_raise p.window_from_index
        (value_error "Session window publication requires inclusive source indexes.")
  to ←
      or_raise p.window_to_index
        (value_error "Session window publication requires inclusive source indexes.")
  require (not (ltb to from)) (value_error "Session window indexes must be ordered.")
  let stream = lookup p.source_id s.session_streams
  require (opt_eq (watermark stream) p.previous_window_id && from == expected_start stream from)
      (storage_conflict "Session window is not the next contiguous committed window.")
  require (is_some stream || not (is_some p.previous_window_id))
      (storage_conflict "A session baseline cannot reference a previous window.")
  ok (stream, to)

-- `insert into source_revisions`, under the primary key and `source_input_revision`.
unfoldable pub input_taken : String → Option String → Table Revision → Bool
input_taken source key [] = false
input_taken source key ((k, r) ∷ rows) =
    (is_some key && str_eq r.source_id source && opt_eq r.input_revision_key key)
    || input_taken source key rows

abbrev pub new_revision : AttemptLease → Publication → ℕ → Revision
new_revision lease p now = record {
  source_id = p.source_id;
  task_id = lease.task_id;
  attempt_id = lease.attempt_id;
  lease_epoch = lease.epoch;
  manifest_path = p.manifest_path;
  manifest_hash = p.manifest_hash;
  input_revision_key = p.input_revision_key;
  window_id = p.window_id;
  previous_window_id = p.previous_window_id;
  state = "published";
  created_at = now;
}

unfoldable pub insert_revision : AttemptLease → Publication → ℕ → Store → Result Store
unfolding input_taken
insert_revision lease p now s = do
  require (not (input_taken p.source_id p.input_revision_key s.source_revisions))
      (integrity "source_input_revision")
  rows ← insert p.revision_id (new_revision lease p now) s.source_revisions
  ok (record s { source_revisions = rows })

-- `update entity_contributions set active=0 where source_id=? and revision_id=?`.
unfoldable pub deactivate : String → String → List Contribution → List Contribution
deactivate source revision [] = []
deactivate source revision (c ∷ cs) =
    let rest = deactivate source revision cs in
    if str_eq c.source_id source && str_eq c.revision_id revision
    then record c { active = false } ∷ rest
    else c ∷ rest

-- `where source_id=? and version=?`, with the version that the transaction read.
abbrev pub at_head : Publication → SourceHead → String → SourceHead → Bool
at_head p head k h = str_eq k p.source_id && h.version == head.version

abbrev pub advance_head : Publication → ℕ → SourceHead → SourceHead
advance_head p now h = record h {
  revision_id = p.revision_id;
  version = h.version + 1;
  updated_at = now;
}

abbrev pub first_head : Publication → ℕ → SourceHead
first_head p now = record { revision_id = p.revision_id; version = 1; updated_at = now }

unfoldable pub move_head : Publication → ℕ → Option SourceHead → Store → Result Store
unfolding deactivate
move_head p now none s = do
  heads ← insert p.source_id (first_head p now) s.source_heads
  ok (record s { source_heads = heads })
move_head p now (some head) s = do
  require (row_count (at_head p head) s.source_heads == 1)
      (storage_conflict "Source head changed during ingest publication.")
  ok (record s {
    source_heads = update_where (at_head p head) (advance_head p now) s.source_heads;
    contributions = deactivate p.source_id head.revision_id s.contributions;
  })

abbrev pub same_window : String → String → WindowHead → Bool
same_window source window w = str_eq w.source_id source && str_eq w.window_id window

unfoldable pub insert_window : Publication → String → ℕ → Store → Result Store
insert_window p window now s = do
  require (not (any (same_window p.source_id window) s.window_heads))
      (integrity "session_window_heads")
  ok (record s {
    window_heads =
        s.window_heads
        ++ record {
          source_id = p.source_id;
          window_id = window;
          revision_id = p.revision_id;
          updated_at = now;
        }
          ∷ [];
  })

abbrev pub at_stream : Publication → Stream → String → Stream → Bool
at_stream p stream k st = str_eq k p.source_id && st.version == stream.version

abbrev pub advance_stream : String → ℕ → ℕ → Stream → Stream
advance_stream window to now st = record st {
  watermark_window_id = window;
  watermark_to_index = to;
  version = st.version + 1;
  updated_at = now;
}

abbrev pub first_stream : String → ℕ → ℕ → Stream
first_stream window to now = record {
  watermark_window_id = window;
  watermark_to_index = to;
  version = 1;
  updated_at = now;
}

unfoldable pub move_watermark : Publication → String → ℕ → ℕ → Option Stream → Store → Result Store
move_watermark p window to now none s = do
  streams ← insert p.source_id (first_stream window to now) s.session_streams
  ok (record s { session_streams = streams })
move_watermark p window to now (some stream) s = do
  require (row_count (at_stream p stream) s.session_streams == 1)
      (storage_conflict "Session watermark changed during publication.")
  ok (record s {
    session_streams =
        update_where (at_stream p stream) (advance_stream window to now) s.session_streams;
  })

-- The primary key of `entity_contributions`: SQLite counts two rows with no window as different.
abbrev pub same_contribution : Publication → String → Contribution → Bool
same_contribution p entity c =
    is_some c.window_id
    && opt_eq c.window_id p.window_id
    && str_eq c.source_id p.source_id
    && str_eq c.revision_id p.revision_id
    && str_eq c.entity_id entity

unfoldable pub add_contributions :
    Publication → List (String × Json) → List Contribution → Result (List Contribution)
add_contributions p [] cs = ok cs
add_contributions p ((entity, payload) ∷ rest) cs = do
  require (not (any (same_contribution p entity) cs)) (integrity "entity_contributions")
  let row : Contribution = record {
    source_id = p.source_id;
    revision_id = p.revision_id;
    window_id = p.window_id;
    entity_id = entity;
    payload = payload;
    active = true;
  }
  add_contributions p rest (cs ++ row ∷ [])

unfoldable pub put_cursor : Publication → ℕ → Option Checkpoint → Store → Store
put_cursor p now none s = s
put_cursor p now (some c) s = record s {
  source_cursors =
      upsert c.cursor_key
        (record {
          cursor_type = c.cursor_type;
          source_id = p.source_id;
          revision_id = p.revision_id;
          payload = object (set_field "factual_revision_id" (text p.revision_id) c.payload);
          updated_at = now;
        })
        s.source_cursors;
}

-- From the insertion of the revision to its head: a document has one head for a source, a session
-- one for each window.
unfoldable pub record_head : AttemptLease → Publication → ℕ → Store → Result Store
unfolding check_head insert_revision move_head
record_head lease p now s = do
  head ← check_head p s
  s₁ ← insert_revision lease p now s
  move_head p now head s₁

unfoldable pub record_window : AttemptLease → Publication → String → ℕ → Store → Result Store
unfolding check_window insert_revision insert_window move_watermark
record_window lease p window now s = do
  (stream, to) ← check_window p s
  s₁ ← insert_revision lease p now s
  s₂ ← insert_window p window now s₁
  move_watermark p window to now stream s₂

unfoldable pub record_revision :
    AttemptLease → Publication → ℕ → Option String → Store → Result Store
unfolding record_head record_window
record_revision lease p now none s = record_head lease p now s
record_revision lease p now (some window) s = record_window lease p window now s

-- `later` is the clock of `_request_materialization`.
unfoldable pub settle_publication : Digest → Publication → ℕ → ℕ → List Contribution → Store → Store
unfolding put_cursor request_materialization
settle_publication digest p now later cs s =
    (request_materialization digest later
      (put_cursor p now p.checkpoint_cursor (record s { contributions = cs }))).1

unfoldable pub publish_new :
    Digest → AttemptLease → Publication → ℕ → ℕ → Store → Result (String × Store)
unfolding record_revision add_contributions settle_publication
publish_new digest lease p now later s = do
  s₁ ← record_revision lease p now p.window_id s
  cs ← add_contributions p p.entity_contributions s₁.contributions
  ok (p.revision_id, settle_publication digest p now later cs s₁)

unfoldable pub publish_revision :
    Digest → AttemptLease → Publication → ℕ → ℕ → ℕ → Store → Result (String × Store)
unfolding existing_revision
publish_revision digest lease p checked now later s = do
  task ← task_row lease.task_id s
  require (holds_epoch lease task checked)
      (storage_conflict "Stale ingest worker cannot publish a revision.")
  require (not task.cancel_requested)
      (storage_conflict "Cancelled ingest task cannot publish a revision.")
  elim (existing_revision p s.source_revisions) [
    | some (revision_id, r) ↦ ok (revision_id, s)
    | none ↦ publish_new digest lease p now later s
  ]
