-- ===== src/Ingest/State.antt =====
-- runtime/transactional_ingest.py: the tables of `.knoarbor/ingest.sqlite`, a record for each row
-- and a table for each `create table`. The primary key of a row is its key in the table. Times are
-- readings of the clock in whole units, and session indexes are natural numbers.
use knoarbor.Prelude.{
  ℕ, String, Bool, true, false, Option, none, some, List, [], ◌∷◌, ◌++◌, Result, user_input,
  or_raise, ltb,
}
use Prim.Native.String.{◌++◌ as str_append}
use knoarbor.Table.{Table, lookup}
use knoarbor.Json.{Json}

pub data TaskState : Type 0 where
  queued running completed partially_failed failed paused_rate_limited recovery_needed cancelled :
      TaskState

pub record Task : Type 0 where
  pub command : Json
  pub command_hash : Option String
  pub input_generation_id : String
  pub state : TaskState
  pub current_attempt_id : String
  pub version : ℕ
  pub cancel_requested : Bool
  pub lease_owner : Option String
  pub lease_epoch : ℕ
  pub lease_expires_at : Option ℕ
  pub created_at : ℕ
  pub updated_at : ℕ

pub record Attempt : Type 0 where
  pub task_id : String
  pub ordinal : ℕ
  pub state : TaskState
  pub created_at : ℕ
  pub updated_at : ℕ
  pub finished_at : Option ℕ
  pub result : Option Json
  pub error : Option String

pub record SourceHead : Type 0 where
  pub revision_id : String
  pub version : ℕ
  pub updated_at : ℕ

pub record Revision : Type 0 where
  pub source_id : String
  pub task_id : String
  pub attempt_id : String
  pub lease_epoch : ℕ
  pub manifest_path : String
  pub manifest_hash : String
  pub input_revision_key : Option String
  pub window_id : Option String
  pub previous_window_id : Option String
  pub state : String
  pub created_at : ℕ

pub record Cursor : Type 0 where
  pub cursor_type : String
  pub source_id : String
  pub revision_id : String
  pub payload : Json
  pub updated_at : ℕ

pub record WindowHead : Type 0 where
  pub source_id : String
  pub window_id : String
  pub revision_id : String
  pub updated_at : ℕ

pub record Stream : Type 0 where
  pub watermark_window_id : String
  pub watermark_to_index : ℕ
  pub version : ℕ
  pub updated_at : ℕ

pub record Contribution : Type 0 where
  pub source_id : String
  pub revision_id : String
  pub window_id : Option String
  pub entity_id : String
  pub payload : Json
  pub active : Bool

pub record Control : Type 0 where
  pub paused : Bool
  pub version : ℕ
  pub updated_at : ℕ

pub data Phase : Type 0 where
  clean dirty building prepared failed : Phase

pub record Materialization : Type 0 where
  pub requested_epoch : ℕ
  pub published_epoch : ℕ
  pub requested_fact_generation : String
  pub published_fact_generation : Option String
  pub prepared_index_generation : Option String
  pub prepared_wiki_fingerprint : Option String
  pub published_index_generation : Option String
  pub published_wiki_fingerprint : Option String
  pub phase : Phase
  pub error : Option String
  pub updated_at : ℕ

pub record Store : Type 0 where
  pub control : Control
  pub tasks : Table Task
  pub attempts : Table Attempt
  pub source_heads : Table SourceHead
  pub source_revisions : Table Revision
  pub source_cursors : Table Cursor
  pub window_heads : List WindowHead
  pub session_streams : Table Stream
  pub contributions : List Contribution
  pub materialization : Materialization

-- `AttemptLease`.
pub record AttemptLease : Type 0 where
  pub task_id : String
  pub attempt_id : String
  pub epoch : ℕ
  pub expires_at : ℕ

-- `MaterializationToken`.
pub record Token : Type 0 where
  pub requested_epoch : ℕ
  pub fact_generation : String

abbrev pub is_queued : TaskState → Bool
is_queued queued = true
is_queued _ = false

abbrev pub is_running : TaskState → Bool
is_running running = true
is_running _ = false

-- `state in {"completed", "cancelled"}`.
abbrev pub is_settled : TaskState → Bool
is_settled completed = true
is_settled cancelled = true
is_settled _ = false

-- `_task` and `_attempt`: the row, or `UserInputError`.
unfoldable pub task_row : String → Store → Result Task
task_row task_id s =
    or_raise (lookup task_id s.tasks)
      (user_input (str_append "Ingest task was not found: " task_id))

unfoldable pub attempt_row : String → Store → Result Attempt
attempt_row attempt_id s =
    or_raise (lookup attempt_id s.attempts)
      (user_input (str_append "Ingest attempt was not found: " attempt_id))

-- `lease_expires_at is not None and lease_expires_at < now`.
abbrev pub lapsed : Option ℕ → ℕ → Bool
lapsed none now = false
lapsed (some t) now = ltb t now

-- `lease_expires_at is None or lease_expires_at < now`.
abbrev pub lease_over : Option ℕ → ℕ → Bool
lease_over none now = true
lease_over (some t) now = ltb t now

-- The rows that `_active_fact_generation` selects: the heads, then each window under the name
-- `source:window`. Their order, the canonical JSON and SHA-256 are the digest's, a parameter.
unfoldable pub head_facts : Table SourceHead → List (String × String)
head_facts [] = []
head_facts ((k, h) ∷ t) = (k, h.revision_id) ∷ head_facts t

unfoldable pub window_facts : List WindowHead → List (String × String)
window_facts [] = []
window_facts (w ∷ ws) =
    (str_append w.source_id (str_append ":" w.window_id), w.revision_id) ∷ window_facts ws

unfoldable pub active_facts : Store → List (String × String)
unfolding head_facts window_facts
active_facts s = head_facts s.source_heads ++ window_facts s.window_heads
