-- ===== src/Run/State.antt =====
-- core/schemas/run_monitor.py: the record of a run and its events, as runtime/run_monitor.py writes
-- them to `.knoarbor/runs/<run>.json` and `.knoarbor/runs/<run>.events.jsonl`.
use knoarbor.Prelude.{ℕ, ◌-◌, String, Bool, true, false, Option, none, some, List, ltb}
use knoarbor.Json.{Fields}

-- `RunFlow`.
pub data Flow : Type 0 where
  ingest lint query : Flow

pub data RunStatus : Type 0 where
  created queued running waiting_external_service waiting_model writing linting completed failed
        cancelling cancelled partially_failed :
      RunStatus

-- `status in TERMINAL_RUN_STATUSES`.
abbrev pub is_terminal : RunStatus → Bool
is_terminal completed = true
is_terminal failed = true
is_terminal cancelled = true
is_terminal partially_failed = true
is_terminal _ = false

-- `status in ACTIVE_RUN_STATUSES`.
abbrev pub is_active : RunStatus → Bool
is_active created = true
is_active queued = true
is_active running = true
is_active waiting_external_service = true
is_active waiting_model = true
is_active writing = true
is_active linting = true
is_active cancelling = true
is_active _ = false

abbrev pub is_cancelling : RunStatus → Bool
is_cancelling cancelling = true
is_cancelling _ = false

-- A timestamp as `datetime.fromisoformat` reads it, in seconds; `none` is a text that it refuses.
abbrev pub Timestamp : Type 0
Timestamp = Option ℕ

pub record RunProgress : Type 0 where
  pub total : Option ℕ
  pub completed : ℕ
  pub current : Option String

pub record RunRecord : Type 0 where
  pub run_id : String
  pub flow : Flow
  pub status : RunStatus
  pub stage : String
  pub current_item : Option String
  pub message : String
  pub started_at : Timestamp
  pub updated_at : Timestamp
  pub last_heartbeat_at : Timestamp
  pub finished_at : Option Timestamp
  pub elapsed_seconds : ℕ
  pub progress : RunProgress
  pub metrics : Fields
  pub metadata : Fields
  pub result_summary : Fields
  pub error : Option String
  pub error_info : Fields
  pub cancel_requested : Bool

pub record RunEvent : Type 0 where
  pub run_id : String
  pub sequence : ℕ
  pub created_at : Timestamp
  pub event_type : String
  pub status : RunStatus
  pub stage : String
  pub message : String
  pub current_item : Option String
  pub progress : RunProgress
  pub metrics : Fields
  pub payload : Fields

-- The two files of one run: the record, when there is one, and the lines of the event log.
pub record RunFiles : Type 0 where
  pub record_file : Option RunRecord
  pub events : List RunEvent

-- `_elapsed`.
abbrev pub elapsed : Timestamp → ℕ → ℕ
elapsed none now = 0
elapsed (some t) now = now - t

-- `_seconds_since(t) < limit`; a text that is no timestamp is infinitely old.
abbrev pub is_recent : Timestamp → ℕ → ℕ → Bool
is_recent none now limit = false
is_recent (some t) now limit = ltb (now - t) limit
