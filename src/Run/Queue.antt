-- ===== src/Run/Queue.antt =====
-- runtime/queue.py: `_execute_task`, the one run of a queued workflow from its record to its end.
use knoarbor.Prelude.{ℕ, String, Bool, true, false, ◌&&◌, Option, some, if◌then◌else◌}
use Prim.Native.String.{◌++◌ as str_append}
use knoarbor.Json.{Fields, end}
use knoarbor.Errors.{Raised, run_cancelled}
use knoarbor.Run.State.{Flow, ingest, lint, query, RunStatus, partially_failed, RunFiles}
use knoarbor.Run.Monitor.{
  RunMonitor, read_record, start, event, no_update, complete, partially_fail,
}
use knoarbor.Run.Endings.{fail, raises_cancelled}
use knoarbor.Run.Policy.{completion_status}

-- What the target of a task does: it raises, or returns its data, summary and metrics.
pub data Outcome : Type 0 where
  raised : Raised → String → Outcome
  returned : Fields → Fields → Fields → Outcome

abbrev pub flow_text : Flow → String
flow_text ingest = "ingest"
flow_text lint = "lint"
flow_text query = "query"

abbrev pub is_partial : RunStatus → Bool
is_partial partially_failed = true
is_partial _ = false

-- What follows the target: its end is recorded. `now` and `later` are the clock of the last record
-- and of its event; nothing else writes to the run in between.
unfoldable pub close_run :
    RunMonitor
    → Outcome
    → ℕ
    → ℕ
    → (RunFiles → RunFiles)
    → (RunFiles → RunFiles)
    → RunFiles
    → RunFiles
unfolding fail complete partially_fail completion_status
close_run m (raised x shown) now later between during files =
    fail m x "failed" shown now later between during files
close_run m (returned dump summary metrics) now later between during files =
    if is_partial (completion_status m.flow dump)
    then partially_fail m (str_append (flow_text m.flow) " run partially failed.") summary metrics
        now later between during files
    else complete m (str_append (flow_text m.flow) " run completed.") summary metrics now later
        between during files

-- The clock of the calls that come before the target.
pub record Clock : Type 0 where
  pub checked : ℕ
  pub started : ℕ
  pub beat : ℕ
  pub logged : ℕ
  pub worker : ℕ
  pub worker_logged : ℕ

unfoldable pub begin_run : RunMonitor → Clock → RunFiles → RunFiles
unfolding start event
begin_run m c files =
    event m "worker_started" (str_append (flow_text m.flow) " worker started.")
      (record no_update { stage = some "running" }) end c.worker c.worker_logged
      (start m (str_append (flow_text m.flow) " run started.") c.started c.beat c.logged files)

-- The message of `RunCancelled`.
abbrev pub cancelled_text : RunMonitor → String
cancelled_text m = str_append "Run " (str_append m.run_id " was cancelled.")

-- `_execute_task`; `probe` is the result of the monitor's cancellation probe, when it has one, and
-- `target` what the workflow does to the files of the run and how it ends.
unfoldable pub execute_task :
    RunMonitor
    → Option Bool
    → (RunFiles → Outcome × RunFiles)
    → Clock
    → ℕ
    → ℕ
    → (RunFiles → RunFiles)
    → (RunFiles → RunFiles)
    → RunFiles
    → RunFiles
unfolding close_run begin_run
execute_task m probe target c now later between during files =
    if (read_record m c.checked files).cancel_requested && raises_cancelled probe m c.checked files
    then close_run m (raised (run_cancelled (cancelled_text m)) (cancelled_text m)) now later
        between during files
    else (let (outcome, left) = target (begin_run m c files) in
        close_run m outcome now later between during left)
