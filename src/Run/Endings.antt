-- ===== src/Run/Endings.antt =====
-- runtime/run_monitor.py: how a run ends other than by its own result: `fail`, `request_cancel`,
-- and `_reconcile_stale_record` for a run whose worker is gone.
use knoarbor.Prelude.{
  ℕ, String, Bool, true, false, ◌&&◌, ◌||◌, Option, none, some, if◌then◌else◌, str_eq,
}
use Prim.Native.String.{◌++◌ as str_append}
use knoarbor.Json.{Fields, end, field, get, text, object, boolean}
use knoarbor.Errors.{Raised, run_cancelled, error_info}
use knoarbor.Run.State.{
  RunStatus, failed, cancelling, cancelled, is_terminal, is_cancelling, RunRecord, RunFiles,
  elapsed, is_recent,
}
use knoarbor.Run.Monitor.{RunMonitor, read_record, write_record, append_event}

-- `_public_error_info`: `public.pop("http_status", None)`.
unfoldable pub without : String → Fields → Fields
without k end = end
without k (field j v fs) = let rest = without k fs in if str_eq j k then rest else field j v rest

abbrev pub public_error_info : Fields → Fields
public_error_info = without "http_status"

-- `info.get(key) or default`; the infos hold texts under these keys.
unfoldable pub text_or : String → String → Fields → String
text_or default key info = elim (get key info) [
  | text t ↦ if str_eq t "" then default else t
  | _ ↦ default
]

unfoldable pub format_error : Fields → String
unfolding text_or
format_error info = str_append "[" (
    str_append (text_or "KA-INTERNAL-001" "code" info) (
      str_append "] " (
        str_append (text_or "internal_error" "category" info)
          (str_append ": " (text_or "" "message" info)))))

-- `isinstance(exc, RunCancelled)`.
abbrev pub is_run_cancelled : Raised → Bool
is_run_cancelled (run_cancelled message) = true
is_run_cancelled _ = false

abbrev pub failed_status : Raised → RunStatus
failed_status raised = if is_run_cancelled raised then cancelled else failed

unfoldable pub failed_record : Raised → String → String → ℕ → RunRecord → RunRecord
unfolding format_error without
failed_record raised stage shown now r =
    let info = public_error_info (error_info raised) in
    record r {
      status = failed_status raised;
      stage = if is_run_cancelled raised then "cancelled" else stage;
      message = text_or shown "message" info;
      error = some (format_error info);
      error_info = info;
      updated_at = some now;
      last_heartbeat_at = some now;
      finished_at = some (some now);
      elapsed_seconds = elapsed r.started_at now;
    }

-- `fail`; `shown` is `str(exc)`, and `between` and `during` are as in `finish`.
unfoldable pub fail :
    RunMonitor
    → Raised
    → String
    → String
    → ℕ
    → ℕ
    → (RunFiles → RunFiles)
    → (RunFiles → RunFiles)
    → RunFiles
    → RunFiles
unfolding failed_record
fail m raised stage shown now later between during files =
    let r = failed_record raised stage shown now (read_record m now files) in
    let event_type = if is_run_cancelled raised then "run_cancelled" else "run_failed" in
    write_record r (
      during (
        append_event m r event_type r.message end
          (field "error" (object (public_error_info (error_info raised))) end) later
          (between files)))

unfoldable pub cancelling_record : ℕ → RunRecord → RunRecord
cancelling_record now r = record r {
  cancel_requested = true;
  status = cancelling;
  message = "Cancellation requested.";
  updated_at = some now;
}

-- `RunMonitor.request_cancel`: nothing to do for a run that ended or is being cancelled.
unfoldable pub is_beyond_cancel : RunRecord → Bool
is_beyond_cancel r = is_terminal r.status || (r.cancel_requested && is_cancelling r.status)

-- `before` is what other monitors do between its read and its write, `between` after the write.
unfoldable pub request_cancel_over :
    RunMonitor → ℕ → ℕ → ℕ → (RunFiles → RunFiles) → (RunFiles → RunFiles) → RunFiles → RunFiles
unfolding cancelling_record is_beyond_cancel
request_cancel_over m checked now later before between files =
    let r = read_record m checked files in
    if is_beyond_cancel r
    then files
    else append_event m (cancelling_record now r) "cancel_requested" "Cancellation requested." end
        end later (between (write_record (cancelling_record now r) (before files)))

-- One in which no other monitor writes between the read and the write.
unfoldable pub request_cancel : RunMonitor → ℕ → ℕ → ℕ → (RunFiles → RunFiles) → RunFiles → RunFiles
unfolding request_cancel_over
request_cancel m checked now later = request_cancel_over m checked now later (λ files. files)

-- `raise_if_cancelled`: the probe decides when there is one, the record otherwise.
unfoldable pub raises_cancelled : Option Bool → RunMonitor → ℕ → RunFiles → Bool
raises_cancelled (some probed) m now files = probed
raises_cancelled none m now files =
    let r = read_record m now files in r.cancel_requested || is_cancelling r.status

abbrev pub stale_cancelling_seconds : ℕ
stale_cancelling_seconds = 30

abbrev pub stale_active_seconds : ℕ
stale_active_seconds = 600

unfoldable pub orphaned_record :
    RunStatus → String → String → Fields → Bool → ℕ → RunRecord → RunRecord
unfolding format_error
orphaned_record status stage message info has_info now r = record r {
  status = status;
  stage = stage;
  message = message;
  updated_at = some now;
  finished_at = some (some now);
  elapsed_seconds = elapsed r.started_at now;
  error_info = if has_info then info else r.error_info;
  error = if has_info then some (format_error info) else r.error;
}

-- `_finish_orphaned_record`: the record is written first, then the event.
unfoldable pub finish_orphaned :
    RunMonitor
    → RunStatus
    → String
    → String
    → String
    → Fields
    → Bool
    → ℕ
    → ℕ
    → RunRecord
    → RunFiles
    → RunRecord × RunFiles
unfolding orphaned_record
finish_orphaned m status stage message event_type info has_info now later r files =
    let r' = orphaned_record status stage message info has_info now r in
    (
      r',
      append_event m r' event_type message end
          (field "reconciled" (boolean true) (field "error" (object info) end)) later
          (write_record r' files),
    )

abbrev pub stale_info : Fields
stale_info = field "code" (text "KA-RUNTIME-001") (
    field "category" (text "internal_error") (
      field "message"
        (text
          "Run heartbeat is stale; the local worker likely stopped before writing a terminal state.")
        (field "retryable" (boolean true) (
          field "hint"
            (text "Refresh the run list. If the operation did not finish, start a new run.")
            (field "error_type" (text "StaleRunRecord") end)))))

-- `_reconcile_stale_record`, with the monitor that it makes from the record itself.
abbrev pub monitor_of : RunRecord → RunMonitor
monitor_of r = record { run_id = r.run_id; flow = r.flow; metadata = r.metadata }

abbrev pub asks_cancel : RunRecord → Bool
asks_cancel r = r.cancel_requested || is_cancelling r.status

unfoldable pub reconcile : ℕ → ℕ → ℕ → RunRecord → RunFiles → RunRecord × RunFiles
unfolding finish_orphaned
reconcile checked now later r files =
    if is_terminal r.status
    then (r, files)
    else if asks_cancel r
    then (if is_recent r.last_heartbeat_at checked stale_cancelling_seconds
        then (r, files)
        else finish_orphaned (monitor_of r) cancelled "cancelled"
            "Cancellation finalized after stale heartbeat." "run_cancelled" end false now later r
            files)
    else if is_recent r.last_heartbeat_at checked stale_active_seconds
    then (r, files)
    else finish_orphaned (monitor_of r) failed "orphaned"
        "Run marked failed because its heartbeat is stale and no local worker owns it." "run_failed"
        stale_info true now later r files
