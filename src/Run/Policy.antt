-- ===== src/Run/Policy.antt =====
-- runtime/result_policy.py: the terminal status of a workflow that returned; and
-- runtime/recovery.py: whether a run that ended can be tried again.
use knoarbor.Prelude.{
  ℕ, ◌+◌, String, Bool, true, false, not, ◌||◌, Option, none, some, if◌then◌else◌, ltb, str_eq,
}
use knoarbor.Json.{
  Json, boolean, number, text, object, end, field, Fields, get, fields, is_true, any_in, set_field,
  is_truthy,
}
use knoarbor.Run.State.{
  Flow, ingest, lint, query, RunStatus, completed, failed, partially_failed, is_terminal, RunRecord,
}
use knoarbor.Ingest.Recovery.{Assessment}

-- `isinstance(value, int) and value > 0`; Python's `True` is the integer 1.
abbrev pub positive_int : Json → Bool
positive_int (number n) = ltb 0 n
positive_int (boolean b) = b
positive_int _ = false

-- `value == text`.
abbrev pub is_text : String → Json → Bool
is_text s (text t) = str_eq t s
is_text s _ = false

-- `_ingest_partially_failed`; without a dict of statistics every key is missing.
unfoldable pub ingest_partially_failed : Fields → Bool
ingest_partially_failed dump =
    let stats = fields (get "stats" dump) in
    is_text "partial" (get "status" dump)
    || positive_int (get "failed_count" stats)
    || positive_int (get "failed_segment_count" stats)
    || positive_int (get "document_processing_failed_count" stats)
    || positive_int (get "partial_count" stats)

-- `isinstance(item, dict) and item.get("status") in {"failed", "ineffective", "unresolved"}`.
abbrev pub is_incomplete : Json → Bool
is_incomplete item =
    let status = get "status" (fields item) in
    is_text "failed" status || is_text "ineffective" status || is_text "unresolved" status

unfoldable pub lint_partially_failed : Fields → Bool
lint_partially_failed dump = any_in is_incomplete (get "repair_results" dump)

-- `completion_status_for_result`; `data` is `_result_data(result)`.
unfoldable pub completion_status : Flow → Fields → RunStatus
unfolding ingest_partially_failed lint_partially_failed
completion_status ingest dump = if ingest_partially_failed dump then partially_failed else completed
completion_status lint dump = if lint_partially_failed dump then partially_failed else completed
completion_status query dump = completed

-- `_int`.
abbrev pub int_value : Json → ℕ
int_value (number n) = n
int_value (boolean b) = if b then 1 else 0
int_value _ = 0

abbrev pub is_nonempty : Fields → Bool
is_nonempty end = false
is_nonempty (field k v fs) = true

abbrev pub verdict : Bool → String → String → Assessment
verdict available reason_code reason = record {
  available = available;
  reason_code = reason_code;
  reason = reason;
}

abbrev pub is_ingest : Flow → Bool
is_ingest ingest = true
is_ingest _ = false

abbrev pub is_failed_run : RunStatus → Bool
is_failed_run failed = true
is_failed_run partially_failed = true
is_failed_run _ = false

-- The counts of the items that failed for good.
abbrev pub failed_items : Fields → ℕ
failed_items stats =
    int_value (get "failed_count" stats)
    + int_value (get "failed_segment_count" stats)
    + int_value (get "document_processing_failed_count" stats)

-- What the record alone says of a terminal ingest run.
unfoldable pub assess_record : RunRecord → Assessment
assess_record r =
    let stats = fields (get "stats" r.result_summary) in
    if ltb 0 (int_value (get "recovery_candidate_count" stats))
    then verdict true "retryable_source_failures" "The run contains retryable failed source items."
    else if is_true (get "retryable" r.error_info)
    then verdict true "retryable_run_error" "The run failed with a retryable runtime error."
    else if is_nonempty r.error_info
    then verdict false "non_retryable_run_error" "The run failed with a non-retryable error."
    else if ltb 0 (failed_items stats)
    then verdict false "no_recoverable_items" "The failed items are not marked retryable."
    else if is_failed_run r.status
    then verdict false "no_failed_items" "No failed source item is available for recovery."
    else verdict false "not_failed" "The run did not fail."

-- `assess_run_recovery`; `store` is what the store of the vault says of the attempt, if there is one.
unfoldable pub assess_run_recovery : RunRecord → Option Assessment → Assessment
unfolding assess_record
assess_run_recovery r store =
    if not (is_ingest r.flow)
    then verdict false "not_ingest" "Only ingest runs can be recovered."
    else if not (is_terminal r.status)
    then verdict false "not_terminal" "Only terminal runs can be recovered."
    else if is_truthy (get "recovery_of_run_id" r.metadata)
    then verdict false "already_recovery_run" "Recovery runs are not chained automatically."
    else elim store [ some assessment ↦ assessment | none ↦ assess_record r ]

-- `RunRecoveryAssessment.to_dict` and `with_recovery_assessment`.
abbrev pub to_dict : Assessment → Fields
to_dict a =
    field "available" (boolean a.available)
      (field "reason_code" (text a.reason_code) (field "reason" (text a.reason) end))

unfoldable pub with_recovery_assessment : RunRecord → Option Assessment → RunRecord
unfolding assess_run_recovery
with_recovery_assessment r store = record r {
  result_summary =
      set_field "recovery" (object (to_dict (assess_run_recovery r store))) r.result_summary;
}
