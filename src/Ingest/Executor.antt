-- ===== src/Ingest/Executor.antt =====
-- runtime/ingest_executor.py: how an attempt that raised is ended in the store. `ProviderRateLimited`
-- is told apart from the other exceptions, and `RunCancelled` from the rest.
use knoarbor.Prelude.{
  ℕ, String, ◌≡◌, refl, sym, ap, ◌∙◌, Bool, true, false, ◌||◌, Option, some, arith, str_eq, eq_refl,
  eq_iff, if◌then◌else◌, Bool-cases, inl, inr, Result, ok, err, storage_conflict,
}
use Prim.Native.String.{◌++◌ as str_append}
use knoarbor.Json.{Json, object, end, field, text, boolean, Fields, get, fields, is_true, any_in}
use knoarbor.Errors.{
  Raised, run_cancelled, describe_exception, code_text, category_text, error_hint, error_type,
}
use knoarbor.Errors.Taxonomy.{is_transient, describe_exception-IsClassified}
use knoarbor.Table.{lookup, update_where-hit}
use knoarbor.Ingest.State.{
  AttemptLease, Store, Task, Attempt, TaskState, is_running, failed, recovery_needed,
  paused_rate_limited, task_row, attempt_row,
}
use knoarbor.Ingest.Tasks.{close_attempt, holds_epoch}
use knoarbor.Ingest.Recovery.{
  Assessment, finish, settle_task, mark_finished, recovery_assessment, assess, assess_result,
  failure_retryable, sources_retryable, is_terminal, terminal_state,
}
use knoarbor.Ingest.Consistent.{TaskOk}
use knoarbor.Ingest.Invariant.{IsConsistent}

-- What the service or the admission raised.
pub data Failure : Type 0 where
  provider_rate_limited : String → Failure
  raised : Raised → String → Failure

-- `_failure_payload`; `shown` is `str(exc)`.
unfoldable pub failure_payload : Raised → String → Fields
failure_payload x shown =
    let d = describe_exception x in
    field "type" (text (error_type x)) (
      field "message" (text shown) (
        field "code" (text (code_text d.code)) (
          field "category" (text (category_text d.category)) (
            field "retryable" (boolean d.retryable)
              (field "hint" (text (error_hint d.code)) end)))))

abbrev pub is_cancelled_run : Raised → Bool
is_cancelled_run (run_cancelled message) = true
is_cancelled_run _ = false

-- The state that `_execute_claimed` ends the attempt with.
abbrev pub failure_state : Failure → TaskState
failure_state (provider_rate_limited shown) = paused_rate_limited
failure_state (raised x shown) = if is_cancelled_run x then recovery_needed else failed

-- `ProviderRateLimited` is a `RuntimeError`.
abbrev pub failure_exception : Failure → Raised × String
failure_exception (provider_rate_limited shown) = (Raised.other "ProviderRateLimited" shown, shown)
failure_exception (raised x shown) = (x, shown)

abbrev pub failure_result : Failure → Json
failure_result f =
    let (x, shown) = failure_exception f in
    object (field "failure" (object (failure_payload x shown)) end)

abbrev pub failure_text : Failure → String
failure_text f =
    let (x, shown) = failure_exception f in str_append (error_type x) (str_append ": " shown)

-- `_finish`: a conflict with a newer owner of the task is passed over.
unfoldable pub finish_failed : AttemptLease → Failure → ℕ → ℕ → Store → Result Store
finish_failed lease f checked now s =
    elim (finish lease (failure_state f) (some (failure_result f)) (some (failure_text f)) checked
      now s) [ ok (t, s') ↦ ok s' | err (storage_conflict message) ↦ ok s | err e ↦ err e ]

-- The failures that pass by themselves: a limit of the provider, an interruption, and those that the
-- taxonomy marks.
abbrev pub passes : Failure → Bool
passes (provider_rate_limited shown) = true
passes (raised x shown) = is_cancelled_run x || is_transient (describe_exception x).category

assess-failure :
    (f : Failure) (t : Task) (a : Attempt) (now : ℕ)
    → (assess
        (settle_task (failure_state f) now t)
        (close_attempt (failure_state f) (some (failure_result f)) (some (failure_text f)) now a)
        false).available
      ≡ passes f
unfolding assess failure_payload assess_result failure_retryable sources_retryable any_in get fields
    is_true
assess-failure (provider_rate_limited shown) t a now = refl
assess-failure (raised x shown) t a now =
    let passing : (describe_exception x).retryable ≡ is_transient (describe_exception x).category =
      (describe_exception-IsClassified x).0 in
    elim (Bool-cases (is_cancelled_run x)) [
      | inl stopped ↦ rw stopped refl
      | inr ended ↦ rw ended (elim (Bool-cases (describe_exception x).retryable) [
        | inl retry ↦ rw retry (sym retry ∙ passing)
        | inr never ↦ rw never (sym never ∙ passing)
      ])
    ]

holds-attempt :
    (lease : AttemptLease) (t : Task) (now : ℕ)
    → holds_epoch lease t now ≡ true
    → t.current_attempt_id ≡ lease.attempt_id
holds-attempt lease t now h = (eq_iff t.current_attempt_id lease.attempt_id).0 (ground (arith, h))

recovery_assessment-current :
    (task_id attempt_id : String) (clock : ℕ) (s : Store) (t : Task) (a : Attempt)
    → lookup task_id s.tasks ≡ some t
    → lookup attempt_id s.attempts ≡ some a
    → t.current_attempt_id ≡ attempt_id
    → is_running t.state ≡ false
    → recovery_assessment task_id attempt_id clock s ≡ ok (assess t a false)
unfolding recovery_assessment task_row attempt_row
recovery_assessment-current task_id attempt_id clock s t a task attempt current idle =
    rw (task, attempt, current, eq_refl attempt_id, idle) refl

failure-idle : (f : Failure) → is_running (failure_state f) ≡ false
failure-idle f = ground arith

finish-owned :
    (lease : AttemptLease) (state : TaskState) (result : Option Json) (error : Option String)
    (checked now : ℕ) (s : Store) (t : Task)
    → is_terminal state ≡ true
    → lookup lease.task_id s.tasks ≡ some t
    → t.cancel_requested ≡ false
    → holds_epoch lease t checked ≡ true
    → is_running t.state ≡ true
    → finish lease state result error checked now s
      ≡ ok (settle_task state now t, mark_finished lease state result error now s)
unfolding finish mark_finished task_row
finish-owned lease state result error checked now s t terminal found open_task holds active =
    let written =
      update_where-hit (λ k _. str_eq k lease.task_id) (settle_task (terminal_state t state) now)
        lease.task_id s.tasks found (eq_refl lease.task_id) in
    rw (terminal, found, holds, active, written, open_task) refl

pub failure-is_terminal : (f : Failure) → is_terminal (failure_state f) ≡ true
failure-is_terminal f = ground arith

-- An attempt that raised, of a running task that the worker still owns and that nobody asked to
-- cancel, in a well-formed store, is ended by a call that returns, and afterwards the store lets the
-- task be recovered exactly when the failure passes by itself: a limit of the provider, an
-- interruption, or an exception of a category that the taxonomy marks as passing.
pub finish_failed-recovery :
    (lease : AttemptLease) (f : Failure) (checked now clock : ℕ) (s : Store) (t : Task)
    → IsConsistent s
    → lookup lease.task_id s.tasks ≡ some t
    → t.cancel_requested ≡ false
    → holds_epoch lease t checked ≡ true
    → is_running t.state ≡ true
    → (s' : Store) × (finish_failed lease f checked now s ≡ ok s')
      × (v : Assessment) × (recovery_assessment lease.task_id lease.attempt_id clock s' ≡ ok v)
      × (v.available ≡ passes f)
unfolding finish_failed mark_finished
finish_failed-recovery lease f checked now clock s t v found open_task holds active =
    let result = some (failure_result f) in
    let error = some (failure_text f) in
    let current = holds-attempt lease t checked holds in
    let tie : TaskOk s.attempts lease.task_id t = v.tied lease.task_id t found in
    let a = tie.current in
    let row : lookup lease.attempt_id s.attempts ≡ some a =
      ap (λ k. lookup k s.attempts) (sym current) ∙ tie.found in
    let t' = settle_task (failure_state f) now t in
    let a' = close_attempt (failure_state f) result error now a in
    (
      mark_finished lease (failure_state f) result error now s,
      rw
          (
            finish_failed,
            finish-owned lease (failure_state f) result error checked now s t
                (failure-is_terminal f) found open_task holds active,
          )
          refl,
      assess t' a' false,
      recovery_assessment-current lease.task_id lease.attempt_id clock _ t' a'
          (update_where-hit _ _ lease.task_id s.tasks found (eq_refl lease.task_id))
          (update_where-hit _ _ lease.attempt_id s.attempts row (eq_refl lease.attempt_id)) current
          (failure-idle f),
      assess-failure f t a now,
    )
