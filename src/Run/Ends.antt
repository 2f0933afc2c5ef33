-- ===== src/Run/Ends.antt =====
-- runtime/run_monitor.py and runtime/queue.py: what a run is once it has ended.
use knoarbor.Prelude.{
  ℕ, String, ◌≡◌, refl, Bool, true, false, ◌&&◌, Option, some, arith, if◌then◌else◌, Bool-cases,
  inl, inr,
}
use knoarbor.Json.{Fields}
use knoarbor.Errors.{Raised, run_cancelled}
use knoarbor.Run.State.{
  RunStatus, is_terminal, RunRecord, RunFiles, completed, cancelled, partially_failed, Flow,
}
use knoarbor.Run.Monitor.{RunMonitor, read_record, write_record, finish, complete, partially_fail}
use knoarbor.Run.Endings.{fail, failed_record, failed_status, raises_cancelled}
use knoarbor.Run.Policy.{completion_status}
use knoarbor.Run.Queue.{
  execute_task, close_run, begin_run, Outcome, raised, returned, Clock, cancelled_text, is_partial,
}

-- A run that has ended, and when.
abbrev pub HasEnded : RunStatus → ℕ → RunFiles → Type 0
HasEnded status now f =
    (r : RunRecord) × (f.record_file ≡ some r)
    × (r.status ≡ status)
    × (r.finished_at ≡ some (some now))

-- `finish` has the last word: what other processes wrote between its steps, a request to cancel
-- included, does not change the record that it leaves.
pub finish-HasEnded :
    (m : RunMonitor) (status : RunStatus) (stage event_type message : String)
    (summary metrics : Fields) (now later : ℕ) (between during : RunFiles → RunFiles) (f : RunFiles)
    → HasEnded status now
        (finish m status stage event_type message summary metrics now later between during f)
unfolding finish write_record
finish-HasEnded m status stage event_type message summary metrics now later between during f =
    (_, refl, refl, refl)

pub fail-HasEnded :
    (m : RunMonitor) (x : Raised) (stage shown : String) (now later : ℕ)
    (between during : RunFiles → RunFiles) (f : RunFiles)
    → HasEnded (failed_status x) now (fail m x stage shown now later between during f)
unfolding fail failed_record write_record
fail-HasEnded m x stage shown now later between during f = (_, refl, refl, refl)

-- The status that a run ends with, by how its target ends.
abbrev pub end_status : Flow → Outcome → RunStatus
end_status flow (raised x shown) = failed_status x
end_status flow (returned dump summary metrics) = completion_status flow dump

partial-status :
    (flow : Flow) (dump : Fields)
    → is_partial (completion_status flow dump) ≡ true
    → completion_status flow dump ≡ partially_failed
unfolding completion_status
partial-status flow dump h = ground arith

whole-status :
    (flow : Flow) (dump : Fields)
    → is_partial (completion_status flow dump) ≡ false
    → completion_status flow dump ≡ completed
unfolding completion_status
whole-status flow dump h = ground arith

close_run-HasEnded :
    (m : RunMonitor) (outcome : Outcome) (now later : ℕ) (between during : RunFiles → RunFiles)
    (f : RunFiles)
    → HasEnded (end_status m.flow outcome) now (close_run m outcome now later between during f)
unfolding close_run complete partially_fail
close_run-HasEnded m (raised x shown) now later between during f =
    fail-HasEnded m x "failed" shown now later between during f
close_run-HasEnded m (returned dump summary metrics) now later between during f =
    elim (Bool-cases (is_partial (completion_status m.flow dump))) [
      | inl partial ↦
          rw (partial, partial-status m.flow dump partial)
            (finish-HasEnded m partially_failed _ _ _ summary metrics now later between during f)
      | inr whole ↦
          rw (whole, whole-status m.flow dump whole)
            (finish-HasEnded m completed _ _ _ summary metrics now later between during f)
    ]

end_status-terminal :
    (flow : Flow) (outcome : Outcome) → is_terminal (end_status flow outcome) ≡ true
unfolding completion_status
end_status-terminal flow outcome = ground arith

-- The worker stops a run before it starts when its record was asked to and the probe agrees.
abbrev pub is_stopped : RunMonitor → Option Bool → Clock → RunFiles → Bool
is_stopped m probe c f =
    (read_record m c.checked f).cancel_requested && raises_cancelled probe m c.checked f

-- However the target of a queued task ends, and whatever it and others did to the files of the run,
-- the run ends: as cancelled when it was stopped before it began, and otherwise as the target ended, with
-- failed or cancelled for an exception and completed or partially failed for a result. It always
-- has one of the terminal statuses and the time of its end.
pub execute_task-HasEnded :
    (m : RunMonitor) (probe : Option Bool) (target : RunFiles → Outcome × RunFiles) (c : Clock)
    (now later : ℕ) (between during : RunFiles → RunFiles) (f : RunFiles)
    → (status : RunStatus) × HasEnded status now
        (execute_task m probe target c now later between during f)
      × (is_terminal status ≡ true)
      × (status ≡ (
          if is_stopped m probe c f
          then cancelled
          else end_status m.flow (target (begin_run m c f)).0))
unfolding execute_task
execute_task-HasEnded m probe target c now later between during f =
    elim (Bool-cases (is_stopped m probe c f)) [
      | inl stopped ↦ (
        cancelled,
        rw stopped (
            close_run-HasEnded m (raised (run_cancelled (cancelled_text m)) (cancelled_text m)) now
              later between during f),
        refl,
        rw stopped refl,
      )
      | inr going ↦
          let outcome = (target (begin_run m c f)).0 in
          (
            end_status m.flow outcome,
            rw going (
                close_run-HasEnded m outcome now later between during (target (begin_run m c f)).1),
            end_status-terminal m.flow outcome,
            rw going refl,
          )
    ]
