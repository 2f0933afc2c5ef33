-- ===== src/Run/Trace.antt =====
-- runtime/run_monitor.py: histories of the files of a run, as a relation. The operations that write
-- in two steps let other monitors in between, each with a lock of its own: what these do is a history.
use knoarbor.Prelude.{ℕ, String, ◌≡◌, refl, true, false, some, if◌then◌else◌, Bool-cases, inl, inr}
use knoarbor.Json.{Fields, end, field, object}
use knoarbor.Errors.{Raised, error_info}
use knoarbor.Run.State.{RunStatus, running, queued, is_terminal, RunRecord, RunFiles}
use knoarbor.Run.Monitor.{
  fresh_record, RunMonitor, Update, or_else, read_record, write_record, append_event, heartbeat,
  heartbeat_over, event, nonempty, no_update, start, queue, finish, finished_record,
}
use knoarbor.Run.Endings.{
  fail, failed_record, request_cancel_over, cancelling_record, is_beyond_cancel, reconcile,
  is_run_cancelled, public_error_info,
}
use knoarbor.Run.Stale.{is_orphaned, reconcile-IsNumbered}
use knoarbor.Run.Log.{IsNumbered, append_event-IsNumbered}

-- A worker reports only statuses of a run that goes on.
abbrev pub IsReport : Update → Type 0
IsReport u = is_terminal (or_else u.status running) ≡ false

pub data Trace : RunFiles → RunFiles → Type 0 where
  stays : (f : RunFiles) → Trace f f
  starts :
      (m : RunMonitor) (message : String) (now beat later : ℕ) (f g : RunFiles)
      → Trace f g
      → Trace f (start m message now beat later g)
  queues :
      (m : RunMonitor) (message : String) (now beat later : ℕ) (f g : RunFiles)
      → Trace f g
      → Trace f (queue m message now beat later g)
  beats :
      (m : RunMonitor) (u : Update) (now : ℕ) (f g h : RunFiles)
      → IsReport u
      → Trace f g
      → Trace g h
      → Trace f (heartbeat_over m u now (λ _. h) g).1
  -- The parts of `start`, `queue` and `event`, for histories in which others write between them.
  records :
      (m : RunMonitor) (status : RunStatus) (stage message : String) (now : ℕ) (f g : RunFiles)
      → is_terminal status ≡ false
      → Trace f g
      → Trace f (write_record (fresh_record m status stage message now) g)
  logs :
      (m : RunMonitor) (r : RunRecord) (event_type message : String) (metrics payload : Fields)
      (now : ℕ) (f g : RunFiles)
      → Trace f g
      → Trace f (append_event m r event_type message metrics payload now g)
  reports :
      (m : RunMonitor) (event_type message : String) (u : Update) (payload : Fields) (now later : ℕ)
      (f g : RunFiles)
      → IsReport u
      → Trace f g
      → Trace f (event m event_type message u payload now later g)
  finishes :
      (m : RunMonitor) (status : RunStatus) (stage event_type message : String)
      (summary metrics : Fields) (now later : ℕ) (f g h k : RunFiles)
      → Trace f g
      → Trace g h
      → Trace
          (append_event m
            (finished_record status stage message summary metrics now (read_record m now g))
            event_type
            message
            end
            summary
            later
            h)
          k
      → Trace f
          (finish m status stage event_type message summary metrics now later (λ _. h) (λ _. k) g)
  fails :
      (m : RunMonitor) (raised : Raised) (stage shown : String) (now later : ℕ) (f g h k : RunFiles)
      → Trace f g
      → Trace g h
      → Trace
          (append_event m
            (failed_record raised stage shown now (read_record m now g))
            (if is_run_cancelled raised then "run_cancelled" else "run_failed")
            (failed_record raised stage shown now (read_record m now g)).message
            end
            (field "error" (object (public_error_info (error_info raised))) end)
            later
            h)
          k
      → Trace f (fail m raised stage shown now later (λ _. h) (λ _. k) g)
  cancels :
      (m : RunMonitor) (checked now later : ℕ) (f g h k : RunFiles)
      → Trace f g
      → Trace g h
      → Trace (write_record (cancelling_record now (read_record m checked g)) h) k
      → Trace f (request_cancel_over m checked now later (λ _. h) (λ _. k) g)
  reconciles :
      (checked now later : ℕ) (r : RunRecord) (f g : RunFiles)
      → Trace f g
      → Trace f (reconcile checked now later r g).1
  -- The first write of `reconcile`, for histories in which others write before its event.
  orphans :
      (checked now later : ℕ) (r : RunRecord) (f g : RunFiles)
      → is_orphaned checked r ≡ true
      → Trace f g
      → Trace f (write_record (reconcile checked now later r g).0 g)

heartbeat-events :
    (m : RunMonitor) (u : Update) (now : ℕ) (f : RunFiles)
    → (heartbeat m u now f).1.events ≡ f.events
unfolding heartbeat heartbeat_over write_record
heartbeat-events m u now f = refl

heartbeat_over-events :
    (m : RunMonitor) (u : Update) (now : ℕ) (f h : RunFiles)
    → (heartbeat_over m u now (λ _. h) f).1.events ≡ h.events
unfolding heartbeat_over write_record
heartbeat_over-events m u now f h = refl

event-IsNumbered :
    (m : RunMonitor) (event_type message : String) (u : Update) (payload : Fields) (now later : ℕ)
    (f : RunFiles)
    → IsNumbered 0 f.events
    → IsNumbered 0 (event m event_type message u payload now later f).events
unfolding event
event-IsNumbered m event_type message u payload now later f h =
    append_event-IsNumbered m _ event_type message u.metrics payload later _
      (rw (heartbeat-events m (record u { message = nonempty message }) now f) h)

-- Every history of the files of a run keeps its events numbered from one without a gap, whatever
-- other processes write between the steps of an operation.
pub Trace-IsNumbered : (f g : RunFiles) → Trace f g → IsNumbered 0 f.events → IsNumbered 0 g.events
unfolding start queue finish fail request_cancel_over write_record
Trace-IsNumbered f _ (stays _) v = v
Trace-IsNumbered f _ (starts m message now beat later _ h t) v =
    event-IsNumbered m _ message
      (record no_update { status = some running; stage = some "started" }) end beat later _
      (Trace-IsNumbered f h t v)
Trace-IsNumbered f _ (queues m message now beat later _ h t) v =
    event-IsNumbered m _ message (record no_update { status = some queued; stage = some "queued" })
      end beat later _ (Trace-IsNumbered f h t v)
Trace-IsNumbered f _ (beats m u now _ g h _ t between) v =
    rw (heartbeat_over-events m u now g h) (Trace-IsNumbered g h between (Trace-IsNumbered f g t v))
Trace-IsNumbered f _ (records m status stage message now _ h _ t) v = Trace-IsNumbered f h t v
Trace-IsNumbered f _ (logs m r event_type message metrics payload now _ h t) v =
    append_event-IsNumbered m r event_type message metrics payload now h (Trace-IsNumbered f h t v)
Trace-IsNumbered f _ (reports m event_type message u payload now later _ h _ t) v =
    event-IsNumbered m event_type message u payload now later h (Trace-IsNumbered f h t v)
Trace-IsNumbered f _
      (finishes m status stage event_type message summary metrics now later _ h i k t between
        during)
      v =
    Trace-IsNumbered _ k during (
      append_event-IsNumbered m
        (finished_record status stage message summary metrics now (read_record m now h)) event_type
        message end summary later i (Trace-IsNumbered h i between (Trace-IsNumbered f h t v)))
Trace-IsNumbered f _ (fails m raised stage shown now later _ h i k t between during) v =
    Trace-IsNumbered _ k during (
      append_event-IsNumbered m (failed_record raised stage shown now (read_record m now h)) _ _ end
        _ later i (Trace-IsNumbered h i between (Trace-IsNumbered f h t v)))
Trace-IsNumbered f _ (cancels m checked now later _ g h k t before between) v =
    elim (Bool-cases (is_beyond_cancel (read_record m checked g))) [
      | inl beyond ↦ rw beyond (Trace-IsNumbered f g t v)
      | inr going ↦ rw going (
          append_event-IsNumbered m (cancelling_record now (read_record m checked g)) _ _ _ _ later
            k
            (Trace-IsNumbered _ k between (Trace-IsNumbered g h before (Trace-IsNumbered f g t v))))
    ]
Trace-IsNumbered f _ (reconciles checked now later r _ h t) v =
    reconcile-IsNumbered checked now later r h (Trace-IsNumbered f h t v)
Trace-IsNumbered f _ (orphans checked now later r _ h gone t) v = Trace-IsNumbered f h t v
