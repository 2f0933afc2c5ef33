-- ===== src/Run/Closing.antt =====
-- runtime/run_monitor.py: a record that says that its run has ended also says when.
use knoarbor.Prelude.{
  ℕ, String, ◌≡◌, refl, true, false, not, ◌||◌, Option, some, arith, is_some, Bool-cases,
  Option-cases, inl, inr,
}
use mathlib.Core.Path.{subst}
use knoarbor.Json.{Fields, end}
use knoarbor.Errors.{Raised}
use knoarbor.Run.State.{RunStatus, running, queued, is_terminal, RunRecord, RunFiles}
use knoarbor.Run.Monitor.{
  RunMonitor, Update, no_update, read_record, write_record, append_event, heartbeat, heartbeat_over,
  refreshed, event, nonempty, start, queue, finish, finished_record, fresh_record,
}
use knoarbor.Run.Endings.{
  fail, failed_record, request_cancel_over, cancelling_record, is_beyond_cancel, reconcile,
}
use knoarbor.Run.Trace.{
  records, logs, Trace, IsReport, stays, starts, queues, beats, reports, finishes, fails, cancels,
  reconciles, orphans,
}
use knoarbor.Run.Stale.{is_orphaned, reconcile-GivenUp, reconcile-kept, GivenUp}

abbrev pub IsDated : RunRecord → Type 0
IsDated r = (not (is_terminal r.status) || is_some r.finished_at) ≡ true

abbrev pub IsClosed : RunFiles → Type 0
IsClosed f = (r : RunRecord) → f.record_file ≡ some r → IsDated r

read_record-IsDated :
    (m : RunMonitor) (now : ℕ) (f : RunFiles) → IsClosed f → IsDated (read_record m now f)
unfolding read_record
read_record-IsDated m now f v = elim (Option-cases f.record_file) [
  | inl missing ↦ rw missing refl
  | inr (r, e) ↦ rw e (v r e)
]

refreshed-IsDated :
    (u : Update) (now : ℕ) (r : RunRecord) → IsReport u → IsDated r → IsDated (refreshed u now r)
unfolding refreshed
refreshed-IsDated u now r h v = ground (arith, h, v)

written-IsDated :
    (o : Option RunRecord) (r : RunRecord)
    → o ≡ some r
    → IsDated r
    → (q : RunRecord) → o ≡ some q
    → IsDated q
written-IsDated o r e v q k = let same : r ≡ q = cc in subst IsDated same v

finished-IsDated : (r : RunRecord) (now : ℕ) → r.finished_at ≡ some (some now) → IsDated r
finished-IsDated r now e = ground (arith, e)

heartbeat_over-IsClosed :
    (m : RunMonitor) (u : Update) (now : ℕ) (f h : RunFiles)
    → IsReport u
    → IsClosed f
    → IsClosed (heartbeat_over m u now (λ _. h) f).1
unfolding heartbeat_over write_record
heartbeat_over-IsClosed m u now f h going v =
    written-IsDated _ _ refl
      (refreshed-IsDated u now (read_record m now f) going (read_record-IsDated m now f v))

heartbeat-IsClosed :
    (m : RunMonitor) (u : Update) (now : ℕ) (f : RunFiles)
    → IsReport u
    → IsClosed f
    → IsClosed (heartbeat m u now f).1
unfolding heartbeat heartbeat_over
heartbeat-IsClosed m u now f = heartbeat_over-IsClosed m u now f f

event-IsClosed :
    (m : RunMonitor) (event_type message : String) (u : Update) (payload : Fields) (now later : ℕ)
    (f : RunFiles)
    → IsReport u
    → IsClosed f
    → IsClosed (event m event_type message u payload now later f)
unfolding event append_event
event-IsClosed m event_type message u payload now later f h v =
    heartbeat-IsClosed m (record u { message = nonempty message }) now f h v

fresh-IsClosed :
    (m : RunMonitor) (status : RunStatus) (stage message : String) (now : ℕ) (f : RunFiles)
    → is_terminal status ≡ false
    → IsClosed (write_record (fresh_record m status stage message now) f)
unfolding write_record
fresh-IsClosed m status stage message now f h =
    written-IsDated _ (fresh_record m status stage message now) refl (ground arith)

finish-IsClosed :
    (m : RunMonitor) (status : RunStatus) (stage event_type message : String)
    (summary metrics : Fields) (now later : ℕ) (h k g : RunFiles)
    → IsClosed
        (finish m status stage event_type message summary metrics now later (λ _. h) (λ _. k) g)
unfolding finish write_record
finish-IsClosed m status stage event_type message summary metrics now later h k g =
    written-IsDated _
      (finished_record status stage message summary metrics now (read_record m now g)) refl
      (finished-IsDated
        (finished_record status stage message summary metrics now (read_record m now g)) now refl)

fail-IsClosed :
    (m : RunMonitor) (raised : Raised) (stage shown : String) (now later : ℕ) (h k g : RunFiles)
    → IsClosed (fail m raised stage shown now later (λ _. h) (λ _. k) g)
unfolding fail write_record failed_record
fail-IsClosed m raised stage shown now later h k g =
    written-IsDated _ (failed_record raised stage shown now (read_record m now g)) refl
      (finished-IsDated (failed_record raised stage shown now (read_record m now g)) now refl)

cancelling-IsClosed :
    (now : ℕ) (r : RunRecord) (f : RunFiles) → IsClosed (write_record (cancelling_record now r) f)
unfolding cancelling_record write_record
cancelling-IsClosed now r f = written-IsDated _ (cancelling_record now r) refl (ground arith)

reconcile-IsClosed :
    (checked now later : ℕ) (r : RunRecord) (f : RunFiles)
    → IsClosed f
    → IsClosed (reconcile checked now later r f).1
reconcile-IsClosed checked now later r f v = elim (Bool-cases (is_orphaned checked r)) [
  | inr kept ↦ rw (reconcile-kept checked now later r f kept) v
  | inl gone ↦
      let end_is : GivenUp now r f (reconcile checked now later r f) =
        reconcile-GivenUp checked now later r f gone in
      written-IsDated _ (reconcile checked now later r f).0 end_is.written
        (finished-IsDated (reconcile checked now later r f).0 now end_is.finished)
]

orphan-IsClosed :
    (checked now later : ℕ) (r : RunRecord) (f : RunFiles)
    → is_orphaned checked r ≡ true
    → IsClosed (write_record (reconcile checked now later r f).0 f)
unfolding write_record
orphan-IsClosed checked now later r f gone =
    let end_is : GivenUp now r f (reconcile checked now later r f) =
      reconcile-GivenUp checked now later r f gone in
    written-IsDated _ (reconcile checked now later r f).0 refl
      (finished-IsDated (reconcile checked now later r f).0 now end_is.finished)

-- In every history of the files of a run, whatever other processes write between the steps of an
-- operation, a record that says that its run has ended also has the time of its end, as long as no
-- worker reports such a status while the run goes on.
pub Trace-IsClosed : (f g : RunFiles) → Trace f g → IsClosed f → IsClosed g
unfolding start queue request_cancel_over append_event
Trace-IsClosed f _ (stays _) v = v
Trace-IsClosed f _ (starts m message now beat later _ h t) v =
    event-IsClosed m "run_started" message
      (record no_update { status = some running; stage = some "started" }) end beat later
      (write_record (fresh_record m running "started" message now) h) refl
      (fresh-IsClosed m running "started" message now h refl)
Trace-IsClosed f _ (queues m message now beat later _ h t) v =
    event-IsClosed m "run_queued" message
      (record no_update { status = some queued; stage = some "queued" }) end beat later
      (write_record (fresh_record m queued "queued" message now) h) refl
      (fresh-IsClosed m queued "queued" message now h refl)
Trace-IsClosed f _ (beats m u now _ g h w t between) v =
    heartbeat_over-IsClosed m u now g h w (Trace-IsClosed f g t v)
Trace-IsClosed f _ (records m status stage message now _ h w t) v =
    fresh-IsClosed m status stage message now h w
Trace-IsClosed f _ (logs m r event_type message metrics payload now _ h t) v =
    Trace-IsClosed f h t v
Trace-IsClosed f _ (reports m event_type message u payload now later _ h w t) v =
    event-IsClosed m event_type message u payload now later h w (Trace-IsClosed f h t v)
Trace-IsClosed f _
      (finishes m status stage event_type message summary metrics now later _ g h k t between
        during)
      v =
    finish-IsClosed m status stage event_type message summary metrics now later h k g
Trace-IsClosed f _ (fails m raised stage shown now later _ g h k t between during) v =
    fail-IsClosed m raised stage shown now later h k g
Trace-IsClosed f _ (cancels m checked now later _ g h k t before between) v =
    elim (Bool-cases (is_beyond_cancel (read_record m checked g))) [
      | inl beyond ↦ rw beyond (Trace-IsClosed f g t v)
      | inr going ↦
          rw going
            (Trace-IsClosed _ k between (cancelling-IsClosed now (read_record m checked g) h))
    ]
Trace-IsClosed f _ (reconciles checked now later r _ h t) v =
    reconcile-IsClosed checked now later r h (Trace-IsClosed f h t v)
Trace-IsClosed f _ (orphans checked now later r _ g gone t) v =
    orphan-IsClosed checked now later r g gone
