-- ===== src/Run/Cancelling.antt =====
-- runtime/run_monitor.py: a request to cancel, as the worker of the run sees it.
use knoarbor.Prelude.{
  ℕ, String, ◌≡◌, refl, sym, ap, ◌∙◌, true, false, none, some, arith, Bool-cases, Option-cases, inl,
  inr, ◌⊎◌,
}
use knoarbor.Json.{Fields}
use knoarbor.Run.State.{running, cancelling, is_terminal, RunRecord, RunFiles}
use knoarbor.Run.Monitor.{
  RunMonitor, Update, read_record, write_record, append_event, heartbeat_over, refreshed,
}
use knoarbor.Run.Endings.{
  request_cancel, request_cancel_over, cancelling_record, is_beyond_cancel, raises_cancelled,
}

-- A run that was asked to stop and has not ended.
abbrev pub IsStopping : RunFiles → Type 0
IsStopping f =
    (r : RunRecord) × (f.record_file ≡ some r)
    × (r.cancel_requested ≡ true)
    × (r.status ≡ cancelling)

-- What monitors do to the files of a run until one ends the run: reports that overlap each other, the
-- events of a report, and further requests to cancel.
pub data Work : RunFiles → RunFiles → Type 0 where
  idles : (f : RunFiles) → Work f f
  beats :
      (m : RunMonitor) (u : Update) (now : ℕ) (f g h : RunFiles)
      → Work f g
      → Work g h
      → Work f (heartbeat_over m u now (λ _. h) g).1
  logs :
      (m : RunMonitor) (r : RunRecord) (event_type message : String) (metrics payload : Fields)
      (now : ℕ) (f g : RunFiles)
      → Work f g
      → Work f (append_event m r event_type message metrics payload now g)
  asks :
      (m : RunMonitor) (checked now later : ℕ) (before between : RunFiles → RunFiles)
      (f g : RunFiles)
      → Work f g
      → Work f (request_cancel_over m checked now later before between g)

read_record-file :
    (m : RunMonitor) (now : ℕ) (f : RunFiles) (r : RunRecord)
    → f.record_file ≡ some r
    → read_record m now f ≡ r
unfolding read_record
read_record-file m now f r e = rw e refl

refreshed-stopping :
    (u : Update) (now : ℕ) (r : RunRecord)
    → r.cancel_requested ≡ true
    → r.status ≡ cancelling
    → ((refreshed u now r).cancel_requested ≡ true) × ((refreshed u now r).status ≡ cancelling)
unfolding refreshed
refreshed-stopping u now r asked status = (asked, rw (asked, status) refl)

-- The record that is written is the one that was read.
heartbeat_over-IsStopping :
    (m : RunMonitor) (u : Update) (now : ℕ) (f h : RunFiles)
    → IsStopping f
    → IsStopping (heartbeat_over m u now (λ _. h) f).1
unfolding heartbeat_over write_record
heartbeat_over-IsStopping m u now f h (r, e, asked, status) = (
  refreshed u now r,
  ap (λ x. some (refreshed u now x)) (read_record-file m now f r e),
  (refreshed-stopping u now r asked status).0,
  (refreshed-stopping u now r asked status).1,
)

stopping-beyond :
    (r : RunRecord) → r.cancel_requested ≡ true → r.status ≡ cancelling → is_beyond_cancel r ≡ true
unfolding is_beyond_cancel
stopping-beyond r asked status = rw (asked, status) refl

-- A second request to cancel writes nothing.
request_cancel_over-stopping :
    (m : RunMonitor) (checked now later : ℕ) (before between : RunFiles → RunFiles) (f : RunFiles)
    → IsStopping f
    → request_cancel_over m checked now later before between f ≡ f
unfolding request_cancel_over
request_cancel_over-stopping m checked now later before between f (r, e, asked, status) =
    let beyond : is_beyond_cancel (read_record m checked f) ≡ true =
      rw (read_record-file m checked f r e) (stopping-beyond r asked status) in
    rw beyond refl

Work-IsStopping : (f g : RunFiles) → Work f g → IsStopping f → IsStopping g
unfolding append_event
Work-IsStopping f _ (idles _) v = v
Work-IsStopping f _ (beats m u now _ g h w overlap) v =
    heartbeat_over-IsStopping m u now g h (Work-IsStopping f g w v)
Work-IsStopping f _ (logs m r event_type message metrics payload now _ g w) v =
    Work-IsStopping f g w v
Work-IsStopping f _ (asks m checked now later before between _ g w) v =
    rw (request_cancel_over-stopping m checked now later before between g (Work-IsStopping f g w v))
      (Work-IsStopping f g w v)

beyond-stopping :
    (r : RunRecord)
    → is_terminal r.status ≡ false
    → is_beyond_cancel r ≡ true
    → (r.cancel_requested ≡ true) × (r.status ≡ cancelling)
unfolding is_beyond_cancel
beyond-stopping r h k = (ground (arith, h, k), ground (arith, h, k))

-- What a request finds in the files, when it found that nothing was left to ask.
abbrev Found : RunMonitor → ℕ → RunFiles → Type 0
Found m checked f = f.record_file ≡ some (read_record m checked f)

read_or_fresh :
    (m : RunMonitor) (checked : ℕ) (f : RunFiles)
    → Found m checked f ⊎ ((read_record m checked f).cancel_requested ≡ false)
unfolding read_record
read_or_fresh m checked f = elim (Option-cases f.record_file) [
  | inl none_yet ↦ inr (rw none_yet refl)
  | inr (r, e) ↦ inl (e ∙ ap some (sym (read_record-file m checked f r e)))
]

-- The files once the request has written its record.
abbrev pub asked : RunMonitor → ℕ → ℕ → RunFiles → RunFiles → RunFiles
asked m checked now f h = write_record (cancelling_record now (read_record m checked f)) h

asked-IsStopping :
    (m : RunMonitor) (checked now : ℕ) (f h : RunFiles) → IsStopping (asked m checked now f h)
unfolding write_record cancelling_record
asked-IsStopping m checked now f h =
    (cancelling_record now (read_record m checked f), refl, refl, refl)

request_cancel_over-IsStopping :
    (m : RunMonitor) (checked now later : ℕ) (f h k : RunFiles)
    → is_terminal (read_record m checked f).status ≡ false
    → IsStopping k
    → IsStopping (request_cancel_over m checked now later (λ _. h) (λ _. k) f)
unfolding request_cancel_over append_event
request_cancel_over-IsStopping m checked now later f h k open_run v =
    elim (Bool-cases (is_beyond_cancel (read_record m checked f))) [
      | inr free ↦ rw free v
      | inl beyond ↦
          let (asked, status) = beyond-stopping (read_record m checked f) open_run beyond in
          elim (read_or_fresh m checked f) [
            | inl found ↦ rw beyond (read_record m checked f, found, asked, status)
            | inr fresh ↦ cc
          ]
    ]

pub request_cancel-IsStopping :
    (m : RunMonitor) (checked now later : ℕ) (f : RunFiles)
    → is_terminal (read_record m checked f).status ≡ false
    → IsStopping (request_cancel m checked now later (λ between. between) f)
unfolding request_cancel request_cancel_over
request_cancel-IsStopping m checked now later f h =
    request_cancel_over-IsStopping m checked now later f f (asked m checked now f f) h
      (asked-IsStopping m checked now f f)

pub stopping-raises :
    (n : RunMonitor) (clock : ℕ) (g : RunFiles)
    → IsStopping g
    → raises_cancelled none n clock g ≡ true
unfolding raises_cancelled
stopping-raises n clock g (r, e, asked, status) = rw (read_record-file n clock g r e, asked) refl

-- A report that read the record before the request and writes it after it undoes the request.
heartbeat_over-forgets :
    (m n : RunMonitor) (u : Update) (now clock : ℕ) (f h : RunFiles) (r : RunRecord)
    → f.record_file ≡ some r
    → r.cancel_requested ≡ false
    → u.status ≡ some running
    → raises_cancelled none n clock (heartbeat_over m u now (λ _. h) f).1 ≡ false
unfolding heartbeat_over write_record raises_cancelled read_record refreshed
heartbeat_over-forgets m n u now clock f h r e going status = rw (e, going, status) refl

-- Once a run that has not ended is asked to stop, and the request has written its record, it stays so
-- whatever monitors report that read the record after that, however their reports overlap, and however often
-- it is asked again; also while others write between the steps of the request. A worker with no probe of its
-- own is told to stop, and another request writes nothing.
pub request_cancel-holds :
    (m : RunMonitor) (checked now later : ℕ) (f h k g : RunFiles)
    → is_terminal (read_record m checked f).status ≡ false
    → Work (asked m checked now f h) k
    → Work (request_cancel_over m checked now later (λ _. h) (λ _. k) f) g
    → IsStopping g
      × ((n : RunMonitor) (clock : ℕ) → raises_cancelled none n clock g ≡ true)
      × ((n : RunMonitor) (t₁ t₂ t₃ : ℕ) (before between : RunFiles → RunFiles)
          → request_cancel_over n t₁ t₂ t₃ before between g ≡ g)
request_cancel-holds m checked now later f h k g open_run during w =
    let held =
      Work-IsStopping (asked m checked now f h) k during (asked-IsStopping m checked now f h) in
    let v =
      Work-IsStopping _ g w
        (request_cancel_over-IsStopping m checked now later f h k open_run held) in
    (
      v,
      λ n clock. stopping-raises n clock g v,
      λ n t₁ t₂ t₃ before between. request_cancel_over-stopping n t₁ t₂ t₃ before between g v,
    )
