-- ===== src/Run/Stale.antt =====
-- runtime/run_monitor.py: what `_reconcile_stale_record` makes of a record.
use knoarbor.Prelude.{
  ℕ, suc, String, ◌≡◌, refl, Bool, true, false, not, ◌&&◌, some, arith, if◌then◌else◌, Bool-cases,
  inl, inr, length, length-append,
}
use knoarbor.Json.{Fields, end}
use knoarbor.Run.State.{RunStatus, failed, cancelled, is_terminal, RunRecord, RunFiles, is_recent}
use knoarbor.Run.Monitor.{RunMonitor, append_event, write_record}
use knoarbor.Run.Endings.{
  reconcile, finish_orphaned, asks_cancel, stale_cancelling_seconds, stale_active_seconds,
  monitor_of, stale_info,
}
use knoarbor.Run.Log.{IsNumbered, append_event-IsNumbered}

-- The patience that a run is given: less once it was asked to stop.
abbrev pub patience : RunRecord → ℕ
patience r = if asks_cancel r then stale_cancelling_seconds else stale_active_seconds

abbrev pub is_orphaned : ℕ → RunRecord → Bool
is_orphaned checked r =
    not (is_terminal r.status) && not (is_recent r.last_heartbeat_at checked (patience r))

abbrev pub orphan_status : RunRecord → RunStatus
orphan_status r = if asks_cancel r then cancelled else failed

-- Reading a run that has ended, or whose heartbeat is recent enough, changes nothing.
pub reconcile-kept :
    (checked now later : ℕ) (r : RunRecord) (f : RunFiles)
    → is_orphaned checked r ≡ false
    → reconcile checked now later r f ≡ (r, f)
unfolding reconcile
reconcile-kept checked now later r f h = elim (Bool-cases (is_terminal r.status)) [
  | inl over ↦ rw over refl
  | inr on ↦ elim (Bool-cases (asks_cancel r)) [
    | inl asked ↦
        let recent : is_recent r.last_heartbeat_at checked 30 ≡ true =
          ground (arith, h, on, asked) in
        rw (on, asked, recent) refl
    | inr free ↦
        let recent : is_recent r.last_heartbeat_at checked 600 ≡ true =
          ground (arith, h, on, free) in
        rw (on, free, recent) refl
  ]
]

-- The record and the files of a run that is given up.
abbrev pub given_up : ℕ → ℕ → RunRecord → RunFiles → RunRecord × RunFiles
given_up now later r f =
    if asks_cancel r
    then finish_orphaned (monitor_of r) cancelled "cancelled"
        "Cancellation finalized after stale heartbeat." "run_cancelled" end false now later r f
    else finish_orphaned (monitor_of r) failed "orphaned"
        "Run marked failed because its heartbeat is stale and no local worker owns it." "run_failed"
        stale_info true now later r f

pub reconcile-orphaned :
    (checked now later : ℕ) (r : RunRecord) (f : RunFiles)
    → is_orphaned checked r ≡ true
    → reconcile checked now later r f ≡ given_up now later r f
unfolding reconcile
reconcile-orphaned checked now later r f h =
    let on : is_terminal r.status ≡ false = ground (arith, h) in
    elim (Bool-cases (asks_cancel r)) [
      | inl asked ↦
          let stale : is_recent r.last_heartbeat_at checked 30 ≡ false = ground (arith, h, asked) in
          rw (on, asked, stale) refl
      | inr free ↦
          let stale : is_recent r.last_heartbeat_at checked 600 ≡ false = ground (arith, h, free) in
          rw (on, free, stale) refl
    ]

-- What every end of an orphaned run has in common.
pub record GivenUp (now : ℕ) (r : RunRecord) (f : RunFiles) (out : RunRecord × RunFiles)
    : Type 0 where
  pub status : out.0.status ≡ (if asks_cancel r then cancelled else failed)
  pub finished : out.0.finished_at ≡ some (some now)
  pub written : out.1.record_file ≡ some out.0
  pub logged : length out.1.events ≡ suc (length f.events)

finish_orphaned-GivenUp :
    (m : RunMonitor) (status : RunStatus) (stage message event_type : String) (info : Fields)
    (has_info : Bool) (now later : ℕ) (r : RunRecord) (f : RunFiles)
    → status ≡ orphan_status r
    → GivenUp now r f
        (finish_orphaned m status stage message event_type info has_info now later r f)
unfolding finish_orphaned append_event write_record
finish_orphaned-GivenUp m status stage message event_type info has_info now later r f h = record {
  status = h;
  finished = refl;
  written = refl;
  logged = omega (arith, length-append f.events _);
}

given_up-GivenUp :
    (now later : ℕ) (r : RunRecord) (f : RunFiles) → GivenUp now r f (given_up now later r f)
given_up-GivenUp now later r f = elim (Bool-cases (asks_cancel r)) [
  | inl asked ↦ rw asked (finish_orphaned-GivenUp _ _ _ _ _ _ _ _ _ r f (ground (arith, asked)))
  | inr free ↦ rw free (finish_orphaned-GivenUp _ _ _ _ _ _ _ _ _ r f (ground (arith, free)))
]

-- A run that has not ended and whose heartbeat is too old, by the patience that its record is given,
-- is ended when it is read: as cancelled when it was asked to stop and as failed otherwise, with the
-- time of its end, in the file that is returned, with one event more in the log.
pub reconcile-GivenUp :
    (checked now later : ℕ) (r : RunRecord) (f : RunFiles)
    → is_orphaned checked r ≡ true
    → GivenUp now r f (reconcile checked now later r f)
reconcile-GivenUp checked now later r f h =
    rw (reconcile-orphaned checked now later r f h) (given_up-GivenUp now later r f)

pub reconcile-IsNumbered :
    (checked now later : ℕ) (r : RunRecord) (f : RunFiles)
    → IsNumbered 0 f.events
    → IsNumbered 0 (reconcile checked now later r f).1.events
unfolding finish_orphaned write_record
reconcile-IsNumbered checked now later r f h = elim (Bool-cases (is_orphaned checked r)) [
  | inr kept ↦ rw (reconcile-kept checked now later r f kept) h
  | inl gone ↦
      rw (reconcile-orphaned checked now later r f gone) (elim (Bool-cases (asks_cancel r)) [
        | inl asked ↦ rw asked (append_event-IsNumbered _ _ _ _ _ _ _ _ h)
        | inr free ↦ rw free (append_event-IsNumbered _ _ _ _ _ _ _ _ h)
      ])
]
