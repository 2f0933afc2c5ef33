-- ===== src/Run/Log.antt =====
-- runtime/run_monitor.py: the numbers of the events in a log, and the reader that asks for what
-- came after a number.
use knoarbor.Prelude.{ℕ, zero, suc, ◌+◌, ◌≤◌, String, ◌≡◌, refl, List, [], ◌∷◌, ◌++◌, arith, length}
use knoarbor.Run.State.{RunEvent, RunFiles, RunRecord}
use knoarbor.Run.Monitor.{RunMonitor, last_event_sequence, append_event}
use knoarbor.Run.Listing.{events_after, read_run_events}
use knoarbor.Json.{Fields}

-- The events after number `from` are numbered on from it, without a gap.
abbrev pub IsNumbered : ℕ → List RunEvent → Type 0
IsNumbered from [] = Unit {0}
IsNumbered from (e ∷ es) = (e.sequence ≡ suc from) × IsNumbered (suc from) es

-- The largest number of a numbered log.
top : ℕ → List RunEvent → ℕ
top from [] = 0
top from (e ∷ es) = from + suc (length es)

last_event_sequence-top :
    (from : ℕ) (es : List RunEvent) → IsNumbered from es → last_event_sequence es ≡ top from es
unfolding last_event_sequence top
last_event_sequence-top from [] h = refl
last_event_sequence-top from (e ∷ []) h = ground (arith, h.0)
last_event_sequence-top from (e ∷ f ∷ es) h =
    ground (arith, h.0, last_event_sequence-top (suc from) (f ∷ es) h.1)

pub last_event_sequence-length :
    (es : List RunEvent) → IsNumbered 0 es → last_event_sequence es ≡ length es
unfolding top
last_event_sequence-length [] h = last_event_sequence-top 0 [] h
last_event_sequence-length (e ∷ es) h = omega (arith, last_event_sequence-top 0 (e ∷ es) h)

IsNumbered-snoc :
    (from : ℕ) (es : List RunEvent) (e : RunEvent)
    → IsNumbered from es
    → e.sequence ≡ suc (from + length es)
    → IsNumbered from (es ++ e ∷ [])
IsNumbered-snoc from [] e h k = (omega (arith, k), tt)
IsNumbered-snoc from (f ∷ es) e h k = (h.0, IsNumbered-snoc (suc from) es e h.1 (omega (arith, k)))

-- An event added to a numbered log takes the next number.
pub append_event-IsNumbered :
    (m : RunMonitor) (r : RunRecord) (event_type message : String) (metrics payload : Fields)
    (now : ℕ) (files : RunFiles)
    → IsNumbered 0 files.events
    → IsNumbered 0 (append_event m r event_type message metrics payload now files).events
unfolding append_event
append_event-IsNumbered m r event_type message metrics payload now files h =
    IsNumbered-snoc 0 files.events _ h (omega (arith, last_event_sequence-length files.events h))

-- `events[n:]` and `events[:n]`.
unfoldable pub drop : ℕ → List RunEvent → List RunEvent
drop zero es = es
drop (suc n) [] = []
drop (suc n) (e ∷ es) = drop n es

unfoldable pub take : ℕ → List RunEvent → List RunEvent
take zero es = []
take (suc n) [] = []
take (suc n) (e ∷ es) = e ∷ take n es

-- Past the number asked for, the reader takes what is left of its limit.
events_after-take :
    (after from room n limit : ℕ) (es : List RunEvent)
    → IsNumbered from es
    → after ≤ from
    → limit ≡ n + suc room
    → events_after after limit n es ≡ take (suc room) es
unfolding events_after take
events_after-take after from room n limit [] h past room_is = refl
events_after-take after from zero n limit (e ∷ es) h past room_is =
    ground (arith, h.0, past, room_is)
events_after-take after from (suc room) n limit (e ∷ es) h past room_is = ground (
  arith,
  h.0,
  past,
  room_is,
  events_after-take after (suc from) room (suc n) limit es h.1 (omega (arith, past))
      (omega (arith, room_is)),
)

events_after-drop :
    (after behind from limit : ℕ) (es : List RunEvent)
    → IsNumbered from es
    → after ≡ from + behind
    → events_after after (suc limit) 0 es ≡ take (suc limit) (drop behind es)
unfolding events_after drop
events_after-drop after zero from limit es h after_is =
    events_after-take after from limit 0 (suc limit) es h (omega (arith, after_is)) (omega arith)
events_after-drop after (suc behind) from limit [] h after_is = unfold take in refl
events_after-drop after (suc behind) from limit (e ∷ es) h after_is = ground (
  arith,
  h.0,
  after_is,
  events_after-drop after behind (suc from) limit es h.1 (omega (arith, after_is)),
)

-- On a numbered log the reader returns the events that follow the first `after`, up to its limit.
pub read_run_events-take :
    (after limit : ℕ) (files : RunFiles)
    → IsNumbered 0 files.events
    → read_run_events after (suc limit) files ≡ take (suc limit) (drop after files.events)
unfolding read_run_events
read_run_events-take after limit files h =
    events_after-drop after after 0 limit files.events h (omega arith)
