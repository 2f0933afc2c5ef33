-- ===== src/Run/Listing.antt =====
-- runtime/run_monitor.py: what reads the folder of runs: `read_run`, `read_run_events`, `list_runs`
-- and the `request_cancel` of the API.
use knoarbor.Prelude.{
  ℕ, suc, String, Bool, not, ◌&&◌, Option, none, some, List, [], ◌∷◌, if◌then◌else◌, ltb, leb,
  ◌>>=◌, Result, ok, err, run_not_found,
}
use Prim.Native.String.{◌++◌ as str_append}
use knoarbor.Run.State.{RunRecord, RunEvent, RunFiles, is_active}
use knoarbor.Run.Endings.{reconcile, request_cancel_over, monitor_of}

-- The files of a run with the readings of the clock that its reconciliation takes.
pub record Entry : Type 0 where
  pub files : RunFiles
  pub checked : ℕ
  pub now : ℕ
  pub later : ℕ

unfoldable pub reconciled : Entry → RunRecord → RunRecord × RunFiles
unfolding reconcile
reconciled e r = reconcile e.checked e.now e.later r e.files

unfoldable pub read_run : String → Entry → Result (RunRecord × RunFiles)
unfolding reconciled
read_run run_id e = elim e.files.record_file [
  | none ↦ err (run_not_found (str_append "Run does not exist: " run_id))
  | some r ↦ ok (reconciled e r)
]

-- `request_cancel(vault_path, run_id)`: the record is reconciled first.
unfoldable pub request_cancel_run :
    String → Entry → ℕ → ℕ → ℕ → (RunFiles → RunFiles) → (RunFiles → RunFiles) → Result RunFiles
unfolding read_run request_cancel_over
request_cancel_run run_id e checked now later before between = do
  (r, files) ← read_run run_id e
  ok (request_cancel_over (monitor_of r) checked now later before between files)

-- The loop of `read_run_events`, with `n` events taken so far; the limit is tested after each line.
unfoldable pub events_after : ℕ → ℕ → ℕ → List RunEvent → List RunEvent
events_after after limit n [] = []
events_after after limit n (e ∷ es) =
    let taken = events_after after limit (suc n) es in
    let passed = events_after after limit n es in
    if ltb after e.sequence
    then e ∷ (if leb limit (suc n) then [] else taken)
    else if leb limit n
    then []
    else passed

unfoldable pub read_run_events : ℕ → ℕ → RunFiles → List RunEvent
unfolding events_after
read_run_events after limit files = events_after after limit 0 files.events

-- The loop of `list_runs` over the entries in descending order of their names; a record that does
-- not validate is skipped. The entries after the limit is reached are not touched.
abbrev pub untouched : List Entry → List RunFiles
untouched [] = []
untouched (e ∷ es) = e.files ∷ untouched es

-- A record that validates is skipped when only active runs are asked for,
-- else taken, and the loop goes on only below the limit.
unfoldable pub add_seen :
    ℕ
    → Bool
    → ℕ
    → RunRecord × RunFiles
    → List RunRecord × List RunFiles
    → List RunRecord × List RunFiles
    → List RunFiles
    → List RunRecord × List RunFiles
add_seen limit active_only n (seen, files) skipped listed rest =
    if active_only && not (is_active seen.status)
    then (skipped.0, files ∷ skipped.1)
    else if leb limit (suc n)
    then (seen ∷ [], files ∷ rest)
    else (seen ∷ listed.0, files ∷ listed.1)

-- One round of the loop; there is no record where the file does not validate.
abbrev pub add_entry :
    ℕ
    → Bool
    → ℕ
    → Entry
    → Option RunRecord
    → List RunRecord × List RunFiles
    → List RunRecord × List RunFiles
    → List RunFiles
    → List RunRecord × List RunFiles
add_entry limit active_only n e none skipped listed rest = (skipped.0, e.files ∷ skipped.1)
add_entry limit active_only n e (some r) skipped listed rest =
    add_seen limit active_only n (reconciled e r) skipped listed rest

unfoldable pub list_from : ℕ → Bool → ℕ → List Entry → List RunRecord × List RunFiles
unfolding reconciled add_seen
list_from limit active_only n [] = ([], [])
list_from limit active_only n (e ∷ es) =
    let skipped = list_from limit active_only n es in
    let listed = list_from limit active_only (suc n) es in
    add_entry limit active_only n e e.files.record_file skipped listed (untouched es)

unfoldable pub list_runs : ℕ → Bool → List Entry → List RunRecord × List RunFiles
unfolding list_from
list_runs limit active_only es = list_from limit active_only 0 es
