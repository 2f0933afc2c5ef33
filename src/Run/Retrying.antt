-- ===== src/Run/Retrying.antt =====
-- runtime/recovery.py with core/errors.py: which ended runs are offered for recovery.
use knoarbor.Prelude.{◌≡◌, Bool, true, false, Option, none, some, arith}
use knoarbor.Json.{get}
use knoarbor.Errors.{ErrorCategory}
use knoarbor.Errors.Taxonomy.{is_transient}
use knoarbor.Run.State.{is_terminal, RunRecord}
use knoarbor.Run.Policy.{assess_run_recovery, is_ingest}
use knoarbor.Json.{is_truthy}
use knoarbor.Ingest.Recovery.{Assessment}

-- A run is offered for recovery only if it is an ingest run that has ended and is not a recovery.
pub assess_run_recovery-available :
    (r : RunRecord) (store : Option Assessment)
    → (assess_run_recovery r store).available ≡ true
    → (is_ingest r.flow ≡ true)
      × (is_terminal r.status ≡ true)
      × (is_truthy (get "recovery_of_run_id" r.metadata) ≡ false)
unfolding assess_run_recovery
assess_run_recovery-available r store h = ground arith

-- The run could be offered by the kind of its failure alone, or by what the store says of its task.
abbrev pub is_offered : Option Assessment → ErrorCategory → Bool
is_offered none category = is_transient category
is_offered (some a) category = a.available
