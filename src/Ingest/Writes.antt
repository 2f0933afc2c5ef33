-- ===== src/Ingest/Writes.antt =====
-- runtime/transactional_ingest.py: the writes of the store to the rows of its tasks, as the laws of a
-- relation that each of them keeps.
use knoarbor.Prelude.{ℕ, ◌+◌, String, ◌≡◌, Bool, true, false, ◌&&◌, none, some, str_eq, ◌==◌, ok}
use knoarbor.Table.{Table, lookup, update, update_where, insert}
use knoarbor.Ingest.State.{AttemptLease, Task, TaskState, failed, recovery_needed, is_running}
use knoarbor.Ingest.Tasks.{claim_task, cancel_task, at_version, holds_epoch}
use knoarbor.Ingest.Recovery.{requeue_task, settle_task}
use knoarbor.Ingest.Purge.{forget_hash}
use knoarbor.Ingest.History.{Call, purges}

abbrev pub is_purge : Call → Bool
is_purge (purges source now) = true
is_purge _ = false

abbrev pub reaped : ℕ → Task → Task
reaped now t = record t {
  state = recovery_needed;
  version = t.version + 1;
  lease_owner = none;
  lease_expires_at = none;
  updated_at = now;
}

-- The relation holds of each write of the store to its tasks, but for those of a purge.
pub record IsKept (R : Table Task → Table Task → Type 0) : Type 0 where
  pub same : (ts ts' : Table Task) → ts' ≡ ts → R ts ts'
  pub trans : (a b c : Table Task) → R a b → R b c → R a c
  pub inserted : (k : String) (t : Task) (ts ts' : Table Task) → insert k t ts ≡ ok ts' → R ts ts'
  pub claimed :
      (id owner : String) (t : Task) (expires now : ℕ) (ts : Table Task)
      → lookup id ts ≡ some t
      → R ts (
          update_where
            (at_version id t.version)
            (claim_task owner (t.lease_epoch + 1) expires now)
            ts)
  pub renewal :
      (lease : AttemptLease) (t : Task) (checked expires now : ℕ) (ts : Table Task)
      → lookup lease.task_id ts ≡ some t
      → holds_epoch lease t checked ≡ true
      → t.cancel_requested ≡ false
      → R ts (
          update lease.task_id
            (λ u. record u { lease_expires_at = some expires; updated_at = now })
            ts)
  pub cancels :
      (id : String) (state : TaskState) (now : ℕ) (ts : Table Task)
      → R ts (update id (cancel_task state now) ts)
  pub fails :
      (id : String) (now : ℕ) (ts : Table Task)
      → R ts (
          update id
            (λ t. record t { state = failed; version = t.version + 1; updated_at = now })
            ts)
  pub requeued :
      (id attempt : String) (now : ℕ) (ts : Table Task)
      → R ts (update id (requeue_task attempt now) ts)
  pub settled :
      (id : String) (state : TaskState) (now : ℕ) (ts : Table Task)
      → R ts (update id (settle_task state now) ts)
  pub reaps :
      (id : String) (version now : ℕ) (ts : Table Task)
      → R ts (
          update_where
            (λ k t. str_eq k id && is_running t.state && t.version == version)
            (reaped now)
            ts)

-- It holds of the writes of a purge too.
abbrev pub Forgotten : (Table Task → Table Task → Type 0) → Type 0
Forgotten R =
    (test : String → Task → Bool) (ts : Table Task) → R ts (update_where test forget_hash ts)
