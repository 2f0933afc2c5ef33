-- ===== src/Ingest/Session.antt =====
-- runtime/ingest_session.py: the lease that an execution holds, and what the execution changes.
use knoarbor.Prelude.{ℕ, Result, ok, err}
use knoarbor.Json.{number, set_field}
use knoarbor.Run.State.{RunFiles}
use knoarbor.Run.Monitor.{RunMonitor}
use knoarbor.Ingest.State.{AttemptLease, Store}
use knoarbor.Ingest.Tasks.{renew}
use knoarbor.Ingest.Materializer.{Vault}

-- What an execution changes: the vault, the files of its run and the monitor that writes them, which the
-- session shares.
pub record World : Type 0 where
  pub vault : Vault
  pub files : RunFiles
  pub monitor : RunMonitor

abbrev pub with_store : Store → World → World
with_store s world = record world { vault = record world.vault { store = s } }

-- `IngestExecutionSession`.
pub record Session : Type 0 where
  pub lease : AttemptLease
  pub lease_seconds : ℕ

-- `_sync_monitor`.
abbrev pub synced : Session → World → World
synced session world = record world {
  monitor = record world.monitor {
    metadata = set_field "ingest_lease_seconds" (number session.lease_seconds) (
        set_field "ingest_lease_expires_at" (number session.lease.expires_at)
          (set_field "ingest_lease_epoch" (number session.lease.epoch) world.monitor.metadata));
  };
}

abbrev pub with_lease : AttemptLease → Session → Session
with_lease lease session = record session { lease = lease }

-- `renew` of the session.
unfoldable pub renew_session : ℕ → Session → World → Result (Session × World)
renew_session now session world =
    elim (renew session.lease session.lease_seconds now world.vault.store) [
      | ok (lease, s) ↦
          ok (with_lease lease session, synced (with_lease lease session) (with_store s world))
      | err e ↦ err e
    ]
