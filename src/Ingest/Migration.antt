-- ===== src/Ingest/Migration.antt =====
-- runtime/transactional_ingest.py: the row of `ingest_migrations` that carries a store from the v4
-- format to v5: written by `_initialize_locked`, moved on by `_resume_v5_migration` and ended by
-- `complete_v5_migration`.
use knoarbor.Prelude.{
  ℕ, String, ◌≡◌, ◌≤◌, Bool, true, false, Option, none, some, Result, ok, ◌>>◌, require,
  storage_conflict, if◌then◌else◌, arith, is_some,
}
use Prim.Native.String.{◌++◌ as str_append}
use knoarbor.Ingest.State.{Store}
use knoarbor.Ingest.Materialize.{is_clean}

pub data MigrationPhase : Type 0 where
  db_migrated index_ready complete : MigrationPhase
  other : String → MigrationPhase

-- `row is None or row["phase"] in {"index_ready", "complete"}`.
abbrev pub is_resumed : Option MigrationPhase → Bool
is_resumed none = true
is_resumed (some index_ready) = true
is_resumed (some complete) = true
is_resumed (some _) = false

abbrev pub is_db_migrated : Option MigrationPhase → Bool
is_db_migrated (some db_migrated) = true
is_db_migrated _ = false

abbrev pub unsupported_text : Option MigrationPhase → String
unsupported_text (some (other phase)) = str_append "Unsupported v5 migration phase: " phase
unsupported_text _ = "Unsupported v5 migration phase: "

-- `_resume_v5_migration`: the row is read first, and is `current` when the transaction writes it.
unfoldable pub resume_v5_migration :
    Option MigrationPhase → Option MigrationPhase → Result (Option MigrationPhase)
resume_v5_migration read current = if is_resumed read then ok current else do
  require (is_db_migrated read) (storage_conflict (unsupported_text read))
  require (is_db_migrated current)
      (storage_conflict "The v5 migration phase changed while it was being completed.")
  ok (some index_ready)

abbrev pub completed_phase : Option MigrationPhase → Option MigrationPhase
completed_phase (some index_ready) = some complete
completed_phase row = row

-- `complete_v5_migration`.
unfoldable pub complete_v5_migration :
    Store → Option MigrationPhase → Result (Option MigrationPhase)
complete_v5_migration s row = do
  require (is_clean s.materialization.phase)
      (storage_conflict "The v5 migration cannot complete before vault materialization is clean.")
  ok (completed_phase row)

-- How far a migration is.
abbrev pub progress_of : Option MigrationPhase → ℕ
progress_of (some db_migrated) = 1
progress_of (some index_ready) = 2
progress_of (some complete) = 3
progress_of _ = 0

-- A store that opens resumes its migration: when that returns, and nobody else has opened it
-- meanwhile, the migration is beyond the database, has gone no step back, and a completion that
-- returns then ends it, and only in a clean vault.
pub resume-complete :
    (s : Store) (row row' row'' : Option MigrationPhase)
    → resume_v5_migration row row ≡ ok row'
    → complete_v5_migration s row' ≡ ok row''
    → (is_resumed row' ≡ true)
      × (progress_of row ≤ progress_of row')
      × (is_clean s.materialization.phase ≡ true)
      × (row'' ≡ (if is_some row then some complete else none))
unfolding resume_v5_migration complete_v5_migration
resume-complete s row row' row'' h k =
    (ground (arith, h, k), ground (arith, h, k), ground (arith, h, k), ground (arith, h, k))
