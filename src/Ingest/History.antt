-- ===== src/Ingest/History.antt =====
-- runtime/transactional_ingest.py: one call of the store, and histories of calls. A call that
-- raises leaves the store as it was, since `Transaction.__exit__` rolls back.
use knoarbor.Prelude.{ℕ, String, Bool, Option, none, false, List, [], ◌∷◌, Result, ok, err}
use knoarbor.Json.{Json}
use knoarbor.Ingest.State.{AttemptLease, Store, TaskState, Token, dirty}
use knoarbor.Ingest.Tasks.{Command, submit_command, claim, renew, request_cancel, fail_queued_task}
use knoarbor.Ingest.Recovery.{admit_recovery, finish, reap_expired_attempts, set_ingest_paused}
use knoarbor.Ingest.Materialize.{
  Digest, request_materialization, begin_materialization, prepare_materialization,
  finish_materialization, fail_materialization,
}
use knoarbor.Ingest.Publish.{Publication, publish_revision}
use knoarbor.Ingest.Purge.{purge_source, replace_revision_manifest}

pub data Call : Type 0 where
  submits : Command → String → String → String → ℕ → Call
  claims : String → String → String → ℕ → Option ℕ → ℕ → Call
  pauses : Bool → ℕ → Call
  renews : AttemptLease → ℕ → ℕ → Call
  cancels : String → Option String → ℕ → Call
  fails_queued : String → String → String → Option Json → ℕ → Call
  recovers : String → String → String → ℕ → ℕ → Call
  finishes : AttemptLease → TaskState → Option Json → Option String → ℕ → ℕ → Call
  reaps : ℕ → Call
  publishes : AttemptLease → Publication → ℕ → ℕ → ℕ → Call
  purges : String → ℕ → Call
  replaces_manifest : String → String → String → Call
  requests : ℕ → Call
  begins : ℕ → Call
  prepares : Token → String → String → ℕ → Call
  completes : Token → String → String → ℕ → Call
  breaks : Token → String → ℕ → Call

-- The store that `_initialize_locked` leaves in a vault with no store before.
unfoldable pub init : Digest → ℕ → Store
init digest now = record {
  control = record { paused = false; version = 1; updated_at = now };
  tasks = [];
  attempts = [];
  source_heads = [];
  source_revisions = [];
  source_cursors = [];
  window_heads = [];
  session_streams = [];
  contributions = [];
  materialization = record {
    requested_epoch = 1;
    published_epoch = 0;
    requested_fact_generation = digest [];
    published_fact_generation = none;
    prepared_index_generation = none;
    prepared_wiki_fingerprint = none;
    published_index_generation = none;
    published_wiki_fingerprint = none;
    phase = dirty;
    error = none;
    updated_at = now;
  };
}

-- `__exit__`: commit, or roll back.
abbrev pub after {ℓ} : {A : Type ℓ} → Store → Result (A × Store) → Store
after s (ok (a, s')) = s'
after s (err e) = s

unfoldable pub step : Digest → Store → Call → Store
step digest s (submits c h t a now) = after s (submit_command c h t a now s)
step digest s (claims t a owner secs version now) = after s (claim t a owner secs version now s)
step digest s (pauses p now) = set_ingest_paused p now s
step digest s (renews lease secs now) = after s (renew lease secs now s)
step digest s (cancels t expected now) = after s (request_cancel t expected now s)
step digest s (fails_queued t a e r now) = after s (fail_queued_task t a e r now s)
step digest s (recovers t expected a checked now) =
    after s (admit_recovery t expected a checked now s)
step digest s (finishes lease state r e checked now) =
    after s (finish lease state r e checked now s)
step digest s (reaps now) = (reap_expired_attempts now s).1
step digest s (publishes lease p checked now later) =
    after s (publish_revision digest lease p checked now later s)
step digest s (purges source now) = after s (purge_source digest source now s)
step digest s (replaces_manifest r path hash) = after s (replace_revision_manifest r path hash s)
step digest s (requests now) = (request_materialization digest now s).1
step digest s (begins now) = (begin_materialization now s).1
step digest s (prepares token index wiki now) =
    after s (prepare_materialization token index wiki now s)
step digest s (completes token index wiki now) =
    after s (finish_materialization token index wiki now s)
step digest s (breaks token e now) = fail_materialization token e now s

unfoldable pub run : Digest → Store → List Call → Store
unfolding step
run digest s [] = s
run digest s (c ∷ cs) = run digest (step digest s c) cs
