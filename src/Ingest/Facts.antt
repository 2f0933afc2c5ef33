-- ===== src/Ingest/Facts.antt =====
-- runtime/transactional_ingest.py: the calls on tasks, attempts, leases and manifests write
-- neither the heads nor the materialization.
use knoarbor.Prelude.{
  ℕ, String, ◌≡◌, refl, Bool, Option, List, [], ◌∷◌, arith, Bool-cases, Option-cases, inl, inr, ok,
}
use knoarbor.Json.{Json}
use knoarbor.Table.{Table}
use knoarbor.Ingest.State.{Task, Attempt, AttemptLease, Store, TaskState, is_settled}
use knoarbor.Ingest.Tasks.{
  Command, Admission, submit_command, find_command, claim, mark_claimed, renew, mark_renewed,
  request_cancel, mark_cancelled, fail_queued_task, mark_failed,
}
use knoarbor.Ingest.Recovery.{
  finish, mark_finished, admit_recovery, mark_requeued, reap_one, reap_rows, reap_expired_attempts,
  expired_tasks, set_ingest_paused,
}
use knoarbor.Ingest.Purge.{replace_revision_manifest}
use knoarbor.Ingest.Outcomes.{claim-ok, renew-ok, request_cancel-ok, fail_queued_task-ok, finish-ok}
use knoarbor.Ingest.OutcomesMore.{admit_recovery-ok, new_command-ok, existing_command-ok}

-- What the calls on tasks leave alone.
pub record SameFacts (s s' : Store) : Type 0 where
  pub heads : s'.source_heads ≡ s.source_heads
  pub windows : s'.window_heads ≡ s.window_heads
  pub materialization : s'.materialization ≡ s.materialization

pub SameFacts-refl : (s : Store) → SameFacts s s
SameFacts-refl s = record { heads = refl; windows = refl; materialization = refl }

pub reap_rows-SameFacts :
    (now : ℕ) (rows : List (String × Task)) (s : Store) → SameFacts s (reap_rows now rows s)
unfolding reap_rows reap_one
reap_rows-SameFacts now [] s = SameFacts-refl s
reap_rows-SameFacts now ((k, t) ∷ rows) s =
    let rest = reap_rows-SameFacts now rows (reap_one now (k, t) s) in
    record { heads = rest.heads; windows = rest.windows; materialization = rest.materialization }

pub SameFacts-of :
    (s : Store) (tasks : Table Task) (attempts : Table Attempt)
    → SameFacts s (record s { tasks = tasks; attempts = attempts })
SameFacts-of s tasks attempts = record { heads = refl; windows = refl; materialization = refl }

pub submit_command-SameFacts :
    (c : Command) (hash id a : String) (now : ℕ) (s : Store) (r : Admission) (s' : Store)
    → submit_command c hash id a now s ≡ ok (r, s')
    → SameFacts s s'
unfolding submit_command
submit_command-SameFacts c hash id a now s r s' h =
    elim (Option-cases (find_command hash s.tasks)) [
      | inl fresh ↦
          let (tasks, attempts, _, _, s'_is, _, _) =
            new_command-ok c hash id a now s s' r (ground arith) in
          rw s'_is (SameFacts-of s tasks attempts)
      | inr (row, found) ↦ rw (existing_command-ok row s s' r (ground arith)).0 (SameFacts-refl s)
    ]

pub reap_expired_attempts-SameFacts :
    (now : ℕ) (s : Store) → SameFacts s (reap_expired_attempts now s).1
unfolding reap_expired_attempts
reap_expired_attempts-SameFacts now s = reap_rows-SameFacts now (expired_tasks now s.tasks) s

pub request_cancel-SameFacts :
    (id : String) (expected : Option String) (now : ℕ) (s : Store) (r : Task) (s' : Store)
    → request_cancel id expected now s ≡ ok (r, s')
    → SameFacts s s'
unfolding mark_cancelled
request_cancel-SameFacts id expected now s r s' h =
    let (t, found, s'_is) = request_cancel-ok id expected now s r s' h in
    elim (Bool-cases (is_settled t.state)) [
      | inl over ↦ rw (s'_is, over) (SameFacts-refl s)
      | inr live ↦ rw (s'_is, live) (SameFacts-of s _ _)
    ]

pub replace_revision_manifest-SameFacts :
    (r path hash : String) (s : Store) (u : Unit {0}) (s' : Store)
    → replace_revision_manifest r path hash s ≡ ok (u, s')
    → SameFacts s s'
unfolding replace_revision_manifest
replace_revision_manifest-SameFacts r path hash s u s' h = ground arith

pub claim-SameFacts :
    (id a owner : String) (secs : ℕ) (version : Option ℕ) (now : ℕ) (s : Store)
    (lease : AttemptLease) (s' : Store)
    → claim id a owner secs version now s ≡ ok (lease, s')
    → SameFacts s s'
unfolding mark_claimed
claim-SameFacts id a owner secs version now s lease s' e =
    rw (claim-ok id a owner secs version now s lease s' e).7 (SameFacts-of s _ _)

pub renew-SameFacts :
    (lease : AttemptLease) (secs now : ℕ) (s : Store) (lease' : AttemptLease) (s' : Store)
    → renew lease secs now s ≡ ok (lease', s')
    → SameFacts s s'
unfolding mark_renewed
renew-SameFacts lease secs now s lease' s' e =
    rw (renew-ok lease secs now s lease' s' e).6 (SameFacts-of s _ _)

pub fail_queued_task-SameFacts :
    (id a x : String) (result : Option Json) (now : ℕ) (s : Store) (t : Task) (s' : Store)
    → fail_queued_task id a x result now s ≡ ok (t, s')
    → SameFacts s s'
unfolding mark_failed
fail_queued_task-SameFacts id a x result now s t s' e =
    rw (fail_queued_task-ok id a x result now s t s' e).4 (SameFacts-of s _ _)

pub admit_recovery-SameFacts :
    (id expected a : String) (checked now : ℕ) (s : Store) (r : Admission) (s' : Store)
    → admit_recovery id expected a checked now s ≡ ok (r, s')
    → SameFacts s s'
unfolding mark_requeued
admit_recovery-SameFacts id expected a checked now s r s' e =
    rw (admit_recovery-ok id expected a checked now s s' r e).8 (SameFacts-of s _ _)

pub finish-SameFacts :
    (lease : AttemptLease) (state : TaskState) (result : Option Json) (x : Option String)
    (checked now : ℕ) (s : Store) (t : Task) (s' : Store)
    → finish lease state result x checked now s ≡ ok (t, s')
    → SameFacts s s'
unfolding mark_finished
finish-SameFacts lease state result x checked now s t s' e =
    rw (finish-ok lease state result x checked now s t s' e).5 (SameFacts-of s _ _)

pub set_ingest_paused-SameFacts :
    (b : Bool) (now : ℕ) (s : Store) → SameFacts s (set_ingest_paused b now s)
unfolding set_ingest_paused
set_ingest_paused-SameFacts b now s = record {
  heads = refl;
  windows = refl;
  materialization = refl;
}
