-- ===== src/Ingest/Fencing.antt =====
-- runtime/transactional_ingest.py: the leases that `renew`, `finish` and `publish_revision` accept.
use knoarbor.Prelude.{
  ℕ, ◌<◌, String, ◌≡◌, refl, true, false, Option, some, List, arith, eq_iff, Result, ok, err,
  is_err,
}
use knoarbor.Json.{Json}
use knoarbor.Table.{lookup}
use knoarbor.Ingest.State.{Task, AttemptLease, Store, TaskState, is_running}
use knoarbor.Ingest.Tasks.{claim, renew, holds_epoch}
use knoarbor.Ingest.Recovery.{finish}
use knoarbor.Ingest.Materialize.{Digest}
use knoarbor.Ingest.Publish.{Publication, publish_revision}
use knoarbor.Ingest.Outcomes.{renew-ok, finish-ok}
use knoarbor.Ingest.OutcomesMore.{publish_revision-ok}
use knoarbor.Ingest.Epochs.{epoch_at, claim-epoch, run-Grows}
use knoarbor.Ingest.Consistent.{TaskOk}
use knoarbor.Ingest.Invariant.{IsConsistent}
use knoarbor.Ingest.History.{Call, run}

is_err-of {ℓ} : {A : Type ℓ} (r : Result A) → ((a : A) → r ≡ ok a → ⊥) → is_err r ≡ true
is_err-of (ok a) h = absurd (h a refl)
is_err-of (err x) h = refl

-- `renew`, `finish` and `publish_revision` all raise for this lease, whatever else they are given.
pub record IsRefused (digest : Digest) (s : Store) (lease : AttemptLease) : Type 0 where
  pub renews : (secs now : ℕ) → is_err (renew lease secs now s) ≡ true
  pub finishes :
      (state : TaskState) (result : Option Json) (error : Option String) (checked now : ℕ)
      → is_err (finish lease state result error checked now s) ≡ true
  pub publishes :
      (p : Publication) (checked now later : ℕ)
      → is_err (publish_revision digest lease p checked now later s) ≡ true

old_epoch :
    (lease : AttemptLease) (s : Store) (t : Task) (now : ℕ)
    → lease.epoch < epoch_at lease.task_id s.tasks
    → lookup lease.task_id s.tasks ≡ some t
    → holds_epoch lease t now ≡ true
    → ⊥
old_epoch lease s t now older e holds = ground arith

-- A lease of an earlier epoch than the task's is refused.
pub old_epoch-IsRefused :
    (digest : Digest) (lease : AttemptLease) (s : Store)
    → lease.epoch < epoch_at lease.task_id s.tasks
    → IsRefused digest s lease
old_epoch-IsRefused digest lease s older = record {
  renews = λ secs now. is_err-of _ λ (lease', s') h.
      let (t, e, holds, _, _, _, _) = renew-ok lease secs now s lease' s' h in
      old_epoch lease s t now older e holds;
  finishes = λ state result error checked now. is_err-of _ λ (t', s') h.
      let (t, e, _, holds, _, _) = finish-ok lease state result error checked now s t' s' h in
      old_epoch lease s t checked older e holds;
  publishes = λ p checked now later. is_err-of _ λ (revision, s') h.
      let (t, e, holds, _, _) =
        publish_revision-ok digest lease p checked now later s revision s' h in
      old_epoch lease s t checked older e holds;
}

-- Two claims of one task, with any calls between them and after the second: from the second claim
-- on, every `renew`, `finish` and `publish_revision` under the lease of the first raises.
pub claim-fences :
    (digest : Digest) (id a b owner other : String) (secs secs' : ℕ) (version version' : Option ℕ)
    (now now' : ℕ) (s s₁ s₂ : Store) (first second : AttemptLease) (between later : List Call)
    → claim id a owner secs version now s ≡ ok (first, s₁)
    → claim id b other secs' version' now' (run digest s₁ between) ≡ ok (second, s₂)
    → IsRefused digest (run digest s₂ later) first
claim-fences digest id a b owner other secs secs' version version' now now' s s₁ s₂ first second
      between later h k =
    let (named, _, held) = claim-epoch id a owner secs version now s first s₁ h in
    let (_, next, held') =
      claim-epoch id b other secs' version' now' (run digest s₁ between) second s₂ k in
    old_epoch-IsRefused digest first (run digest s₂ later) (
      rw named (
        omega
          (arith, run-Grows digest s₁ between id, run-Grows digest s₂ later id, next, held, held')))

-- In a well-formed store `publish_revision` returns only for the worker that runs the task now, of
-- a task not cancelled, although its code never tests that the task is running.
pub publish_revision-running :
    (digest : Digest) (lease : AttemptLease) (p : Publication) (checked now later : ℕ) (s : Store)
    (revision : String) (s' : Store)
    → IsConsistent s
    → publish_revision digest lease p checked now later s ≡ ok (revision, s')
    → (t : Task) × (lookup lease.task_id s.tasks ≡ some t)
      × (is_running t.state ≡ true)
      × (t.current_attempt_id ≡ lease.attempt_id)
      × (t.lease_epoch ≡ lease.epoch)
      × (t.cancel_requested ≡ false)
publish_revision-running digest lease p checked now later s revision s' v h =
    let (t, e, holds, live, _) =
      publish_revision-ok digest lease p checked now later s revision s' h in
    let row : TaskOk s.attempts lease.task_id t = v.tied lease.task_id t e in
    (
      t,
      e,
      ground (arith, row.leased),
      (eq_iff t.current_attempt_id lease.attempt_id).0 (ground arith),
      ground arith,
      live,
    )
