-- ===== src/Ingest/Epochs.antt =====
-- runtime/transactional_ingest.py: the lease epoch of a task, which no call lowers and each claim
-- raises by one.
use knoarbor.Prelude.{
  ℕ, suc, ◌+◌, ◌≤◌, String, ◌≡◌, refl, ap, Bool, true, Option, none, some, List, [], ◌∷◌, arith,
  eq_iff, eq_refl, Bool-cases, Option-cases, inl, inr, Result, ok, err,
}
use knoarbor.Table.{
  Table, lookup, update_where, insert, lookup-update_where, update_where-hit, lookup-insert,
  insert-eq-ok,
}
use knoarbor.Ingest.State.{Task, AttemptLease, Store, Revision, Token, is_settled}
use knoarbor.Ingest.Tasks.{
  Command, Admission, submit_command, find_command, claim, mark_claimed, at_version, claim_task,
  mark_renewed, mark_cancelled, mark_failed,
}
use knoarbor.Ingest.Recovery.{
  mark_finished, mark_requeued, reap_one, reap_rows, reap_expired_attempts, expired_tasks,
  set_ingest_paused,
}
use knoarbor.Ingest.Materialize.{
  mark_prepared, mark_published, Digest, request_materialization, begin_materialization,
  prepare_materialization, finish_materialization, fail_materialization,
}
use knoarbor.Ingest.Publish.{Publication, publish_revision}
use knoarbor.Ingest.Purge.{purged, forget_tasks, forget_inputs, replace_revision_manifest}
use knoarbor.Ingest.Outcomes.{claim-ok, renew-ok, request_cancel-ok, fail_queued_task-ok, finish-ok}
use knoarbor.Ingest.OutcomesMore.{
  publish_revision-ok, admit_recovery-ok, new_command-ok, existing_command-ok, insert_task-ok,
}
use knoarbor.Ingest.Publishing.{publish_new-Published}
use knoarbor.Ingest.Purging.{purge_source-ok}
use knoarbor.Ingest.History.{
  Call, submits, claims, pauses, renews, cancels, fails_queued, recovers, finishes, reaps,
  publishes, purges, replaces_manifest, requests, begins, prepares, completes, breaks, step, run,
  after,
}

abbrev pub epoch_of : Option Task → ℕ
epoch_of none = 0
epoch_of (some t) = t.lease_epoch

-- The lease epoch that the table holds for a task.
abbrev pub epoch_at : String → Table Task → ℕ
epoch_at id tasks = epoch_of (lookup id tasks)

-- No task's epoch is lower in the second table.
abbrev pub Grows : Table Task → Table Task → Type 0
Grows ts ts' = (id : String) → epoch_at id ts ≤ epoch_at id ts'

Grows-update :
    (test : String → Task → Bool) (f : Task → Task) (ts : Table Task)
    → ((k : String) (t : Task)
        → lookup k ts ≡ some t
        → test k t ≡ true
        → t.lease_epoch ≤ (f t).lease_epoch)
    → Grows ts (update_where test f ts)
Grows-update test f ts keeps id = elim (Option-cases (lookup id ts)) [
  | inl e ↦ rw e (omega arith)
  | inr (t, e) ↦ ground (arith, lookup-update_where test f id ts, keeps id t e)
]

Grows-insert : (k : String) (t : Task) (ts ts' : Table Task) → insert k t ts ≡ ok ts' → Grows ts ts'
Grows-insert k t ts ts' h id =
    ground (arith, lookup-insert k t ts ts' id h, insert-eq-ok k t ts ts' h, eq_iff k id)

Grows-same : (ts ts' : Table Task) → ts' ≡ ts → Grows ts ts'
Grows-same ts ts' e id = rw e (omega arith)

Grows-trans : (a b c : Table Task) → Grows a b → Grows b c → Grows a c
Grows-trans a b c h k id = omega (arith, h id, k id)

-- A claim takes the next epoch, and the store then holds the one that the lease carries.
pub claim-epoch :
    (task_id attempt_id owner : String) (secs : ℕ) (version : Option ℕ) (now : ℕ) (s : Store)
    (lease : AttemptLease) (s' : Store)
    → claim task_id attempt_id owner secs version now s ≡ ok (lease, s')
    → (lease.task_id ≡ task_id)
      × (lease.epoch ≡ suc (epoch_at task_id s.tasks))
      × (epoch_at task_id s'.tasks ≡ lease.epoch)
unfolding mark_claimed
claim-epoch task_id attempt_id owner secs version now s lease s' h =
    let (t, e, _, _, _, _, lease_is, s'_is) =
      claim-ok task_id attempt_id owner secs version now s lease s' h in
    let hit =
      update_where-hit (at_version task_id t.version)
        (claim_task owner (t.lease_epoch + 1) (now + secs) now) task_id s.tasks e
        (ground (arith, eq_refl task_id)) in
    (ground arith, ground arith, ground (arith, hit))

forget_tasks-Grows :
    (rows : List (Revision × Task)) (ts : Table Task) → Grows ts (forget_tasks rows ts)
unfolding forget_tasks
forget_tasks-Grows [] ts = Grows-same ts ts refl
forget_tasks-Grows ((r, t) ∷ rows) ts =
    Grows-trans ts _ _ (Grows-update _ _ ts (λ k u e h. omega arith)) (forget_tasks-Grows rows _)

forget_inputs-Grows :
    (rows : List (Revision × Task)) (ts : Table Task) → Grows ts (forget_inputs rows ts)
unfolding forget_inputs
forget_inputs-Grows [] ts = Grows-same ts ts refl
forget_inputs-Grows ((r, t) ∷ rows) ts =
    Grows-trans ts _ _ (Grows-update _ _ ts (λ k u e h. omega arith)) (forget_inputs-Grows rows _)

purged-Grows :
    (digest : Digest) (source : String) (rows : List (Revision × Task)) (now : ℕ) (s : Store)
    → Grows s.tasks (request_materialization digest now (purged source rows s)).1.tasks
unfolding request_materialization purged
purged-Grows digest source rows now s =
    Grows-trans s.tasks _ _ (forget_tasks-Grows rows s.tasks) (forget_inputs-Grows rows _)

reap_rows-Grows :
    (now : ℕ) (rows : List (String × Task)) (s : Store) → Grows s.tasks (reap_rows now rows s).tasks
unfolding reap_rows reap_one
reap_rows-Grows now [] s = Grows-same s.tasks s.tasks refl
reap_rows-Grows now ((k, t) ∷ rows) s =
    Grows-trans s.tasks _ _ (Grows-update _ _ s.tasks (λ k u e h. omega arith))
      (reap_rows-Grows now rows (reap_one now (k, t) s))

reap_expired_attempts-Grows :
    (now : ℕ) (s : Store) → Grows s.tasks (reap_expired_attempts now s).1.tasks
unfolding reap_expired_attempts
reap_expired_attempts-Grows now s = reap_rows-Grows now (expired_tasks now s.tasks) s

submit_command-Grows :
    (c : Command) (hash task_id attempt_id : String) (now : ℕ) (s : Store) (r : Admission)
    (s' : Store)
    → submit_command c hash task_id attempt_id now s ≡ ok (r, s')
    → Grows s.tasks s'.tasks
unfolding submit_command
submit_command-Grows c hash task_id attempt_id now s r s' h =
    elim (Option-cases (find_command hash s.tasks)) [
      | inl fresh ↦
          let (tasks, attempts, e, _, s'_is, _, _) =
            new_command-ok c hash task_id attempt_id now s s' r (ground arith) in
          rw s'_is (Grows-insert task_id _ s.tasks tasks (insert_task-ok task_id _ s.tasks tasks e))
      | inr (row, found) ↦
          Grows-same s.tasks s'.tasks
            (ap (λ (x : Store). x.tasks) (existing_command-ok row s s' r (ground arith)).0)
    ]

mark_claimed-Grows :
    (task_id attempt_id owner : String) (t : Task) (expires now : ℕ) (s : Store)
    → lookup task_id s.tasks ≡ some t
    → Grows s.tasks (mark_claimed task_id t attempt_id owner expires now s).tasks
unfolding mark_claimed
mark_claimed-Grows task_id attempt_id owner t expires now s e =
    Grows-update _ _ s.tasks (λ k u found hit.
      let same : k ≡ task_id = (eq_iff k task_id).0 (ground arith) in
      let row : u ≡ t = cc in ground arith)

after-Grows :
    {A : Type 0} (s : Store) (r : Result (A × Store))
    → ((a : A) (s' : Store) → r ≡ ok (a, s') → Grows s.tasks s'.tasks)
    → Grows s.tasks (after s r).tasks
after-Grows s (ok (a, s')) h = h a s' refl
after-Grows s (err x) h = Grows-same s.tasks s.tasks refl

publish_revision-Grows :
    (digest : Digest) (lease : AttemptLease) (p : Publication) (checked now later : ℕ) (s : Store)
    (revision : String) (s' : Store)
    → publish_revision digest lease p checked now later s ≡ ok (revision, s')
    → Grows s.tasks s'.tasks
publish_revision-Grows digest lease p checked now later s revision s' h =
    let (t, _, _, _, outcome) =
      publish_revision-ok digest lease p checked now later s revision s' h in
    elim outcome [
      | inl same ↦ Grows-same s.tasks s'.tasks (ap (λ (x : Store). x.tasks) same)
      | inr new ↦
          Grows-same s.tasks s'.tasks
            (publish_new-Published digest lease p now later s revision s' new).tasks
    ]

replace_revision_manifest-Grows :
    (r path hash : String) (s : Store) (u : Unit {0}) (s' : Store)
    → replace_revision_manifest r path hash s ≡ ok (u, s')
    → Grows s.tasks s'.tasks
unfolding replace_revision_manifest
replace_revision_manifest-Grows r path hash s u s' h = Grows-same s.tasks s'.tasks (ground arith)

begin_materialization-Grows :
    (now : ℕ) (s : Store) → Grows s.tasks (begin_materialization now s).1.tasks
unfolding begin_materialization
begin_materialization-Grows now s = Grows-same s.tasks _ (ground arith)

prepare_materialization-Grows :
    (token : Token) (index wiki : String) (now : ℕ) (s : Store) (u : Unit {0}) (s' : Store)
    → prepare_materialization token index wiki now s ≡ ok (u, s')
    → Grows s.tasks s'.tasks
unfolding prepare_materialization mark_prepared
prepare_materialization-Grows token index wiki now s u s' h =
    Grows-same s.tasks s'.tasks (ground arith)

finish_materialization-Grows :
    (token : Token) (index wiki : String) (now : ℕ) (s : Store) (b : Bool) (s' : Store)
    → finish_materialization token index wiki now s ≡ ok (b, s')
    → Grows s.tasks s'.tasks
unfolding finish_materialization mark_published
finish_materialization-Grows token index wiki now s b s' h =
    Grows-same s.tasks s'.tasks (ground arith)

fail_materialization-Grows :
    (token : Token) (x : String) (now : ℕ) (s : Store)
    → Grows s.tasks (fail_materialization token x now s).tasks
unfolding fail_materialization
fail_materialization-Grows token x now s = Grows-same s.tasks _ (ground arith)

-- No call lowers the lease epoch of a task.
pub step-Grows : (digest : Digest) (s : Store) (c : Call) → Grows s.tasks (step digest s c).tasks
unfolding step
step-Grows digest s (submits c h t a now) = after-Grows s _ (submit_command-Grows c h t a now s)
step-Grows digest s (claims id a owner secs version now) = after-Grows s _ λ lease s' e.
    let (t, found, _, _, _, _, _, s'_is) = claim-ok id a owner secs version now s lease s' e in
    rw s'_is (mark_claimed-Grows id a owner t _ now s found)
step-Grows digest s (pauses p now) = unfold set_ingest_paused in Grows-same s.tasks _ refl
step-Grows digest s (renews lease secs now) = after-Grows s _ λ lease' s' e.
    rw (renew-ok lease secs now s lease' s' e).6
      (unfold mark_renewed in Grows-update _ _ s.tasks (λ k u found h. omega arith))
step-Grows digest s (cancels id expected now) = after-Grows s _ λ t' s' e.
    let (t, found, s'_is) = request_cancel-ok id expected now s t' s' e in
    elim (Bool-cases (is_settled t.state)) [
      | inl over ↦ rw (s'_is, over) (Grows-same s.tasks s.tasks refl)
      | inr live ↦
          rw (s'_is, live)
            (unfold mark_cancelled in Grows-update _ _ s.tasks (λ k u found h. omega arith))
    ]
step-Grows digest s (fails_queued id a x r now) = after-Grows s _ λ t' s' e.
    rw (fail_queued_task-ok id a x r now s t' s' e).4
      (unfold mark_failed in Grows-update _ _ s.tasks (λ k u found h. omega arith))
step-Grows digest s (recovers id expected a checked now) = after-Grows s _ λ r s' e.
    rw (admit_recovery-ok id expected a checked now s s' r e).8
      (unfold mark_requeued in Grows-update _ _ s.tasks (λ k u found h. omega arith))
step-Grows digest s (finishes lease state r x checked now) = after-Grows s _ λ t' s' e.
    rw (finish-ok lease state r x checked now s t' s' e).5
      (unfold mark_finished in Grows-update _ _ s.tasks (λ k u found h. omega arith))
step-Grows digest s (reaps now) = reap_expired_attempts-Grows now s
step-Grows digest s (publishes lease p checked now later) =
    after-Grows s _ (publish_revision-Grows digest lease p checked now later s)
step-Grows digest s (purges source now) = after-Grows s _ λ paths s' e.
    rw (purge_source-ok digest source now s paths s' e) (purged-Grows digest source _ now s)
step-Grows digest s (replaces_manifest r path hash) =
    after-Grows s _ (replace_revision_manifest-Grows r path hash s)
step-Grows digest s (requests now) = unfold request_materialization in Grows-same s.tasks _ refl
step-Grows digest s (begins now) = begin_materialization-Grows now s
step-Grows digest s (prepares token index wiki now) =
    after-Grows s _ (prepare_materialization-Grows token index wiki now s)
step-Grows digest s (completes token index wiki now) =
    after-Grows s _ (finish_materialization-Grows token index wiki now s)
step-Grows digest s (breaks token x now) = fail_materialization-Grows token x now s

pub run-Grows :
    (digest : Digest) (s : Store) (cs : List Call) → Grows s.tasks (run digest s cs).tasks
unfolding run
run-Grows digest s [] = Grows-same s.tasks s.tasks refl
run-Grows digest s (c ∷ cs) =
    Grows-trans s.tasks _ _ (step-Grows digest s c) (run-Grows digest (step digest s c) cs)
