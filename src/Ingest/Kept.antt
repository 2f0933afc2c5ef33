-- ===== src/Ingest/Kept.antt =====
-- runtime/transactional_ingest.py: a relation of two tables of tasks that every write of the store keeps
-- holds over every history of its calls.
use knoarbor.Prelude.{
  ℕ, ◌+◌, String, ◌≡◌, refl, ap, Bool, false, List, [], ◌∷◌, any, arith, Bool-cases, Option-cases,
  inl, inr, ◌⊎◌, Result, ok, err,
}
use knoarbor.Table.{Table}
use knoarbor.Ingest.State.{AttemptLease, Task, Store, Revision, Token, is_settled}
use knoarbor.Ingest.Tasks.{
  Command, Admission, submit_command, find_command, mark_claimed, mark_renewed, mark_cancelled,
  mark_failed,
}
use knoarbor.Ingest.Recovery.{
  mark_finished, mark_requeued, reap_one, reap_rows, reap_expired_attempts, expired_tasks,
  set_ingest_paused,
}
use knoarbor.Ingest.Materialize.{
  mark_prepared, mark_published, Digest, request_materialization, begin_materialization,
  prepare_materialization, finish_materialization, fail_materialization,
}
use knoarbor.Ingest.Publish.{Publication, publish_revision}
use knoarbor.Ingest.Purge.{purged, forget_tasks, forget_inputs, replace_revision_manifest}
use knoarbor.Ingest.Outcomes.{claim-ok, renew-ok, request_cancel-ok, fail_queued_task-ok, finish-ok}
use knoarbor.Ingest.OutcomesMore.{
  publish_revision-ok, admit_recovery-ok, new_command-ok, existing_command-ok, insert_task-ok,
}
use knoarbor.Ingest.Publishing.{publish_new-Published}
use knoarbor.Ingest.Purging.{purge_source-ok}
use knoarbor.Ingest.History.{
  Call, submits, claims, pauses, renews, fails_queued, recovers, finishes, publishes, purges,
  replaces_manifest, requests, begins, prepares, completes, breaks, step, run, after,
}
use knoarbor.Ingest.Writes.{IsKept, Forgotten, is_purge}

module _ (R : Table Task → Table Task → Type 0) (kept : IsKept R) where
  forget_tasks-kept :
      Forgotten R → (rows : List (Revision × Task)) (ts : Table Task) → R ts (forget_tasks rows ts)
  unfolding forget_tasks
  forget_tasks-kept forgotten [] ts = kept.same ts ts refl
  forget_tasks-kept forgotten ((r, t) ∷ rows) ts =
      kept.trans ts _ _ (forgotten _ ts) (forget_tasks-kept forgotten rows _)

  forget_inputs-kept :
      Forgotten R → (rows : List (Revision × Task)) (ts : Table Task) → R ts (forget_inputs rows ts)
  unfolding forget_inputs
  forget_inputs-kept forgotten [] ts = kept.same ts ts refl
  forget_inputs-kept forgotten ((r, t) ∷ rows) ts =
      kept.trans ts _ _ (forgotten _ ts) (forget_inputs-kept forgotten rows _)

  purged-kept :
      Forgotten R
      → (digest : Digest) (source : String) (rows : List (Revision × Task)) (now : ℕ) (s : Store)
      → R s.tasks (request_materialization digest now (purged source rows s)).1.tasks
  unfolding request_materialization purged
  purged-kept forgotten digest source rows now s =
      kept.trans s.tasks _ _ (forget_tasks-kept forgotten rows s.tasks)
        (forget_inputs-kept forgotten rows _)

  reap_rows-kept :
      (now : ℕ) (rows : List (String × Task)) (s : Store) → R s.tasks (reap_rows now rows s).tasks
  unfolding reap_rows reap_one
  reap_rows-kept now [] s = kept.same s.tasks s.tasks refl
  reap_rows-kept now ((k, t) ∷ rows) s =
      kept.trans s.tasks _ _ (kept.reaps k t.version now s.tasks)
        (reap_rows-kept now rows (reap_one now (k, t) s))

  submit_command-kept :
      (c : Command) (hash task_id attempt_id : String) (now : ℕ) (s : Store) (r : Admission)
      (s' : Store)
      → submit_command c hash task_id attempt_id now s ≡ ok (r, s')
      → R s.tasks s'.tasks
  unfolding submit_command
  submit_command-kept c hash task_id attempt_id now s r s' h =
      elim (Option-cases (find_command hash s.tasks)) [
        | inl fresh ↦
            let (tasks, attempts, e, _, s'_is, _, _) =
              new_command-ok c hash task_id attempt_id now s s' r (ground arith) in
            rw s'_is
              (kept.inserted task_id _ s.tasks tasks (insert_task-ok task_id _ s.tasks tasks e))
        | inr (row, found) ↦
            kept.same s.tasks s'.tasks
              (ap (λ (x : Store). x.tasks) (existing_command-ok row s s' r (ground arith)).0)
      ]

  after-kept :
      {A : Type 0} (s : Store) (r : Result (A × Store))
      → ((a : A) (s' : Store) → r ≡ ok (a, s') → R s.tasks s'.tasks)
      → R s.tasks (after s r).tasks
  after-kept s (ok (a, s')) h = h a s' refl
  after-kept s (err x) h = kept.same s.tasks s.tasks refl

  publish_revision-kept :
      (digest : Digest) (lease : AttemptLease) (p : Publication) (checked now later : ℕ) (s : Store)
      (revision : String) (s' : Store)
      → publish_revision digest lease p checked now later s ≡ ok (revision, s')
      → R s.tasks s'.tasks
  publish_revision-kept digest lease p checked now later s revision s' h =
      let (t, _, _, _, outcome) =
        publish_revision-ok digest lease p checked now later s revision s' h in
      elim outcome [
        | inl same ↦ kept.same s.tasks s'.tasks (ap (λ (x : Store). x.tasks) same)
        | inr new ↦
            kept.same s.tasks s'.tasks
              (publish_new-Published digest lease p now later s revision s' new).tasks
      ]

  begin_materialization-kept :
      (now : ℕ) (s : Store) → R s.tasks (begin_materialization now s).1.tasks
  unfolding begin_materialization
  begin_materialization-kept now s = kept.same s.tasks _ (ground arith)

  prepare_materialization-kept :
      (token : Token) (index wiki : String) (now : ℕ) (s : Store) (u : Unit {0}) (s' : Store)
      → prepare_materialization token index wiki now s ≡ ok (u, s')
      → R s.tasks s'.tasks
  unfolding prepare_materialization mark_prepared
  prepare_materialization-kept token index wiki now s u s' h =
      kept.same s.tasks s'.tasks (ground arith)

  finish_materialization-kept :
      (token : Token) (index wiki : String) (now : ℕ) (s : Store) (b : Bool) (s' : Store)
      → finish_materialization token index wiki now s ≡ ok (b, s')
      → R s.tasks s'.tasks
  unfolding finish_materialization mark_published
  finish_materialization-kept token index wiki now s b s' h =
      kept.same s.tasks s'.tasks (ground arith)

  replace_revision_manifest-kept :
      (r path hash : String) (s : Store) (u : Unit {0}) (s' : Store)
      → replace_revision_manifest r path hash s ≡ ok (u, s')
      → R s.tasks s'.tasks
  unfolding replace_revision_manifest
  replace_revision_manifest-kept r path hash s u s' h = kept.same s.tasks s'.tasks (ground arith)

  step-kept :
      (digest : Digest) (s : Store) (c : Call)
      → (is_purge c ≡ false) ⊎ Forgotten R
      → R s.tasks (step digest s c).tasks
  unfolding step mark_claimed mark_renewed mark_cancelled mark_failed mark_requeued mark_finished
      set_ingest_paused request_materialization reap_expired_attempts fail_materialization
  step-kept digest s (submits c h t a now) _ = after-kept s _ (submit_command-kept c h t a now s)
  step-kept digest s (claims id a owner secs version now) _ = after-kept s _ λ lease s' e.
      let (t, found, _, _, _, _, _, s'_is) = claim-ok id a owner secs version now s lease s' e in
      rw s'_is (kept.claimed id owner t (now + secs) now s.tasks found)
  step-kept digest s (pauses p now) _ = kept.same s.tasks _ refl
  step-kept digest s (renews lease secs now) _ = after-kept s _ λ lease' s' e.
      let (t, found, holds, _, open_task, _, s'_is) = renew-ok lease secs now s lease' s' e in
      rw s'_is (kept.renewal lease t now (now + secs) now s.tasks found holds open_task)
  step-kept digest s (Call.cancels id expected now) _ = after-kept s _ λ t' s' e.
      let (t, found, s'_is) = request_cancel-ok id expected now s t' s' e in
      elim (Bool-cases (is_settled t.state)) [
        | inl over ↦ rw (s'_is, over) (kept.same s.tasks s.tasks refl)
        | inr live ↦ rw (s'_is, live) (kept.cancels id _ now s.tasks)
      ]
  step-kept digest s (fails_queued id a x r now) _ =
      after-kept s _
        λ t' s' e. rw (fail_queued_task-ok id a x r now s t' s' e).4 (kept.fails id now s.tasks)
  step-kept digest s (recovers id expected a checked now) _ = after-kept s _ λ r s' e.
      rw (admit_recovery-ok id expected a checked now s s' r e).8 (kept.requeued id a now s.tasks)
  step-kept digest s (finishes lease state r x checked now) _ = after-kept s _ λ t' s' e.
      rw (finish-ok lease state r x checked now s t' s' e).5
        (kept.settled lease.task_id _ now s.tasks)
  step-kept digest s (Call.reaps now) _ = reap_rows-kept now (expired_tasks now s.tasks) s
  step-kept digest s (publishes lease p checked now later) _ =
      after-kept s _ (publish_revision-kept digest lease p checked now later s)
  step-kept digest s (purges source now) (inl other) = cc
  step-kept digest s (purges source now) (inr forgotten) = after-kept s _ λ paths s' e.
      rw (purge_source-ok digest source now s paths s' e)
        (purged-kept forgotten digest source _ now s)
  step-kept digest s (replaces_manifest r path hash) _ =
      after-kept s _ (replace_revision_manifest-kept r path hash s)
  step-kept digest s (requests now) _ = kept.same s.tasks _ refl
  step-kept digest s (begins now) _ = begin_materialization-kept now s
  step-kept digest s (prepares token index wiki now) _ =
      after-kept s _ (prepare_materialization-kept token index wiki now s)
  step-kept digest s (completes token index wiki now) _ =
      after-kept s _ (finish_materialization-kept token index wiki now s)
  step-kept digest s (breaks token x now) _ = kept.same s.tasks _ (ground arith)

  pub run-kept :
      (digest : Digest) (s : Store) (cs : List Call)
      → (any is_purge cs ≡ false) ⊎ Forgotten R
      → R s.tasks (run digest s cs).tasks
  unfolding run
  run-kept digest s [] h = kept.same s.tasks s.tasks refl
  run-kept digest s (c ∷ cs) (inl clear) =
      kept.trans s.tasks _ _ (step-kept digest s c (inl (ground (arith, clear))))
        (run-kept digest (step digest s c) cs (inl (ground (arith, clear))))
  run-kept digest s (c ∷ cs) (inr forgotten) =
      kept.trans s.tasks _ _ (step-kept digest s c (inr forgotten))
        (run-kept digest (step digest s c) cs (inr forgotten))
