-- ===== src/Ingest/Safety.antt =====
-- runtime/transactional_ingest.py: every call keeps the store well-formed, and so does any history
-- from an empty vault.
use knoarbor.Prelude.{
  ℕ, String, ◌≡◌, refl, Bool, true, false, List, [], ◌∷◌, arith, Bool-cases, inl, inr, ok,
}
use knoarbor.Table.{lookup}
use knoarbor.Ingest.State.{Task, AttemptLease, Store, TaskState, Token, is_running, is_settled}
use knoarbor.Ingest.Recovery.{terminal_state, is_terminal, set_ingest_paused}
use knoarbor.Ingest.Materialize.{
  mark_prepared, mark_published, Digest, begin_materialization, prepare_materialization,
  finish_materialization, fail_materialization,
}
use knoarbor.Ingest.Publish.{Publication, publish_revision}
use knoarbor.Ingest.Purge.{replace_revision_manifest}
use knoarbor.Ingest.Outcomes.{claim-ok, renew-ok, request_cancel-ok, fail_queued_task-ok, finish-ok}
use knoarbor.Ingest.OutcomesMore.{publish_revision-ok}
use knoarbor.Ingest.Invariant.{
  IsConsistent, after-IsConsistent, mark_claimed-IsConsistent, mark_renewed-IsConsistent,
  mark_failed-IsConsistent, mark_finished-IsConsistent, mark_cancelled-IsConsistent,
}
use knoarbor.Ingest.Reaping.{reap_expired_attempts-IsConsistent}
use knoarbor.Ingest.Admissions.{submit_command-IsConsistent, admit_recovery-IsConsistent}
use knoarbor.Ingest.Publishing.{publish_new-Published}
use knoarbor.Ingest.Purging.{purge_source-IsConsistent, request-IsConsistent}
use knoarbor.Ingest.History.{
  Call, submits, claims, pauses, renews, cancels, fails_queued, recovers, finishes, reaps,
  publishes, purges, replaces_manifest, requests, begins, prepares, completes, breaks, step, run,
  init,
}

not_running_at_end :
    (t : Task) (state : TaskState)
    → is_terminal state ≡ true
    → is_running (terminal_state t state) ≡ false
not_running_at_end t state h = ground arith

publish_revision-IsConsistent :
    (digest : Digest) (lease : AttemptLease) (p : Publication) (checked now later : ℕ) (s : Store)
    (revision : String) (s' : Store)
    → IsConsistent s
    → publish_revision digest lease p checked now later s ≡ ok (revision, s')
    → IsConsistent s'
publish_revision-IsConsistent digest lease p checked now later s revision s' v h =
    let (t, _, _, _, outcome) =
      publish_revision-ok digest lease p checked now later s revision s' h in
    elim outcome [
      | inl same ↦ rw same v
      | inr new ↦
          let e = publish_new-Published digest lease p now later s revision s' new in
          record { unique = rw e.tasks v.unique; tied = rw (e.tasks, e.attempts) v.tied }
    ]

-- The other calls write no task and no attempt.
same-IsConsistent :
    (s s' : Store)
    → s'.tasks ≡ s.tasks
    → s'.attempts ≡ s.attempts
    → IsConsistent s
    → IsConsistent s'
same-IsConsistent s s' e e' v = record { unique = rw e v.unique; tied = rw (e, e') v.tied }

replace_revision_manifest-IsConsistent :
    (r path hash : String) (s s' : Store) (u : Unit {0})
    → IsConsistent s
    → replace_revision_manifest r path hash s ≡ ok (u, s')
    → IsConsistent s'
unfolding replace_revision_manifest
replace_revision_manifest-IsConsistent r path hash s s' u v h =
    same-IsConsistent s s' (ground arith) (ground arith) v

begin_materialization-IsConsistent :
    (now : ℕ) (s : Store) → IsConsistent s → IsConsistent (begin_materialization now s).1
unfolding begin_materialization
begin_materialization-IsConsistent now s v = same-IsConsistent s _ (ground arith) (ground arith) v

prepare_materialization-IsConsistent :
    (token : Token) (index wiki : String) (now : ℕ) (s s' : Store) (u : Unit {0})
    → IsConsistent s
    → prepare_materialization token index wiki now s ≡ ok (u, s')
    → IsConsistent s'
unfolding prepare_materialization mark_prepared
prepare_materialization-IsConsistent token index wiki now s s' u v h =
    same-IsConsistent s s' (ground arith) (ground arith) v

finish_materialization-IsConsistent :
    (token : Token) (index wiki : String) (now : ℕ) (s s' : Store) (b : Bool)
    → IsConsistent s
    → finish_materialization token index wiki now s ≡ ok (b, s')
    → IsConsistent s'
unfolding finish_materialization mark_published
finish_materialization-IsConsistent token index wiki now s s' b v h =
    same-IsConsistent s s' (ground arith) (ground arith) v

fail_materialization-IsConsistent :
    (token : Token) (x : String) (now : ℕ) (s : Store)
    → IsConsistent s
    → IsConsistent (fail_materialization token x now s)
unfolding fail_materialization
fail_materialization-IsConsistent token x now s v =
    same-IsConsistent s _ (ground arith) (ground arith) v

-- Every call of the store keeps it well-formed: task names are not repeated, the current attempt of
-- a task exists, belongs to it and is in its state, and a task runs exactly while it has a lease.
pub step-IsConsistent :
    (digest : Digest) (s : Store) (c : Call) → IsConsistent s → IsConsistent (step digest s c)
unfolding step
step-IsConsistent digest s (submits c h t a now) v =
    after-IsConsistent s _ v (λ r s' e. submit_command-IsConsistent c h t a now s r s' v e)
step-IsConsistent digest s (claims id a owner secs version now) v =
    after-IsConsistent s _ v λ lease s' e.
      let (t, found, same, _, _, _, _, s'_is) = claim-ok id a owner secs version now s lease s' e in
      rw s'_is (mark_claimed-IsConsistent s v id t found a owner _ now same)
step-IsConsistent digest s (pauses p now) v =
    unfold set_ingest_paused in record { unique = v.unique; tied = v.tied }
step-IsConsistent digest s (renews lease secs now) v = after-IsConsistent s _ v λ lease' s' e.
    let (t, found, _, busy, _, _, s'_is) = renew-ok lease secs now s lease' s' e in
    rw s'_is (mark_renewed-IsConsistent s v lease.task_id t found _ now busy)
step-IsConsistent digest s (cancels id expected now) v = after-IsConsistent s _ v λ t' s' e.
    let (t, found, s'_is) = request_cancel-ok id expected now s t' s' e in
    elim (Bool-cases (is_settled t.state)) [
      | inl over ↦ rw (s'_is, over) v
      | inr live ↦ rw (s'_is, live) (mark_cancelled-IsConsistent s v id t found now live)
    ]
step-IsConsistent digest s (fails_queued id a x r now) v = after-IsConsistent s _ v λ t' s' e.
    let (t, found, same, waiting, s'_is) = fail_queued_task-ok id a x r now s t' s' e in
    rw s'_is (mark_failed-IsConsistent s v id t found a x r now same waiting)
step-IsConsistent digest s (recovers id expected a checked now) v =
    after-IsConsistent s _ v
      (λ r s' e. admit_recovery-IsConsistent id expected a checked now s r s' v e)
step-IsConsistent digest s (finishes lease state r x checked now) v =
    after-IsConsistent s _ v λ t' s' e.
      let (t, found, final, holds, _, s'_is) = finish-ok lease state r x checked now s t' s' e in
      rw s'_is (
        mark_finished-IsConsistent s v lease.task_id t found lease (terminal_state t state) r x now
          refl (ground arith) (not_running_at_end t state final))
step-IsConsistent digest s (reaps now) v = reap_expired_attempts-IsConsistent now s v
step-IsConsistent digest s (publishes lease p checked now later) v =
    after-IsConsistent s _ v
      (λ r s' e. publish_revision-IsConsistent digest lease p checked now later s r s' v e)
step-IsConsistent digest s (purges source now) v =
    after-IsConsistent s _ v (λ r s' e. purge_source-IsConsistent digest source now s r s' v e)
step-IsConsistent digest s (replaces_manifest r path hash) v =
    after-IsConsistent s _ v
      (λ u s' e. replace_revision_manifest-IsConsistent r path hash s s' u v e)
step-IsConsistent digest s (requests now) v = request-IsConsistent digest now s v
step-IsConsistent digest s (begins now) v = begin_materialization-IsConsistent now s v
step-IsConsistent digest s (prepares token index wiki now) v =
    after-IsConsistent s _ v
      (λ u s' e. prepare_materialization-IsConsistent token index wiki now s s' u v e)
step-IsConsistent digest s (completes token index wiki now) v =
    after-IsConsistent s _ v
      (λ b s' e. finish_materialization-IsConsistent token index wiki now s s' b v e)
step-IsConsistent digest s (breaks token x now) v =
    fail_materialization-IsConsistent token x now s v

pub run-IsConsistent :
    (digest : Digest) (s : Store) (cs : List Call) → IsConsistent s → IsConsistent (run digest s cs)
unfolding run
run-IsConsistent digest s [] v = v
run-IsConsistent digest s (c ∷ cs) v =
    run-IsConsistent digest (step digest s c) cs (step-IsConsistent digest s c v)

-- After any history of calls on an empty vault the store is well-formed.
pub run-init-IsConsistent :
    (digest : Digest) (now : ℕ) (cs : List Call) → IsConsistent (run digest (init digest now) cs)
run-init-IsConsistent digest now cs =
    run-IsConsistent digest (init digest now) cs
      (unfold init lookup in record { unique = tt; tied = λ k a e. cc })
