-- ===== src/Ingest/Inputs.antt =====
-- runtime/transactional_ingest.py: the revisions that are known under an input key, which only a purge
-- of their source makes the store forget.
use knoarbor.Prelude.{
  ℕ, String, ◌≡◌, refl, ap, Bool, false, Option, some, List, [], ◌∷◌, ◌++◌, any, arith, str_eq,
  eq_iff, Bool-cases, Option-cases, inl, inr, Result, ok, err,
}
use mathlib.Core.Option
use knoarbor.Table.{Table, update_where}
use knoarbor.Ingest.State.{AttemptLease, Store, Revision, Task, Token, is_settled}
use knoarbor.Ingest.Tasks.{
  Command, Admission, submit_command, find_command, mark_claimed, mark_renewed, mark_cancelled,
  mark_failed,
}
use knoarbor.Ingest.Recovery.{
  mark_finished, mark_requeued, reap_one, reap_rows, reap_expired_attempts, expired_tasks,
  set_ingest_paused,
}
use knoarbor.Ingest.Materialize.{
  mark_prepared, mark_published, Digest, request_materialization, begin_materialization,
  prepare_materialization, finish_materialization, fail_materialization,
}
use knoarbor.Ingest.Publish.{Publication, find_input, new_revision, publish_revision}
use knoarbor.Ingest.Purge.{purged, delete_rows, replace_revision_manifest}
use knoarbor.Ingest.Outcomes.{claim-ok, renew-ok, request_cancel-ok, fail_queued_task-ok, finish-ok}
use knoarbor.Ingest.OutcomesMore.{admit_recovery-ok, new_command-ok, existing_command-ok}
use knoarbor.Ingest.Purging.{purge_source-ok}
use knoarbor.Ingest.Heads.{publish_revision-cases}
use knoarbor.Ingest.Added.{publish_new-Added}
use knoarbor.Ingest.History.{
  Call, submits, claims, pauses, renews, cancels, fails_queued, recovers, finishes, reaps,
  publishes, purges, replaces_manifest, requests, begins, prepares, completes, breaks, step, run,
  after,
}

-- The revision that is known under an input key of a source.
abbrev pub input_key : String → String → Table Revision → Option String
input_key source key rows =
    Option.map (λ (row : String × Revision). row.0) (find_input source key rows)

abbrev pub forgets : String → Call → Bool
forgets source (purges other now) = str_eq other source
forgets source _ = false

module _ (source key : String) where
  -- What is known in the first table is known in the second.
  abbrev Knows : Table Revision → Table Revision → Type 0
  Knows rows rows' =
      (k : String) → input_key source key rows ≡ some k → input_key source key rows' ≡ some k

  Knows-same : (rows rows' : Table Revision) → rows' ≡ rows → Knows rows rows'
  Knows-same rows rows' e k h = rw e h

  input_key-snoc : (row : String × Revision) (rows : Table Revision) → Knows rows (rows ++ row ∷ [])
  unfolding find_input
  input_key-snoc row [] k h = cc
  input_key-snoc row ((j, r) ∷ rows) k h = ground (arith, h, input_key-snoc row rows k)

  input_key-delete_rows :
      (other : String) (rows : Table Revision)
      → str_eq other source ≡ false
      → Knows rows (delete_rows (λ r. str_eq r.source_id other) rows)
  unfolding find_input delete_rows
  input_key-delete_rows other [] apart k h = h
  input_key-delete_rows other ((j, r) ∷ rows) apart k h = ground (
    arith,
    h,
    apart,
    eq_iff r.source_id other,
    eq_iff r.source_id source,
    eq_iff other source,
    input_key-delete_rows other rows apart k,
  )

  input_key-update_where :
      (test : String → Revision → Bool) (path hash : String) (rows : Table Revision)
      → Knows rows
          (update_where test (λ r. record r { manifest_path = path; manifest_hash = hash }) rows)
  unfolding find_input update_where
  input_key-update_where test path hash [] k h = h
  input_key-update_where test path hash ((j, r) ∷ rows) k h =
      ground (arith, h, input_key-update_where test path hash rows k)

  after-Knows :
      {A : Type 0} (s : Store) (r : Result (A × Store))
      → ((a : A) (s' : Store) → r ≡ ok (a, s') → Knows s.source_revisions s'.source_revisions)
      → Knows s.source_revisions (after s r).source_revisions
  after-Knows s (ok (a, s')) h = h a s' refl
  after-Knows s (err x) h = Knows-same s.source_revisions s.source_revisions refl

  submit_command-Knows :
      (c : Command) (hash id a : String) (now : ℕ) (s : Store) (r : Admission) (s' : Store)
      → submit_command c hash id a now s ≡ ok (r, s')
      → Knows s.source_revisions s'.source_revisions
  unfolding submit_command
  submit_command-Knows c hash id a now s r s' h = elim (Option-cases (find_command hash s.tasks)) [
    | inl fresh ↦
        let (tasks, attempts, _, _, s'_is, _, _) =
          new_command-ok c hash id a now s s' r (ground arith) in
        Knows-same _ _ (ap (λ (x : Store). x.source_revisions) s'_is)
    | inr (row, found) ↦
        Knows-same _ _
          (ap (λ (x : Store). x.source_revisions) (existing_command-ok row s s' r (ground arith)).0)
  ]

  reap_rows-Knows :
      (now : ℕ) (rows : List (String × Task)) (s : Store)
      → Knows s.source_revisions (reap_rows now rows s).source_revisions
  unfolding reap_rows reap_one
  reap_rows-Knows now [] s = Knows-same s.source_revisions _ refl
  reap_rows-Knows now (row ∷ rows) s = reap_rows-Knows now rows (reap_one now row s)

  publish_revision-Knows :
      (digest : Digest) (lease : AttemptLease) (p : Publication) (checked now later : ℕ) (s : Store)
      (revision : String) (s' : Store)
      → publish_revision digest lease p checked now later s ≡ ok (revision, s')
      → Knows s.source_revisions s'.source_revisions
  publish_revision-Knows digest lease p checked now later s revision s' h =
      elim (publish_revision-cases digest lease p checked now later s revision s' h) [
        | inl (r, found, same) ↦ Knows-same _ _ (ap (λ (x : Store). x.source_revisions) same)
        | inr (fresh, published) ↦ λ k known.
            rw (publish_new-Added digest lease p now later s revision s' published).1
              (input_key-snoc (p.revision_id, new_revision lease p now) s.source_revisions k known)
      ]

  replace_revision_manifest-Knows :
      (r path hash : String) (s : Store) (u : Unit {0}) (s' : Store)
      → replace_revision_manifest r path hash s ≡ ok (u, s')
      → Knows s.source_revisions s'.source_revisions
  unfolding replace_revision_manifest
  replace_revision_manifest-Knows r path hash s u s' h k known =
      let written : s'.source_revisions
          ≡ update_where (λ j _. str_eq j r)
              (λ q. record q { manifest_path = path; manifest_hash = hash }) s.source_revisions =
        ground arith in
      rw written (input_key-update_where (λ j _. str_eq j r) path hash s.source_revisions k known)

  purged-Knows :
      (digest : Digest) (other : String) (rows : List (Revision × Task)) (now : ℕ) (s : Store)
      → str_eq other source ≡ false
      → Knows s.source_revisions
          (request_materialization digest now (purged other rows s)).1.source_revisions
  unfolding request_materialization purged
  purged-Knows digest other rows now s apart = input_key-delete_rows other s.source_revisions apart

  begin_materialization-Knows :
      (now : ℕ) (s : Store)
      → Knows s.source_revisions (begin_materialization now s).1.source_revisions
  unfolding begin_materialization
  begin_materialization-Knows now s = Knows-same _ _ (ground arith)

  prepare_materialization-Knows :
      (token : Token) (index wiki : String) (now : ℕ) (s : Store) (u : Unit {0}) (s' : Store)
      → prepare_materialization token index wiki now s ≡ ok (u, s')
      → Knows s.source_revisions s'.source_revisions
  unfolding prepare_materialization mark_prepared
  prepare_materialization-Knows token index wiki now s u s' h = Knows-same _ _ (ground arith)

  finish_materialization-Knows :
      (token : Token) (index wiki : String) (now : ℕ) (s : Store) (b : Bool) (s' : Store)
      → finish_materialization token index wiki now s ≡ ok (b, s')
      → Knows s.source_revisions s'.source_revisions
  unfolding finish_materialization mark_published
  finish_materialization-Knows token index wiki now s b s' h = Knows-same _ _ (ground arith)

  step-Knows :
      (digest : Digest) (s : Store) (c : Call)
      → forgets source c ≡ false
      → Knows s.source_revisions (step digest s c).source_revisions
  unfolding step mark_claimed mark_renewed mark_cancelled mark_failed mark_requeued mark_finished
      set_ingest_paused request_materialization reap_expired_attempts fail_materialization
  step-Knows digest s (submits c h t a now) _ = after-Knows s _ (submit_command-Knows c h t a now s)
  step-Knows digest s (claims id a owner secs version now) _ = after-Knows s _ λ lease s' e.
      let (t, found, _, _, _, _, _, s'_is) = claim-ok id a owner secs version now s lease s' e in
      Knows-same _ _ (ap (λ (x : Store). x.source_revisions) s'_is)
  step-Knows digest s (pauses p now) _ = Knows-same _ _ refl
  step-Knows digest s (renews lease secs now) _ = after-Knows s _ λ lease' s' e.
      Knows-same _ _
        (ap (λ (x : Store). x.source_revisions) (renew-ok lease secs now s lease' s' e).6)
  step-Knows digest s (cancels id expected now) _ = after-Knows s _ λ t' s' e.
      let (t, found, s'_is) = request_cancel-ok id expected now s t' s' e in
      elim (Bool-cases (is_settled t.state)) [
        | inl over ↦ rw (s'_is, over) (Knows-same s.source_revisions _ refl)
        | inr live ↦ rw (s'_is, live) (Knows-same s.source_revisions _ refl)
      ]
  step-Knows digest s (fails_queued id a x r now) _ = after-Knows s _ λ t' s' e.
      Knows-same _ _
        (ap (λ (y : Store). y.source_revisions) (fail_queued_task-ok id a x r now s t' s' e).4)
  step-Knows digest s (recovers id expected a checked now) _ = after-Knows s _ λ r s' e.
      Knows-same _ _ (
        ap (λ (y : Store). y.source_revisions)
          (admit_recovery-ok id expected a checked now s s' r e).8)
  step-Knows digest s (finishes lease state r x checked now) _ = after-Knows s _ λ t' s' e.
      Knows-same _ _
        (ap (λ (y : Store). y.source_revisions) (finish-ok lease state r x checked now s t' s' e).5)
  step-Knows digest s (reaps now) _ = reap_rows-Knows now (expired_tasks now s.tasks) s
  step-Knows digest s (publishes lease p checked now later) _ =
      after-Knows s _ (publish_revision-Knows digest lease p checked now later s)
  step-Knows digest s (purges other now) apart = after-Knows s _ λ paths s' e.
      rw (purge_source-ok digest other now s paths s' e) (purged-Knows digest other _ now s apart)
  step-Knows digest s (replaces_manifest r path hash) _ =
      after-Knows s _ (replace_revision_manifest-Knows r path hash s)
  step-Knows digest s (requests now) _ = Knows-same _ _ refl
  step-Knows digest s (begins now) _ = begin_materialization-Knows now s
  step-Knows digest s (prepares token index wiki now) _ =
      after-Knows s _ (prepare_materialization-Knows token index wiki now s)
  step-Knows digest s (completes token index wiki now) _ =
      after-Knows s _ (finish_materialization-Knows token index wiki now s)
  step-Knows digest s (breaks token x now) _ = Knows-same _ _ (ground arith)

  pub run-Knows :
      (digest : Digest) (s : Store) (cs : List Call)
      → any (forgets source) cs ≡ false
      → Knows s.source_revisions (run digest s cs).source_revisions
  unfolding run
  run-Knows digest s [] clear k h = h
  run-Knows digest s (c ∷ cs) clear k h =
      run-Knows digest (step digest s c) cs (ground (arith, clear)) k
        (step-Knows digest s c (ground (arith, clear)) k h)
