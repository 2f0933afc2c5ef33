-- ===== src/Ingest/Freshness.antt =====
-- runtime/transactional_ingest.py: what `phase='clean'` means for the published indexes.
use knoarbor.Prelude.{
  ℕ, String, ◌≡◌, refl, ap, ◌∙◌, Bool, some, List, [], ◌∷◌, arith, eq_iff, inl, inr, Result, ok,
  err,
}
use knoarbor.Ingest.State.{AttemptLease, Store, Token, clean, active_facts, Materialization}
use knoarbor.Ingest.Materialize.{
  Digest, request_materialization, begin_materialization, prepare_materialization,
  finish_materialization, fail_materialization, mark_prepared, mark_published,
}
use knoarbor.Ingest.Publish.{Publication, publish_revision, publish_new, settle_publication}
use knoarbor.Ingest.OutcomesMore.{publish_revision-ok}
use knoarbor.Ingest.Publishing.{IsRequested, publish_new-ok}
use knoarbor.Ingest.Purging.{purge_source-ok}
use knoarbor.Ingest.Facts.{
  SameFacts, submit_command-SameFacts, claim-SameFacts, renew-SameFacts, request_cancel-SameFacts,
  fail_queued_task-SameFacts, admit_recovery-SameFacts, finish-SameFacts,
  set_ingest_paused-SameFacts, reap_expired_attempts-SameFacts, replace_revision_manifest-SameFacts,
}
use knoarbor.Ingest.History.{
  Call, submits, claims, pauses, renews, cancels, fails_queued, recovers, finishes, reaps,
  publishes, purges, replaces_manifest, requests, begins, prepares, completes, breaks, step, run,
  init, after,
}

-- The requested generation is that of the store's own facts, and a clean store has published it.
pub record IsFresh (digest : Digest) (s : Store) : Type 0 where
  pub requested : IsRequested digest s
  pub published :
      s.materialization.phase ≡ clean
      → (s.materialization.published_fact_generation
          ≡ some s.materialization.requested_fact_generation)
        × (s.materialization.published_epoch ≡ s.materialization.requested_epoch)

SameFacts-IsFresh :
    (digest : Digest) (s s' : Store) → SameFacts s s' → IsFresh digest s → IsFresh digest s'
unfolding active_facts
SameFacts-IsFresh digest s s' h v = record {
  requested = rw (h.materialization, h.heads, h.windows) v.requested;
  published = λ e.
      rw h.materialization
        (v.published (cc (ap (λ (m : Materialization). m.phase) h.materialization, e)));
}

after-IsFresh :
    {A : Type 0} (digest : Digest) (s : Store) (r : Result (A × Store))
    → IsFresh digest s
    → ((a : A) (s' : Store) → r ≡ ok (a, s') → IsFresh digest s')
    → IsFresh digest (after s r)
after-IsFresh digest s (ok (a, s')) v h = h a s' refl
after-IsFresh digest s (err x) v h = v

after-SameFacts :
    {A : Type 0} (digest : Digest) (s : Store) (r : Result (A × Store))
    → IsFresh digest s
    → ((a : A) (s' : Store) → r ≡ ok (a, s') → SameFacts s s')
    → IsFresh digest (after s r)
after-SameFacts digest s r v h =
    after-IsFresh digest s r v (λ a s' e. SameFacts-IsFresh digest s s' (h a s' e) v)

-- A request is made of the facts as they are, and makes the store dirty.
pub request-IsFresh :
    (digest : Digest) (now : ℕ) (s : Store)
    → IsFresh digest (request_materialization digest now s).1
unfolding request_materialization active_facts
request-IsFresh digest now s = record { requested = refl; published = λ e. cc }

begin_materialization-IsFresh :
    (digest : Digest) (now : ℕ) (s : Store)
    → IsFresh digest s
    → IsFresh digest (begin_materialization now s).1
unfolding begin_materialization active_facts
begin_materialization-IsFresh digest now s v = record {
  requested = ground (arith, v.requested);
  published = λ e. ground (arith, v.published);
}

prepare_materialization-IsFresh :
    (digest : Digest) (token : Token) (index wiki : String) (now : ℕ) (s : Store) (u : Unit {0})
    (s' : Store)
    → IsFresh digest s
    → prepare_materialization token index wiki now s ≡ ok (u, s')
    → IsFresh digest s'
unfolding prepare_materialization mark_prepared active_facts
prepare_materialization-IsFresh digest token index wiki now s u s' v h = record {
  requested = ground (arith, v.requested);
  published = λ e. ground (arith, v.published);
}

finish_materialization-IsFresh :
    (digest : Digest) (token : Token) (index wiki : String) (now : ℕ) (s : Store) (b : Bool)
    (s' : Store)
    → IsFresh digest s
    → finish_materialization token index wiki now s ≡ ok (b, s')
    → IsFresh digest s'
unfolding finish_materialization mark_published active_facts
finish_materialization-IsFresh digest token index wiki now s b s' v h = record {
  requested = ground (arith, v.requested);
  published = λ e. ground (
    arith,
    v.published,
    eq_iff s.materialization.requested_fact_generation token.fact_generation,
  );
}

fail_materialization-IsFresh :
    (digest : Digest) (token : Token) (x : String) (now : ℕ) (s : Store)
    → IsFresh digest s
    → IsFresh digest (fail_materialization token x now s)
unfolding fail_materialization active_facts
fail_materialization-IsFresh digest token x now s v = record {
  requested = ground (arith, v.requested);
  published = λ e. ground (arith, v.published);
}

publish_new-IsFresh :
    (digest : Digest) (lease : AttemptLease) (p : Publication) (now later : ℕ) (s : Store)
    (revision : String) (s' : Store)
    → publish_new digest lease p now later s ≡ ok (revision, s')
    → IsFresh digest s'
unfolding settle_publication
publish_new-IsFresh digest lease p now later s revision s' h =
    let (s₁, cs, _, _, _, s'_is) = publish_new-ok digest lease p now later s revision s' h in
    rw s'_is (request-IsFresh digest later _)

publish_revision-IsFresh :
    (digest : Digest) (lease : AttemptLease) (p : Publication) (checked now later : ℕ) (s : Store)
    (revision : String) (s' : Store)
    → IsFresh digest s
    → publish_revision digest lease p checked now later s ≡ ok (revision, s')
    → IsFresh digest s'
publish_revision-IsFresh digest lease p checked now later s revision s' v h =
    let (t, _, _, _, outcome) =
      publish_revision-ok digest lease p checked now later s revision s' h in
    elim outcome [
      | inl same ↦ rw same v
      | inr new ↦ publish_new-IsFresh digest lease p now later s revision s' new
    ]

-- Every call keeps the store fresh.
pub step-IsFresh :
    (digest : Digest) (s : Store) (c : Call) → IsFresh digest s → IsFresh digest (step digest s c)
unfolding step
step-IsFresh digest s (submits c h t a now) v =
    after-SameFacts digest s _ v (submit_command-SameFacts c h t a now s)
step-IsFresh digest s (claims id a owner secs version now) v =
    after-SameFacts digest s _ v (claim-SameFacts id a owner secs version now s)
step-IsFresh digest s (pauses p now) v =
    SameFacts-IsFresh digest s _ (set_ingest_paused-SameFacts p now s) v
step-IsFresh digest s (renews lease secs now) v =
    after-SameFacts digest s _ v (renew-SameFacts lease secs now s)
step-IsFresh digest s (cancels id expected now) v =
    after-SameFacts digest s _ v (request_cancel-SameFacts id expected now s)
step-IsFresh digest s (fails_queued id a x r now) v =
    after-SameFacts digest s _ v (fail_queued_task-SameFacts id a x r now s)
step-IsFresh digest s (recovers id expected a checked now) v =
    after-SameFacts digest s _ v (admit_recovery-SameFacts id expected a checked now s)
step-IsFresh digest s (finishes lease state r x checked now) v =
    after-SameFacts digest s _ v (finish-SameFacts lease state r x checked now s)
step-IsFresh digest s (reaps now) v =
    SameFacts-IsFresh digest s _ (reap_expired_attempts-SameFacts now s) v
step-IsFresh digest s (publishes lease p checked now later) v =
    after-IsFresh digest s _ v
      (λ r s' e. publish_revision-IsFresh digest lease p checked now later s r s' v e)
step-IsFresh digest s (purges source now) v =
    after-IsFresh digest s _ v
      λ r s' e. rw (purge_source-ok digest source now s r s' e) (request-IsFresh digest now _)
step-IsFresh digest s (replaces_manifest r path hash) v =
    after-SameFacts digest s _ v (replace_revision_manifest-SameFacts r path hash s)
step-IsFresh digest s (requests now) v = request-IsFresh digest now s
step-IsFresh digest s (begins now) v = begin_materialization-IsFresh digest now s v
step-IsFresh digest s (prepares token index wiki now) v =
    after-IsFresh digest s _ v
      (λ u s' e. prepare_materialization-IsFresh digest token index wiki now s u s' v e)
step-IsFresh digest s (completes token index wiki now) v =
    after-IsFresh digest s _ v
      (λ b s' e. finish_materialization-IsFresh digest token index wiki now s b s' v e)
step-IsFresh digest s (breaks token x now) v = fail_materialization-IsFresh digest token x now s v

run-IsFresh :
    (digest : Digest) (s : Store) (cs : List Call)
    → IsFresh digest s
    → IsFresh digest (run digest s cs)
unfolding run
run-IsFresh digest s [] v = v
run-IsFresh digest s (c ∷ cs) v =
    run-IsFresh digest (step digest s c) cs (step-IsFresh digest s c v)

init-IsFresh : (digest : Digest) (now : ℕ) → IsFresh digest (init digest now)
unfolding init active_facts
init-IsFresh digest now = record { requested = refl; published = λ e. cc }

-- After any history of calls on an empty vault whose phase ends up clean, the published fact
-- generation is the digest of the source and window heads that the store holds then.
pub clean_is_current :
    (digest : Digest) (now : ℕ) (cs : List Call)
    → (run digest (init digest now) cs).materialization.phase ≡ clean
    → (run digest (init digest now) cs).materialization.published_fact_generation
      ≡ some (digest (active_facts (run digest (init digest now) cs)))
clean_is_current digest now cs is_clean =
    let v = run-IsFresh digest (init digest now) cs (init-IsFresh digest now) in
    (v.published is_clean).0 ∙ ap some v.requested
