-- ===== src/Ingest/Execution/Working.antt =====
-- runtime/ingest_executor.py: what an attempt does to its lease and to the store before it is ended.
use knoarbor.Prelude.{
  ℕ, ◌≡◌, refl, sym, ap, false, [], ◌∷◌, Result, ok, err, Bool-cases, Result-cases, inl, inr,
}
use knoarbor.Json.{Fields}
use knoarbor.Ingest.State.{AttemptLease, Store}
use knoarbor.Ingest.Tasks.{renew}
use knoarbor.Ingest.Materialize.{Digest, is_clean}
use knoarbor.Ingest.History.{run, renews, step, after}
use knoarbor.Ingest.Outcomes.{renew-ok}
use knoarbor.Ingest.Materializer.{Vault, Surroundings}
use knoarbor.Ingest.Materializer.Tracing.{
  Reaches, Reaches-refl, Reaches-run, Reaches-trans, reconcile-Reaches,
}
use knoarbor.Ingest.Session.{World, Session, renew_session}
use knoarbor.Ingest.Execution.{
  Circumstances, Service, breaks, returns, materialize, Worked, renewed, served, left_session, left,
  work,
}

module _ (digest : Digest) where
  -- The session keeps the task, the attempt and the epoch of its lease, and only calls change the store.
  abbrev pub Keeps : Session → World → Worked × Session × World → Type 0
  Keeps session world r =
      (r.1.lease.task_id ≡ session.lease.task_id)
      × (r.1.lease.attempt_id ≡ session.lease.attempt_id)
      × (r.1.lease.epoch ≡ session.lease.epoch)
      × Reaches digest world.vault.store r.2.vault.store

  materialize-Reaches :
      (w : Surroundings) (v : Vault) → Reaches digest v.store (materialize digest w v).0.store
  unfolding materialize
  materialize-Reaches w v = elim (Bool-cases (is_clean v.store.materialization.phase)) [
    | inl clean ↦ rw clean (Reaches-refl digest v.store)
    | inr stale ↦ rw stale (reconcile-Reaches digest false w v)
  ]

  -- What a renewal that returns keeps.
  abbrev pub Renews : Session → World → Result (Session × World) → Type 0
  Renews session world (err e) = Unit
  Renews session world (ok (session', world')) =
      (session'.lease.task_id ≡ session.lease.task_id)
      × (session'.lease.attempt_id ≡ session.lease.attempt_id)
      × (session'.lease.epoch ≡ session.lease.epoch)
      × Reaches digest world.vault.store world'.vault.store

  renew-Reaches :
      (lease lease' : AttemptLease) (secs now : ℕ) (s s' : Store)
      → renew lease secs now s ≡ ok (lease', s')
      → Reaches digest s s'
  unfolding run step
  renew-Reaches lease lease' secs now s s' h = (renews lease secs now ∷ [], sym (ap (after s) h))

  renew_session-Renews :
      (now : ℕ) (session : Session) (world : World)
      → Renews session world (renew_session now session world)
  unfolding renew_session
  renew_session-Renews now session world =
      elim (Result-cases (renew session.lease session.lease_seconds now world.vault.store)) [
        | inl (e, failed) ↦ rw (Renews, failed) tt
        | inr ((lease, s), ok_is) ↦
            let (task, _, _, _, _, same, _) =
              renew-ok session.lease session.lease_seconds now world.vault.store lease s ok_is in
            rw (Renews, ok_is)
              (
                ap (λ (l : AttemptLease). l.task_id) same,
                ap (λ (l : AttemptLease). l.attempt_id) same,
                ap (λ (l : AttemptLease). l.epoch) same,
                renew-Reaches session.lease lease session.lease_seconds now world.vault.store s
                    ok_is,
              )
      ]

  renewed-Keeps :
      (c : Circumstances) (dump metrics : Fields) (session : Session) (world : World)
      (r : Result (Session × World))
      → Renews session world r
      → Keeps session world (renewed digest c dump metrics world session r)
  renewed-Keeps c dump metrics session world (err e) h =
      (refl, refl, refl, Reaches-refl digest world.vault.store)
  renewed-Keeps c dump metrics session world (ok (session', world'))
        (task, attempt, epoch, reached) =
      (
        task,
        attempt,
        epoch,
        Reaches-trans digest world.vault.store world'.vault.store _ reached
            (materialize-Reaches c.surroundings world'.vault),
      )

  served-Keeps :
      (c : Circumstances) (session : Session) (world : World) (service : Service)
      → Keeps session world (served digest c world session service)
  served-Keeps c session world (breaks f) =
      (refl, refl, refl, Reaches-refl digest world.vault.store)
  served-Keeps c session world (returns dump metrics) = elim (Bool-cases c.is_stopped_after) [
    | inl stopped ↦ rw stopped (refl, refl, refl, Reaches-refl digest world.vault.store)
    | inr going ↦ rw going (
        renewed-Keeps c dump metrics session world (renew_session c.renewed session world)
          (renew_session-Renews c.renewed session world))
  ]

  pub work-Keeps :
      (c : Circumstances) (session : Session) (world : World)
      → Keeps session world (work digest c session world)
  unfolding work
  work-Keeps c session world = elim (Bool-cases c.is_stopped_before) [
    | inl stopped ↦ rw stopped (refl, refl, refl, Reaches-refl digest world.vault.store)
    | inr going ↦
        let s = run digest world.vault.store c.calls in
        let (task, attempt, epoch, reached) =
          served-Keeps c (left_session c session) (left digest c session world) c.service in
        rw going (
          task,
          attempt,
          epoch,
          Reaches-trans digest world.vault.store s _ (Reaches-run digest world.vault.store c.calls)
              reached,
        )
  ]
