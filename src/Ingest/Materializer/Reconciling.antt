-- ===== src/Ingest/Materializer/Reconciling.antt =====
-- storage/materialization.py: the published index after a reconciliation that returns.
use knoarbor.Prelude.{
  ℕ, String, ◌≡◌, refl, sym, ap, ◌∙◌, Bool, true, false, not, ◌&&◌, ◌||◌, Option, none, some,
  Result, ok, err, eq_refl, str_eq, arith, Bool-cases, ◌⊎◌, inl, inr, if◌then◌else◌, ◌==◌,
}
use mathlib.Core.Path.{subst}
use knoarbor.Text.{is_empty}
use knoarbor.Ingest.State.{Store, Token, Materialization}
use knoarbor.Ingest.Materialize.{
  Digest, is_clean, is_prepared, is_current, request_materialization, begin_materialization,
  prepare_materialization, finish_materialization, mark_published, column_is,
}
use knoarbor.Ingest.History.{run}
use knoarbor.Ingest.Materializer.{
  current, Vault, Attempted, done, broke, Built, index, not_built, Shown, shown, not_shown,
  Surroundings, Outcome, settled, raised, column_text, needs_rebuild, clean_state, returned,
  finished, requested, is_stale, publish, resume_prepared, set_aside, overtaken, with_index,
  prepared, build, begun, reconcile,
}

-- A reconciliation that returns a clean state leaves the index published that the store names.
abbrev pub LeavesShown : Vault × Outcome → Type 0
LeavesShown (v, settled state) = is_clean state.phase ≡ true → needs_rebuild v ≡ false
LeavesShown (v, raised e) = Unit

shown-fresh : (g : String) → (not (is_empty g) && not (str_eq g g)) ≡ false
shown-fresh g = let same = eq_refl g in ground (arith, same)

returned-LeavesShown :
    (all : Bool) (token : Token) (generation wiki : String) (now : ℕ) (s : Store) (v : Vault)
    → v.snapshot ≡ current generation
    → LeavesShown
        (returned all (record v { store = mark_published all token generation wiki now s }))
unfolding mark_published
returned-LeavesShown true token generation wiki now s v shows =
    λ _. rw shows (shown-fresh generation)
returned-LeavesShown false token generation wiki now s v shows = λ h. cc

finished-LeavesShown :
    (token : Token) (generation wiki : String) (now : ℕ) (s : Store) (v : Vault)
    → v.snapshot ≡ current generation
    → LeavesShown (finished (finish_materialization token generation wiki now s) v)
unfolding finish_materialization
finished-LeavesShown token generation wiki now s v shows =
    let m = s.materialization in
    elim (Bool-cases (
      is_prepared m.phase
      && column_is m.prepared_index_generation generation
      && column_is m.prepared_wiki_fingerprint wiki)) [
        | inl ready ↦
            rw ready (returned-LeavesShown (is_current token m) token generation wiki now s v shows)
        | inr changed ↦ rw changed tt
      ]

module _ (digest : Digest) where
  publish-LeavesShown :
      (token : Token) (generation wiki : String) (w : Surroundings) (p : Shown) (v : Vault)
      → LeavesShown (publish digest token generation wiki w p v)
  publish-LeavesShown token generation wiki w (not_shown e left) v = tt
  publish-LeavesShown token generation wiki w shown v =
      finished-LeavesShown token generation wiki w.now (run digest v.store w.late)
        (record v { store = run digest v.store w.late; snapshot = current generation }) refl

  requested-LeavesShown :
      (now : ℕ) (v : Vault) → LeavesShown (returned false (requested digest now v))
  unfolding request_materialization
  requested-LeavesShown now v = λ h. cc

  set_aside-LeavesShown :
      (now : ℕ) (a : Attempted) (v : Vault) → LeavesShown (set_aside digest now a v)
  set_aside-LeavesShown now (broke e) v = tt
  set_aside-LeavesShown now done v = requested-LeavesShown now v

  resume_prepared-LeavesShown :
      (w : Surroundings) (v : Vault) → LeavesShown (resume_prepared digest w v)
  unfolding resume_prepared
  resume_prepared-LeavesShown w v =
      let state = v.store.materialization in
      let generation = column_text state.prepared_index_generation in
      let fingerprint = column_text state.prepared_wiki_fingerprint in
      elim (Bool-cases (is_empty generation || is_empty fingerprint)) [
        | inl incomplete ↦ rw incomplete tt
        | inr complete ↦ elim (Bool-cases (str_eq w.wiki_resumed fingerprint)) [
          | inl same ↦
              rw (complete, same) (publish-LeavesShown _ generation fingerprint w w.publishing v)
          | inr changed ↦ rw (complete, changed) (set_aside-LeavesShown w.now w.discarded v)
        ]
      ]

  prepared-LeavesShown :
      (token : Token) (generation : String) (w : Surroundings) (r : Result (Unit {0} × Store))
      (v : Vault)
      → LeavesShown (prepared digest token generation w r v)
  prepared-LeavesShown token generation w (err e) v = tt
  prepared-LeavesShown token generation w (ok (u, s)) v =
      publish-LeavesShown token generation w.wiki_after w w.publishing (record v { store = s })

  overtaken-LeavesShown :
      (token : Token) (now : ℕ) (a : Attempted) (v : Vault)
      → LeavesShown (overtaken digest token now a v)
  overtaken-LeavesShown token now (broke e) v = tt
  overtaken-LeavesShown token now done v = requested-LeavesShown now v

  with_index-LeavesShown :
      (token : Token) (w : Surroundings) (b : Built) (v : Vault)
      → LeavesShown (with_index digest token w b v)
  with_index-LeavesShown token w (not_built e) v = tt
  with_index-LeavesShown token w (index generation) v =
      elim (Bool-cases (str_eq w.wiki_before w.wiki_after)) [
        | inl same ↦ rw same (
            prepared-LeavesShown token generation w
              (prepare_materialization token generation w.wiki_after w.now v.store) v)
        | inr changed ↦ rw changed (overtaken-LeavesShown token w.now w.discarded v)
      ]

  build-LeavesShown :
      (token : Token) (w : Surroundings) (a : Attempted) (v : Vault)
      → LeavesShown (build digest token w a v)
  build-LeavesShown token w (broke e) v = tt
  build-LeavesShown token w done v = with_index-LeavesShown token w w.built v

  pub begin-clean :
      (now : ℕ) (s s' : Store)
      → begin_materialization now s ≡ (none, s')
      → (is_clean s.materialization.phase ≡ true) × (s' ≡ s)
  unfolding begin_materialization
  begin-clean now s s' h =
      elim (Bool-cases (
        is_clean s.materialization.phase
        && s.materialization.published_epoch == s.materialization.requested_epoch)) [
          | inl clean_now ↦
              let same : ◌≡◌ {A = Option Token × Store} (none, s) (none, s') = rw clean_now at h in
              (ground (arith, clean_now), ap (λ (p : Option Token × Store). p.1) (sym same))
          | inr other ↦ absurd (ground (arith, rw other at h))
        ]

  clean_state-LeavesShown : (v : Vault) → needs_rebuild v ≡ false → LeavesShown (clean_state v)
  clean_state-LeavesShown v fresh = elim (Bool-cases (is_clean v.store.materialization.phase)) [
    | inl clean_now ↦ rw clean_now (λ _. fresh)
    | inr other ↦ rw other (λ h. cc)
  ]

  begun-LeavesShown :
      (w : Surroundings) (v : Vault) (b : Option Token × Store)
      → begin_materialization w.now v.store ≡ b
      → (needs_rebuild v ≡ false) ⊎ (is_clean v.store.materialization.phase ≡ false)
      → LeavesShown (begun digest w b v)
  begun-LeavesShown w v (some token, s) e h =
      build-LeavesShown token w w.projections (record v { store = run digest s w.during })
  begun-LeavesShown w v (none, s) e (inr other) = cc (sym other ∙ (begin-clean w.now v.store s e).0)
  begun-LeavesShown w v (none, s) e (inl fresh) =
      subst (λ (x : Store). LeavesShown (clean_state (record v { store = x })))
        (sym (begin-clean w.now v.store s e).1) (clean_state-LeavesShown v fresh)

  round-LeavesShown :
      (w : Surroundings) (v : Vault)
      → (needs_rebuild v ≡ false) ⊎ (is_clean v.store.materialization.phase ≡ false)
      → LeavesShown (
          if is_prepared v.store.materialization.phase
          then resume_prepared digest w v
          else begun digest w (begin_materialization w.now v.store) v)
  round-LeavesShown w v h = elim (Bool-cases (is_prepared v.store.materialization.phase)) [
    | inl ready ↦ rw ready (resume_prepared-LeavesShown w v)
    | inr other ↦ rw other (begun-LeavesShown w v (begin_materialization w.now v.store) refl h)
  ]

  requested-dirty :
      (now : ℕ) (v : Vault) → is_clean (requested digest now v).store.materialization.phase ≡ false
  unfolding request_materialization
  requested-dirty now v = refl

  reconcile-LeavesShown :
      (force : Bool) (w : Surroundings) (v : Vault) → LeavesShown (reconcile digest force w v)
  unfolding reconcile
  reconcile-LeavesShown force w v = elim (Bool-cases (is_stale digest force w v)) [
    | inl stale ↦
        rw stale (round-LeavesShown w (requested digest w.now v) (inr (requested-dirty w.now v)))
    | inr fresh ↦ rw fresh (round-LeavesShown w v (inl (ground (arith, fresh))))
  ]

  -- Whatever a reconciliation meets, and whatever other processes call on the store while it builds and
  -- publishes: when it returns a clean state, the index that is published is the one that the store
  -- names.
  pub reconcile-shown :
      (force : Bool) (w : Surroundings) (v v' : Vault) (state : Materialization)
      → reconcile digest force w v ≡ (v', settled state)
      → is_clean state.phase ≡ true
      → needs_rebuild v' ≡ false
  reconcile-shown force w v v' state returns clean_state_is =
      subst LeavesShown returns (reconcile-LeavesShown force w v) clean_state_is
