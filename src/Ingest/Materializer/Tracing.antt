-- ===== src/Ingest/Materializer/Tracing.antt =====
-- storage/materialization.py: the calls by which a reconciliation changes the store.
use mathlib.Core.Path.{subst}
use knoarbor.Prelude.{
  ℕ, String, ◌≡◌, refl, sym, ap, ◌∙◌, Bool, true, false, ◌||◌, Option, none, some, List, [], ◌∷◌,
  ◌++◌ as append, Result, ok, err, str_eq, Bool-cases, inl, inr, if◌then◌else◌,
}
use knoarbor.Text.{is_empty}
use knoarbor.Ingest.State.{Store, Token}
use knoarbor.Ingest.Materialize.{
  Digest, is_clean, is_prepared, begin_materialization, prepare_materialization,
  finish_materialization,
}
use knoarbor.Ingest.History.{Call, requests, begins, prepares, completes, breaks, run, step, after}
use knoarbor.Ingest.Materializer.{
  Vault, current, Attempted, done, broke, Built, index, not_built, Shown, shown, not_shown,
  Surroundings, column_text, fault_text, clean_state, finished, requested, is_stale, publish,
  resume_prepared, set_aside, overtaken, with_index, failed, prepared, build, begun, reconcile,
}

module _ (digest : Digest) where
  -- The calls that lead from a store to another.
  abbrev pub Reaches : Store → Store → Type 0
  Reaches s s' = (calls : List Call) × (s' ≡ run digest s calls)

  run-append :
      (s : Store) (before after : List Call)
      → run digest s (append before after) ≡ run digest (run digest s before) after
  unfolding run
  run-append s [] after = refl
  run-append s (c ∷ cs) after = run-append (step digest s c) cs after

  pub Reaches-refl : (s : Store) → Reaches s s
  unfolding run
  Reaches-refl s = ([], refl)

  pub Reaches-step : (s : Store) (c : Call) → Reaches s (step digest s c)
  unfolding run
  Reaches-step s c = (c ∷ [], refl)

  pub Reaches-run : (s : Store) (calls : List Call) → Reaches s (run digest s calls)
  Reaches-run s calls = (calls, refl)

  pub Reaches-trans : (a b c : Store) → Reaches a b → Reaches b c → Reaches a c
  Reaches-trans a b c (before, e) (after, e') =
      (append before after, e' ∙ (ap (λ s. run digest s after) e ∙ sym (run-append a before after)))

  clean_state-store : (v : Vault) → (clean_state v).0.store ≡ v.store
  clean_state-store v = elim (Bool-cases (is_clean v.store.materialization.phase)) [
    | inl clean ↦ rw clean refl
    | inr open_round ↦ rw open_round refl
  ]

  finished-store :
      (r : Result (Bool × Store)) (v : Vault) → (finished r v).0.store ≡ after v.store r
  finished-store (ok (true, s)) v = clean_state-store (record v { store = s })
  finished-store (ok (false, s)) v = refl
  finished-store (err e) v = refl

  requested-Reaches : (now : ℕ) (v : Vault) → Reaches v.store (requested digest now v).store
  unfolding run
  requested-Reaches now v = (requests now ∷ [], refl)

  publish-Reaches :
      (token : Token) (generation wiki : String) (w : Surroundings) (p : Shown) (v : Vault)
      → Reaches v.store (publish digest token generation wiki w p v).0.store
  unfolding step
  publish-Reaches token generation wiki w (not_shown e left) v = Reaches-refl v.store
  publish-Reaches token generation wiki w shown v =
      let s = run digest v.store w.late in
      subst (Reaches v.store)
        (sym (
          finished-store (finish_materialization token generation wiki w.now s)
            (record v { store = s; snapshot = current generation })))
        (Reaches-trans v.store s _ (Reaches-run v.store w.late)
          (Reaches-step s (completes token generation wiki w.now)))

  set_aside-Reaches :
      (now : ℕ) (a : Attempted) (v : Vault) → Reaches v.store (set_aside digest now a v).0.store
  set_aside-Reaches now (broke e) v = Reaches-refl v.store
  set_aside-Reaches now done v = requested-Reaches now v

  resume_prepared-Reaches :
      (w : Surroundings) (v : Vault) → Reaches v.store (resume_prepared digest w v).0.store
  unfolding resume_prepared
  resume_prepared-Reaches w v =
      let state = v.store.materialization in
      let generation = column_text state.prepared_index_generation in
      let fingerprint = column_text state.prepared_wiki_fingerprint in
      elim (Bool-cases (is_empty generation || is_empty fingerprint)) [
        | inl incomplete ↦ rw incomplete (Reaches-refl v.store)
        | inr complete ↦ elim (Bool-cases (str_eq w.wiki_resumed fingerprint)) [
          | inl same ↦
              rw (complete, same) (publish-Reaches _ generation fingerprint w w.publishing v)
          | inr changed ↦ rw (complete, changed) (set_aside-Reaches w.now w.discarded v)
        ]
      ]

  failed-Reaches :
      (token : Token) (e : String) (now : ℕ) (v : Vault)
      → Reaches v.store (failed digest token e now v).0.store
  unfolding step
  failed-Reaches token e now v = Reaches-step v.store (breaks token e now)

  prepared-Reaches :
      (token : Token) (generation : String) (w : Surroundings) (r : Result (Unit {0} × Store))
      (v : Vault)
      → Reaches v.store (after v.store r)
      → Reaches v.store (prepared digest token generation w r v).0.store
  prepared-Reaches token generation w (err e) v h = failed-Reaches token (fault_text e) w.now v
  prepared-Reaches token generation w (ok (u, s)) v h =
      Reaches-trans v.store s _ h
        (publish-Reaches token generation w.wiki_after w w.publishing (record v { store = s }))

  overtaken-Reaches :
      (token : Token) (now : ℕ) (a : Attempted) (v : Vault)
      → Reaches v.store (overtaken digest token now a v).0.store
  overtaken-Reaches token now (broke e) v = failed-Reaches token e now v
  overtaken-Reaches token now done v = requested-Reaches now v

  with_index-Reaches :
      (token : Token) (w : Surroundings) (b : Built) (v : Vault)
      → Reaches v.store (with_index digest token w b v).0.store
  unfolding step
  with_index-Reaches token w (not_built e) v = failed-Reaches token e w.now v
  with_index-Reaches token w (index generation) v =
      elim (Bool-cases (str_eq w.wiki_before w.wiki_after)) [
        | inl same ↦ rw same (
            prepared-Reaches token generation w
              (prepare_materialization token generation w.wiki_after w.now v.store) v
              (Reaches-step v.store (prepares token generation w.wiki_after w.now)))
        | inr changed ↦ rw changed (overtaken-Reaches token w.now w.discarded v)
      ]

  build-Reaches :
      (token : Token) (w : Surroundings) (a : Attempted) (v : Vault)
      → Reaches v.store (build digest token w a v).0.store
  build-Reaches token w (broke e) v = failed-Reaches token e w.now v
  build-Reaches token w done v = with_index-Reaches token w w.built v

  begun-Reaches :
      (w : Surroundings) (b : Option Token × Store) (v : Vault)
      → Reaches v.store b.1
      → Reaches v.store (begun digest w b v).0.store
  begun-Reaches w (none, s) v h =
      subst (Reaches v.store) (sym (clean_state-store (record v { store = s }))) h
  begun-Reaches w (some token, s) v h =
      let s' = run digest s w.during in
      Reaches-trans v.store s _ h (
        Reaches-trans s s' _ (Reaches-run s w.during)
          (build-Reaches token w w.projections (record v { store = s' })))

  round-Reaches :
      (w : Surroundings) (v : Vault)
      → Reaches v.store
          (if is_prepared v.store.materialization.phase
            then resume_prepared digest w v
            else begun digest w (begin_materialization w.now v.store) v).0.store
  unfolding step
  round-Reaches w v = elim (Bool-cases (is_prepared v.store.materialization.phase)) [
    | inl ready ↦ rw ready (resume_prepared-Reaches w v)
    | inr other ↦ rw other (
        begun-Reaches w (begin_materialization w.now v.store) v
          (Reaches-step v.store (begins w.now)))
  ]

  -- Whatever a reconciliation meets, the store that it leaves is one that calls of the store lead to.
  pub reconcile-Reaches :
      (force : Bool) (w : Surroundings) (v : Vault)
      → Reaches v.store (reconcile digest force w v).0.store
  unfolding reconcile
  reconcile-Reaches force w v = elim (Bool-cases (is_stale digest force w v)) [
    | inl stale ↦ rw stale (
        Reaches-trans v.store (requested digest w.now v).store _ (requested-Reaches w.now v)
          (round-Reaches w (requested digest w.now v)))
    | inr fresh ↦ rw fresh (round-Reaches w v)
  ]
