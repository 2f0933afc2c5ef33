-- ===== src/Ingest/Rounds.antt =====
-- runtime/transactional_ingest.py: a round of materialization, from `begin_materialization` to
-- `finish_materialization`, alone and with facts that change under it.
use knoarbor.Prelude.{ℕ, ◌≤◌, String, ◌≡◌, refl, true, none, some, arith, eq_refl, ok, ◌==◌}
use knoarbor.Ingest.State.{Store, Token, clean}
use knoarbor.Ingest.Materialize.{
  begin_materialization, prepare_materialization, finish_materialization, is_current, mark_prepared,
  mark_published,
}

pub begun-current :
    (now : ℕ) (s s₁ : Store) (token : Token)
    → begin_materialization now s ≡ (some token, s₁)
    → is_current token s₁.materialization ≡ true
unfolding begin_materialization
begun-current now s s₁ token h =
    ground
      (arith, eq_refl token.fact_generation, eq_refl s₁.materialization.requested_fact_generation)

pub prepare-current :
    (token : Token) (index wiki : String) (now : ℕ) (s : Store)
    → is_current token s.materialization ≡ true
    → prepare_materialization token index wiki now s ≡ ok (tt, mark_prepared index wiki now s)
unfolding prepare_materialization
prepare-current token index wiki now s h = rw h refl

pub finish-prepared :
    (token : Token) (index wiki : String) (now before : ℕ) (s : Store)
    → is_current token s.materialization ≡ true
    → finish_materialization token index wiki now (mark_prepared index wiki before s)
      ≡ ok (true, mark_published true token index wiki now (mark_prepared index wiki before s))
unfolding finish_materialization mark_prepared
finish-prepared token index wiki now before s h = rw (h, eq_refl index, eq_refl wiki) refl

begin-published :
    (token : Token) (index wiki : String) (t₃ t₄ : ℕ) (s : Store)
    → is_current token s.materialization ≡ true
    → begin_materialization t₄ (mark_published true token index wiki t₃ s)
      ≡ (none, mark_published true token index wiki t₃ s)
unfolding begin_materialization mark_published
begin-published token index wiki t₃ t₄ s h =
    let same : (token.requested_epoch == s.materialization.requested_epoch) ≡ true = ground arith in
    rw same refl

-- With nothing in between, a round that begins is prepared and finished; the vault is then clean,
-- shows the new index and pages, and has no round left to begin.
pub materialization_round :
    (token : Token) (index wiki : String) (t₁ t₂ t₃ t₄ : ℕ) (s s₁ : Store)
    → begin_materialization t₁ s ≡ (some token, s₁)
    → (s₂ : Store) × (s₃ : Store) × (prepare_materialization token index wiki t₂ s₁ ≡ ok (tt, s₂))
      × (finish_materialization token index wiki t₃ s₂ ≡ ok (true, s₃))
      × (s₃.materialization.phase ≡ clean)
      × (s₃.materialization.published_index_generation ≡ some index)
      × (s₃.materialization.published_wiki_fingerprint ≡ some wiki)
      × (begin_materialization t₄ s₃ ≡ (none, s₃))
unfolding mark_published mark_prepared
materialization_round token index wiki t₁ t₂ t₃ t₄ s s₁ h =
    let current = begun-current t₁ s s₁ token h in
    let s₂ = mark_prepared index wiki t₂ s₁ in
    (
      s₂,
      mark_published true token index wiki t₃ s₂,
      prepare-current token index wiki t₂ s₁ current,
      finish-prepared token index wiki t₃ t₂ s₁ current,
      refl,
      refl,
      refl,
      begin-published token index wiki t₃ t₄ s₂ current,
    )

abbrev pub EpochGrows : Store → Store → Type 0
EpochGrows s s' = s.materialization.requested_epoch ≤ s'.materialization.requested_epoch
