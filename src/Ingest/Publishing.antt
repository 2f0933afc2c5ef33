-- ===== src/Ingest/Publishing.antt =====
-- runtime/transactional_ingest.py: what `publish_revision` and `purge_source` leave alone, and
-- the materialization that they request.
use knoarbor.Prelude.{
  ℕ, String, ◌≡◌, refl, sym, ◌∙◌, Option, none, some, List, arith, ok, >>=-eq-ok, suc,
}
use mathlib.Core.Path.{subst}
use knoarbor.Ingest.State.{AttemptLease, Store, SourceHead, Stream, Contribution, active_facts}
use knoarbor.Ingest.Materialize.{Digest, request_materialization}
use knoarbor.Ingest.Publish.{
  Publication, Checkpoint, check_head, check_window, insert_revision, move_head, insert_window,
  move_watermark, add_contributions, put_cursor, record_head, record_window, record_revision,
  publish_new, settle_publication,
}

-- What the factual writes leave alone.
pub record SameTasks (s s' : Store) : Type 0 where
  pub tasks : s'.tasks ≡ s.tasks
  pub attempts : s'.attempts ≡ s.attempts
  pub control : s'.control ≡ s.control
  pub materialization : s'.materialization ≡ s.materialization

SameTasks-trans : (s t u : Store) → SameTasks s t → SameTasks t u → SameTasks s u
SameTasks-trans s t u h k = record {
  tasks = k.tasks ∙ h.tasks;
  attempts = k.attempts ∙ h.attempts;
  control = k.control ∙ h.control;
  materialization = k.materialization ∙ h.materialization;
}

insert_revision-SameTasks :
    (lease : AttemptLease) (p : Publication) (now : ℕ) (s s' : Store)
    → insert_revision lease p now s ≡ ok s'
    → SameTasks s s'
unfolding insert_revision
insert_revision-SameTasks lease p now s s' h = ground arith

move_head-SameTasks :
    (p : Publication) (now : ℕ) (head : Option SourceHead) (s s' : Store)
    → move_head p now head s ≡ ok s'
    → SameTasks s s'
unfolding move_head
move_head-SameTasks p now none s s' h = ground arith
move_head-SameTasks p now (some head) s s' h = ground arith

insert_window-SameTasks :
    (p : Publication) (window : String) (now : ℕ) (s s' : Store)
    → insert_window p window now s ≡ ok s'
    → SameTasks s s'
unfolding insert_window
insert_window-SameTasks p window now s s' h = ground arith

move_watermark-SameTasks :
    (p : Publication) (window : String) (to now : ℕ) (stream : Option Stream) (s s' : Store)
    → move_watermark p window to now stream s ≡ ok s'
    → SameTasks s s'
unfolding move_watermark
move_watermark-SameTasks p window to now none s s' h = ground arith
move_watermark-SameTasks p window to now (some stream) s s' h = ground arith

record_head-SameTasks :
    (lease : AttemptLease) (p : Publication) (now : ℕ) (s s' : Store)
    → record_head lease p now s ≡ ok s'
    → SameTasks s s'
unfolding record_head
record_head-SameTasks lease p now s s' h =
    let (head, e, h₁) = >>=-eq-ok (check_head p s) _ h in
    let (s₁, e₁, h₂) = >>=-eq-ok (insert_revision lease p now s) _ h₁ in
    SameTasks-trans s s₁ s' (insert_revision-SameTasks lease p now s s₁ e₁)
      (move_head-SameTasks p now head s₁ s' h₂)

record_window-SameTasks :
    (lease : AttemptLease) (p : Publication) (window : String) (now : ℕ) (s s' : Store)
    → record_window lease p window now s ≡ ok s'
    → SameTasks s s'
unfolding record_window
record_window-SameTasks lease p window now s s' h =
    let (at, e, h₁) = >>=-eq-ok (check_window p s) _ h in
    let (s₁, e₁, h₂) = >>=-eq-ok (insert_revision lease p now s) _ h₁ in
    let (s₂, e₂, h₃) = >>=-eq-ok (insert_window p window now s₁) _ h₂ in
    SameTasks-trans s s₁ s' (insert_revision-SameTasks lease p now s s₁ e₁) (
      SameTasks-trans s₁ s₂ s' (insert_window-SameTasks p window now s₁ s₂ e₂)
        (move_watermark-SameTasks p window at.1 now at.0 s₂ s' h₃))

record_revision-SameTasks :
    (lease : AttemptLease) (p : Publication) (now : ℕ) (window : Option String) (s s' : Store)
    → record_revision lease p now window s ≡ ok s'
    → SameTasks s s'
unfolding record_revision
record_revision-SameTasks lease p now none s s' h = record_head-SameTasks lease p now s s' h
record_revision-SameTasks lease p now (some window) s s' h =
    record_window-SameTasks lease p window now s s' h

put_cursor-SameTasks :
    (p : Publication) (now : ℕ) (c : Option Checkpoint) (s : Store)
    → SameTasks s (put_cursor p now c s)
unfolding put_cursor
put_cursor-SameTasks p now none s = ground arith
put_cursor-SameTasks p now (some c) s = ground arith

-- The materialization that a store asks for is that of its own facts.
abbrev pub IsRequested : Digest → Store → Type 0
IsRequested digest s = s.materialization.requested_fact_generation ≡ digest (active_facts s)

pub record Published (digest : Digest) (s s' : Store) : Type 0 where
  pub tasks : s'.tasks ≡ s.tasks
  pub attempts : s'.attempts ≡ s.attempts
  pub epoch : s'.materialization.requested_epoch ≡ suc s.materialization.requested_epoch
  pub generation : IsRequested digest s'

request-Published :
    (digest : Digest) (now : ℕ) (s t : Store)
    → SameTasks s t
    → Published digest s (request_materialization digest now t).1
unfolding request_materialization active_facts
request-Published digest now s t h = record {
  tasks = h.tasks;
  attempts = h.attempts;
  epoch = ground (arith, h.materialization);
  generation = refl;
}

pub publish_new-ok :
    (digest : Digest) (lease : AttemptLease) (p : Publication) (now later : ℕ) (s : Store)
    (revision : String) (s' : Store)
    → publish_new digest lease p now later s ≡ ok (revision, s')
    → (s₁ : Store) × (cs : List Contribution) × (record_revision lease p now p.window_id s ≡ ok s₁)
      × (add_contributions p p.entity_contributions s₁.contributions ≡ ok cs)
      × (revision ≡ p.revision_id)
      × (s' ≡ settle_publication digest p now later cs s₁)
unfolding publish_new
publish_new-ok digest lease p now later s revision s' h =
    let (s₁, e₁, h₁) = >>=-eq-ok (record_revision lease p now p.window_id s) _ h in
    let (cs, e₂, h₂) =
      >>=-eq-ok (add_contributions p p.entity_contributions s₁.contributions) _ h₁ in
    (s₁, cs, e₁, e₂, ground arith, ground arith)

settle-Published :
    (digest : Digest) (p : Publication) (now later : ℕ) (cs : List Contribution) (s s₁ : Store)
    → SameTasks s s₁
    → Published digest s (settle_publication digest p now later cs s₁)
unfolding settle_publication
settle-Published digest p now later cs s s₁ same = request-Published digest later s _ (
    SameTasks-trans s (record s₁ { contributions = cs }) _
      (record {
        tasks = same.tasks;
        attempts = same.attempts;
        control = same.control;
        materialization = same.materialization;
      })
      (put_cursor-SameTasks p now p.checkpoint_cursor (record s₁ { contributions = cs })))

pub publish_new-Published :
    (digest : Digest) (lease : AttemptLease) (p : Publication) (now later : ℕ) (s : Store)
    (revision : String) (s' : Store)
    → publish_new digest lease p now later s ≡ ok (revision, s')
    → Published digest s s'
publish_new-Published digest lease p now later s revision s' h =
    let (s₁, cs, e₁, e₂, _, s'_is) = publish_new-ok digest lease p now later s revision s' h in
    subst (Published digest s) (sym s'_is) (
      settle-Published digest p now later cs s s₁
        (record_revision-SameTasks lease p now p.window_id s s₁ e₁))
