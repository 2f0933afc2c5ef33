-- ===== src/Ingest/Added.antt =====
-- runtime/transactional_ingest.py: the revision that a publication adds to the table of revisions.
use knoarbor.Prelude.{
  ℕ, String, ◌≡◌, ap, ◌∙◌, false, Option, none, some, [], ◌∷◌, ◌++◌, arith, ok, >>=-eq-ok,
}
use knoarbor.Table.{insert, insert-eq-ok}
use knoarbor.Ingest.State.{AttemptLease, Store, Stream, SourceHead}
use knoarbor.Ingest.Materialize.{Digest}
use knoarbor.Ingest.Publish.{
  Publication, input_taken, new_revision, insert_revision, check_head, check_window, move_head,
  insert_window, move_watermark, record_head, record_window, record_revision, publish_new,
}
use knoarbor.Ingest.Publishing.{publish_new-ok}
use knoarbor.Ingest.Heads.{insert_revision-ok, settle-heads}

-- The revision is added behind the others, and its input was new.
abbrev pub Added : AttemptLease → Publication → ℕ → Store → Store → Type 0
Added lease p now s s₁ =
    (input_taken p.source_id p.input_revision_key s.source_revisions ≡ false)
    × (s₁.source_revisions ≡ s.source_revisions ++ (p.revision_id, new_revision lease p now) ∷ [])

insert_revision-Added :
    (lease : AttemptLease) (p : Publication) (now : ℕ) (s s₁ : Store)
    → insert_revision lease p now s ≡ ok s₁
    → Added lease p now s s₁
unfolding insert_revision
insert_revision-Added lease p now s s₁ h =
    let (rows, ins, s₁_is) = insert_revision-ok lease p now s s₁ h in
    (
      ground arith,
      ap (λ (x : Store). x.source_revisions) s₁_is
          ∙ (insert-eq-ok p.revision_id (new_revision lease p now) s.source_revisions rows ins).1,
    )

move_head-revisions :
    (p : Publication) (now : ℕ) (head : Option SourceHead) (s s' : Store)
    → move_head p now head s ≡ ok s'
    → s'.source_revisions ≡ s.source_revisions
unfolding move_head
move_head-revisions p now none s s' h =
    let (heads, _, h₁) = >>=-eq-ok (insert p.source_id _ s.source_heads) _ h in ground arith
move_head-revisions p now (some head) s s' h = ground arith

move_watermark-revisions :
    (p : Publication) (window : String) (to now : ℕ) (stream : Option Stream) (s s' : Store)
    → move_watermark p window to now stream s ≡ ok s'
    → s'.source_revisions ≡ s.source_revisions
unfolding move_watermark
move_watermark-revisions p window to now none s s' h =
    let (streams, _, h₁) = >>=-eq-ok (insert p.source_id _ s.session_streams) _ h in ground arith
move_watermark-revisions p window to now (some stream) s s' h = ground arith

insert_window-revisions :
    (p : Publication) (window : String) (now : ℕ) (s s' : Store)
    → insert_window p window now s ≡ ok s'
    → s'.source_revisions ≡ s.source_revisions
unfolding insert_window
insert_window-revisions p window now s s' h = ground arith

record_revision-Added :
    (lease : AttemptLease) (p : Publication) (now : ℕ) (window : Option String) (s s₁ : Store)
    → record_revision lease p now window s ≡ ok s₁
    → Added lease p now s s₁
unfolding record_revision record_head record_window
record_revision-Added lease p now none s s₁ h =
    let (head, _, h₁) = >>=-eq-ok (check_head p s) _ h in
    let (s₂, added, h₂) = >>=-eq-ok (insert_revision lease p now s) _ h₁ in
    let (fresh, rows) = insert_revision-Added lease p now s s₂ added in
    (fresh, move_head-revisions p now head s₂ s₁ h₂ ∙ rows)
record_revision-Added lease p now (some window) s s₁ h =
    let ((stream, to), _, h₁) = >>=-eq-ok (check_window p s) _ h in
    let (s₂, added, h₂) = >>=-eq-ok (insert_revision lease p now s) _ h₁ in
    let (s₃, wider, h₃) = >>=-eq-ok (insert_window p window now s₂) _ h₂ in
    let (fresh, rows) = insert_revision-Added lease p now s s₂ added in
    (
      fresh,
      move_watermark-revisions p window to now stream s₃ s₁ h₃
          ∙ insert_window-revisions p window now s₂ s₃ wider
          ∙ rows,
    )

-- `publish_new` adds the revision of the publication behind the others.
pub publish_new-Added :
    (digest : Digest) (lease : AttemptLease) (p : Publication) (now later : ℕ) (s : Store)
    (revision : String) (s' : Store)
    → publish_new digest lease p now later s ≡ ok (revision, s')
    → Added lease p now s s'
publish_new-Added digest lease p now later s revision s' h =
    let (s₁, cs, e, _, _, s'_is) = publish_new-ok digest lease p now later s revision s' h in
    let (fresh, rows) = record_revision-Added lease p now p.window_id s s₁ e in
    let (_, _, kept, _) = settle-heads digest p now later cs s₁ in
    (fresh, ap (λ (x : Store). x.source_revisions) s'_is ∙ kept ∙ rows)
