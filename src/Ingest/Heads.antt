-- ===== src/Ingest/Heads.antt =====
-- runtime/transactional_ingest.py: the source head or session window that a publication moves.
use knoarbor.Prelude.{
  ℕ, String, ◌≡◌, refl, sym, ap, ◌∙◌, true, Option, none, some, List, arith, str_eq, eq_iff,
  eq_refl, ◌⊎◌, Option-cases, Result-cases, inl, inr, if◌then◌else◌, ok, >>=-eq-ok, opt_eq,
}
use mathlib.Core.Option
use knoarbor.Table.{
  Table, lookup, insert, lookup-insert, update_where, lookup-update_where, insert-eq-ok,
}
use knoarbor.Ingest.State.{
  AttemptLease, Store, SourceHead, Stream, Revision, Contribution, task_row,
}
use knoarbor.Ingest.Materialize.{Digest, request_materialization}
use knoarbor.Ingest.Publish.{
  Publication, check_head, insert_revision, move_head, put_cursor, record_head, record_revision,
  existing_revision, publish_revision, publish_new, settle_publication, new_revision, at_head,
  advance_head, first_head,
}
use knoarbor.Ingest.Publishing.{publish_new-ok}

-- `source_head`: the revision that the source's head names.
abbrev pub source_head : String → Store → Option String
source_head source s = Option.map (λ (h : SourceHead). h.revision_id) (lookup source s.source_heads)

-- `session_watermark`, with the last index of the window.
abbrev pub session_watermark : String → Store → Option (String × ℕ)
session_watermark source s =
    Option.map (λ (st : Stream). (st.watermark_window_id, st.watermark_to_index))
      (lookup source s.session_streams)

pub opt_eq→eq : (a b : Option String) → opt_eq a b ≡ true → a ≡ b
opt_eq→eq none none h = refl
opt_eq→eq none (some b) h = cc
opt_eq→eq (some a) none h = cc
opt_eq→eq (some a) (some b) h = ap some ((eq_iff a b).0 h)

pub settle-heads :
    (digest : Digest) (p : Publication) (now later : ℕ) (cs : List Contribution) (s : Store)
    → ((settle_publication digest p now later cs s).source_heads ≡ s.source_heads)
      × ((settle_publication digest p now later cs s).session_streams ≡ s.session_streams)
      × ((settle_publication digest p now later cs s).source_revisions ≡ s.source_revisions)
      × ((settle_publication digest p now later cs s).window_heads ≡ s.window_heads)
unfolding settle_publication request_materialization put_cursor
settle-heads digest p now later cs s = elim (Option-cases p.checkpoint_cursor) [
  | inl e ↦ ground arith
  | inr (c, e) ↦ ground arith
]

pub insert_revision-ok :
    (lease : AttemptLease) (p : Publication) (now : ℕ) (s s' : Store)
    → insert_revision lease p now s ≡ ok s'
    → (rows : Table Revision) × (insert p.revision_id (new_revision lease p now) s.source_revisions
        ≡ ok rows)
      × (s' ≡ record s { source_revisions = rows })
unfolding insert_revision
insert_revision-ok lease p now s s' h =
    elim (Result-cases (insert p.revision_id (new_revision lease p now) s.source_revisions)) [
      | inl (x, e) ↦ absurd (ground arith)
      | inr (rows, e) ↦ (rows, e, ground arith)
    ]

-- What a move of the head leaves alone, and where the heads are afterwards.
record HeadMoved (p : Publication) (s s' : Store) : Type 0 where
  head :
      (source : String)
      → source_head source s'
        ≡ (if str_eq p.source_id source then some p.revision_id else source_head source s)
  revisions : s'.source_revisions ≡ s.source_revisions
  streams : s'.session_streams ≡ s.session_streams
  windows : s'.window_heads ≡ s.window_heads

advanced_head :
    (p : Publication) (now : ℕ) (head : SourceHead) (heads : Table SourceHead) (source : String)
    → lookup p.source_id heads ≡ some head
    → Option.map
        (λ (h : SourceHead). h.revision_id)
        (lookup source (update_where (at_head p head) (advance_head p now) heads))
      ≡ (if str_eq p.source_id source
          then some p.revision_id
          else Option.map (λ (h : SourceHead). h.revision_id) (lookup source heads))
advanced_head p now head heads source e =
    rw (lookup-update_where (at_head p head) (advance_head p now) source heads)
      (elim (Option-cases (lookup source heads)) [
        | inl gone ↦ rw gone (ground (arith, eq_iff p.source_id source))
        | inr (h, found) ↦
            rw found
              (ground (arith, eq_iff p.source_id source, eq_iff source p.source_id, eq_refl source))
      ])

move_head-HeadMoved :
    (p : Publication) (now : ℕ) (head : Option SourceHead) (s s' : Store)
    → lookup p.source_id s.source_heads ≡ head
    → move_head p now head s ≡ ok s'
    → HeadMoved p s s'
unfolding move_head
move_head-HeadMoved p now none s s' e h =
    let (heads, e', h₁) = >>=-eq-ok (insert p.source_id (first_head p now) s.source_heads) _ h in
    record {
      head = λ source.
          ground
            (arith, lookup-insert p.source_id (first_head p now) s.source_heads heads source e');
      revisions = ground arith;
      streams = ground arith;
      windows = ground arith;
    }
move_head-HeadMoved p now (some head) s s' e h =
    let heads : s'.source_heads
        ≡ update_where (at_head p head) (advance_head p now) s.source_heads =
      ground arith in
    record {
      head = λ source. rw heads (advanced_head p now head s.source_heads source e);
      revisions = ground arith;
      streams = ground arith;
      windows = ground arith;
    }

check_head-ok :
    (p : Publication) (s : Store) (head : Option SourceHead)
    → check_head p s ≡ ok head
    → (lookup p.source_id s.source_heads ≡ head)
      × (source_head p.source_id s ≡ p.expected_source_head)
unfolding check_head
check_head-ok p s head h =
    (ground arith, opt_eq→eq (source_head p.source_id s) p.expected_source_head (ground arith))

record_head-ok :
    (lease : AttemptLease) (p : Publication) (now : ℕ) (s s₁ : Store)
    → record_head lease p now s ≡ ok s₁
    → (source_head p.source_id s ≡ p.expected_source_head)
      × (rows : Table Revision) × (insert p.revision_id
            (new_revision lease p now)
            s.source_revisions
          ≡ ok rows)
      × (s₁.source_revisions ≡ rows)
      × ((source : String)
          → source_head source s₁
            ≡ (if str_eq p.source_id source then some p.revision_id else source_head source s))
      × (s₁.session_streams ≡ s.session_streams)
      × (s₁.window_heads ≡ s.window_heads)
unfolding record_head
record_head-ok lease p now s s₁ e =
    let (head, checked, h₁) = >>=-eq-ok (check_head p s) _ e in
    let (s₂, added, h₂) = >>=-eq-ok (insert_revision lease p now s) _ h₁ in
    let (found, expected) = check_head-ok p s head checked in
    let (rows, ins, s₂_is) = insert_revision-ok lease p now s s₂ added in
    let moved =
      move_head-HeadMoved p now head s₂ s₁
        (ap (λ (x : Store). lookup p.source_id x.source_heads) s₂_is ∙ found) h₂ in
    (
      expected,
      rows,
      ins,
      moved.revisions ∙ ap (λ (x : Store). x.source_revisions) s₂_is,
      λ source. cc (moved.head source, ap (λ (x : Store). source_head source x) s₂_is),
      moved.streams ∙ ap (λ (x : Store). x.session_streams) s₂_is,
      moved.windows ∙ ap (λ (x : Store). x.window_heads) s₂_is,
    )

-- A publication that returns found its input published before, and wrote nothing, or published it.
pub publish_revision-cases :
    (digest : Digest) (lease : AttemptLease) (p : Publication) (checked now later : ℕ) (s : Store)
    (revision : String) (s' : Store)
    → publish_revision digest lease p checked now later s ≡ ok (revision, s')
    → ((r : Revision) × (existing_revision p s.source_revisions ≡ some (revision, r)) × (s' ≡ s))
      ⊎ ((existing_revision p s.source_revisions ≡ none)
          × (publish_new digest lease p now later s ≡ ok (revision, s')))
unfolding publish_revision task_row
publish_revision-cases digest lease p checked now later s revision s' h =
    elim (Option-cases (lookup lease.task_id s.tasks)) [
      | inl e ↦ absurd (ground arith)
      | inr (task, e) ↦ elim (Option-cases (existing_revision p s.source_revisions)) [
        | inl fresh ↦ inr (fresh, ground arith)
        | inr ((k, r), found) ↦
            let same : k ≡ revision = ground arith in
            inl (r, found ∙ ap (λ (x : String). some (x, r)) same, ground arith)
      ]
    ]

pub publish_new-head :
    (digest : Digest) (lease : AttemptLease) (p : Publication) (now later : ℕ) (s : Store)
    (revision : String) (s' : Store) (source : String)
    → p.window_id ≡ none
    → publish_new digest lease p now later s ≡ ok (revision, s')
    → (source_head p.source_id s ≡ p.expected_source_head)
      × (lookup p.revision_id s.source_revisions ≡ none)
      × (lookup p.revision_id s'.source_revisions ≡ some (new_revision lease p now))
      × (source_head source s'
          ≡ (if str_eq p.source_id source then some p.revision_id else source_head source s))
      × (session_watermark source s' ≡ session_watermark source s)
      × (s'.window_heads ≡ s.window_heads)
unfolding record_revision
publish_new-head digest lease p now later s revision s' source document h =
    let (s₁, cs, e, _, _, s'_is) = publish_new-ok digest lease p now later s revision s' h in
    let (expected, rows, ins, revisions, head, streams, windows) =
      record_head-ok lease p now s s₁
        (ap (λ (w : Option String). record_revision lease p now w s) (sym document) ∙ e) in
    let (heads', streams', revisions', windows') = settle-heads digest p now later cs s₁ in
    let fresh = insert-eq-ok p.revision_id (new_revision lease p now) s.source_revisions rows ins in
    (
      expected,
      fresh.0,
      rw (s'_is, revisions', revisions)
          (lookup-insert p.revision_id (new_revision lease p now) s.source_revisions rows
              p.revision_id ins
            ∙ rw (eq_refl p.revision_id)),
      rw (s'_is, heads') (head source),
      rw (s'_is, streams', streams),
      rw (s'_is, windows', windows),
    )

-- A document (a publication with no window) whose publication returns was published before under its input
-- key, and then its revision is returned and nothing is written; or it was published on the head that it
-- expected: its revision, new in the store, is recorded under the lease and is the source's head, and no other
-- source's head, no session and no window changes.
pub publish_revision-head :
    (digest : Digest) (lease : AttemptLease) (p : Publication) (checked now later : ℕ) (s : Store)
    (revision : String) (s' : Store) (source : String)
    → p.window_id ≡ none
    → publish_revision digest lease p checked now later s ≡ ok (revision, s')
    → ((r : Revision) × (existing_revision p s.source_revisions ≡ some (revision, r)) × (s' ≡ s))
      ⊎ ((existing_revision p s.source_revisions ≡ none)
          × (source_head p.source_id s ≡ p.expected_source_head)
          × (lookup p.revision_id s.source_revisions ≡ none)
          × (lookup p.revision_id s'.source_revisions ≡ some (new_revision lease p now))
          × (source_head source s'
              ≡ (if str_eq p.source_id source then some p.revision_id else source_head source s))
          × (session_watermark source s' ≡ session_watermark source s)
          × (s'.window_heads ≡ s.window_heads))
publish_revision-head digest lease p checked now later s revision s' source document h =
    elim (publish_revision-cases digest lease p checked now later s revision s' h) [
      | inl known ↦ inl known
      | inr (fresh, published) ↦
          let (expected, unused, recorded, head, mark, windows) =
            publish_new-head digest lease p now later s revision s' source document published in
          inr (fresh, expected, unused, recorded, head, mark, windows)
    ]
