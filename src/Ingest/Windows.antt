-- ===== src/Ingest/Windows.antt =====
-- runtime/transactional_ingest.py: the windows of a session, which are published in one chain.
use knoarbor.Prelude.{
  ℕ, suc, ◌≤◌, String, ◌≡◌, sym, ap, ◌∙◌, true, false, Option, none, some, [], ◌∷◌, ◌++◌, arith,
  str_eq, eq_iff, eq_refl, Option-cases, inl, inr, if◌then◌else◌, ok, ◌==◌, >>=-eq-ok, opt_eq, any,
  ◌⊎◌,
}
use mathlib.Core.Option
use knoarbor.Table.{Table, lookup, insert, lookup-insert, update_where, lookup-update_where}
use knoarbor.Ingest.State.{AttemptLease, Store, Stream, Revision}
use knoarbor.Ingest.Materialize.{Digest}
use knoarbor.Ingest.Publish.{
  Publication, check_window, insert_revision, insert_window, move_watermark, same_window,
  record_window, record_revision, publish_new, existing_revision, publish_revision, at_stream,
  advance_stream, first_stream, expected_start, watermark,
}
use knoarbor.Ingest.Publishing.{publish_new-ok}
use knoarbor.Ingest.Heads.{
  source_head, session_watermark, settle-heads, insert_revision-ok, publish_revision-cases,
  opt_eq→eq,
}

-- The window follows what the stream has: nothing, or the window just before.
abbrev pub Follows : Publication → ℕ → Option (String × ℕ) → Type 0
Follows p from none = p.previous_window_id ≡ none
Follows p from (some (window, last)) = (p.previous_window_id ≡ some window) × (from ≡ suc last)

abbrev pub stream_mark : Option Stream → Option (String × ℕ)
stream_mark = Option.map (λ (st : Stream). (st.watermark_window_id, st.watermark_to_index))

checked-Follows :
    (p : Publication) (from : ℕ) (stream : Option Stream)
    → opt_eq (watermark stream) p.previous_window_id ≡ true
    → (from == expected_start stream from) ≡ true
    → Follows p from (stream_mark stream)
checked-Follows p from none h k = sym (opt_eq→eq none p.previous_window_id h)
checked-Follows p from (some st) h k =
    (sym (opt_eq→eq (some st.watermark_window_id) p.previous_window_id h), ground arith)

check_window-ok :
    (p : Publication) (s : Store) (stream : Option Stream) (to : ℕ)
    → check_window p s ≡ ok (stream, to)
    → (from : ℕ) × (p.window_from_index ≡ some from)
      × (p.window_to_index ≡ some to)
      × (from ≤ to)
      × (lookup p.source_id s.session_streams ≡ stream)
      × Follows p from (session_watermark p.source_id s)
unfolding check_window
check_window-ok p s stream to h = elim (Option-cases p.window_from_index) [
  | inl e ↦ absurd (ground arith)
  | inr (from, e) ↦ elim (Option-cases p.window_to_index) [
    | inl e' ↦ absurd (ground arith)
    | inr (to', e') ↦ (
      from,
      e,
      ground arith,
      ground arith,
      ground arith,
      checked-Follows p from (lookup p.source_id s.session_streams) (ground arith) (ground arith),
    )
  ]
]

insert_window-ok :
    (p : Publication) (window : String) (now : ℕ) (s s' : Store)
    → insert_window p window now s ≡ ok s'
    → (any (same_window p.source_id window) s.window_heads ≡ false)
      × (s'.window_heads
          ≡ s.window_heads
            ++ record {
              source_id = p.source_id;
              window_id = window;
              revision_id = p.revision_id;
              updated_at = now;
            }
              ∷ [])
      × (s'.source_heads ≡ s.source_heads)
      × (s'.session_streams ≡ s.session_streams)
      × (s'.source_revisions ≡ s.source_revisions)
unfolding insert_window
insert_window-ok p window now s s' h = ground arith

advanced_stream :
    (p : Publication) (window : String) (to now : ℕ) (stream : Stream) (streams : Table Stream)
    (source : String)
    → lookup p.source_id streams ≡ some stream
    → stream_mark
        (lookup source (update_where (at_stream p stream) (advance_stream window to now) streams))
      ≡ (if str_eq p.source_id source
          then some (window, to)
          else stream_mark (lookup source streams))
advanced_stream p window to now stream streams source e =
    rw (lookup-update_where (at_stream p stream) (advance_stream window to now) source streams)
      (elim (Option-cases (lookup source streams)) [
        | inl gone ↦ rw gone (ground (arith, eq_iff p.source_id source))
        | inr (h, found) ↦
            rw found
              (ground (arith, eq_iff p.source_id source, eq_iff source p.source_id, eq_refl source))
      ])

move_watermark-ok :
    (p : Publication) (window : String) (to now : ℕ) (stream : Option Stream) (s s' : Store)
    (source : String)
    → lookup p.source_id s.session_streams ≡ stream
    → move_watermark p window to now stream s ≡ ok s'
    → (session_watermark source s'
        ≡ (if str_eq p.source_id source then some (window, to) else session_watermark source s))
      × (s'.source_heads ≡ s.source_heads)
      × (s'.window_heads ≡ s.window_heads)
      × (s'.source_revisions ≡ s.source_revisions)
unfolding move_watermark
move_watermark-ok p window to now none s s' source e h =
    let (streams, e', h₁) =
      >>=-eq-ok (insert p.source_id (first_stream window to now) s.session_streams) _ h in
    (
      ground (
        arith,
        lookup-insert p.source_id (first_stream window to now) s.session_streams streams source e',
      ),
      ground arith,
      ground arith,
      ground arith,
    )
move_watermark-ok p window to now (some stream) s s' source e h =
    let streams : s'.session_streams
        ≡ update_where (at_stream p stream) (advance_stream window to now) s.session_streams =
      ground arith in
    (
      rw streams (advanced_stream p window to now stream s.session_streams source e),
      ground arith,
      ground arith,
      ground arith,
    )

record_window-ok :
    (lease : AttemptLease) (p : Publication) (window : String) (now : ℕ) (s s₁ : Store)
    → record_window lease p window now s ≡ ok s₁
    → (from : ℕ) × (to : ℕ) × (p.window_from_index ≡ some from)
      × (p.window_to_index ≡ some to)
      × (from ≤ to)
      × Follows p from (session_watermark p.source_id s)
      × (any (same_window p.source_id window) s.window_heads ≡ false)
      × ((source : String)
          → session_watermark source s₁
            ≡ (if str_eq p.source_id source then some (window, to) else session_watermark source s))
      × (s₁.source_heads ≡ s.source_heads)
unfolding record_window
record_window-ok lease p window now s s₁ e =
    let (at, checked, h₁) = >>=-eq-ok (check_window p s) _ e in
    let (s₂, added, h₂) = >>=-eq-ok (insert_revision lease p now s) _ h₁ in
    let (s₃, entered, h₃) = >>=-eq-ok (insert_window p window now s₂) _ h₂ in
    let (from, first, last, ordered, stream, follows) = check_window-ok p s at.0 at.1 checked in
    let (rows, ins, s₂_is) = insert_revision-ok lease p now s s₂ added in
    let (fresh, _, heads, streams, _) = insert_window-ok p window now s₂ s₃ entered in
    let streams' : s₃.session_streams ≡ s.session_streams =
      streams ∙ ap (λ (x : Store). x.session_streams) s₂_is in
    let found = ap (λ (x : Table Stream). lookup p.source_id x) streams' ∙ stream in
    let moved =
      λ (source : String). move_watermark-ok p window at.1 now at.0 s₃ s₁ source found h₃ in
    (
      from,
      at.1,
      first,
      last,
      ordered,
      follows,
      ap (λ (x : Store). any (same_window p.source_id window) x.window_heads) (sym s₂_is) ∙ fresh,
      λ source.
          cc ((moved source).0, ap (λ (x : Table Stream). stream_mark (lookup source x)) streams'),
      (moved p.source_id).1 ∙ heads ∙ ap (λ (x : Store). x.source_heads) s₂_is,
    )

publish_new-window :
    (digest : Digest) (lease : AttemptLease) (p : Publication) (window : String) (now later : ℕ)
    (s : Store) (revision : String) (s' : Store) (source : String)
    → p.window_id ≡ some window
    → publish_new digest lease p now later s ≡ ok (revision, s')
    → (from : ℕ) × (to : ℕ) × (p.window_from_index ≡ some from)
      × (p.window_to_index ≡ some to)
      × (from ≤ to)
      × Follows p from (session_watermark p.source_id s)
      × (any (same_window p.source_id window) s.window_heads ≡ false)
      × (session_watermark source s'
          ≡ (if str_eq p.source_id source then some (window, to) else session_watermark source s))
      × (source_head source s' ≡ source_head source s)
unfolding record_revision
publish_new-window digest lease p window now later s revision s' source session h =
    let (s₁, cs, e, _, _, s'_is) = publish_new-ok digest lease p now later s revision s' h in
    let (from, to, first, last, ordered, follows, fresh, mark, heads) =
      record_window-ok lease p window now s s₁
        (ap (λ (w : Option String). record_revision lease p now w s) (sym session) ∙ e) in
    let (heads', streams', _, _) = settle-heads digest p now later cs s₁ in
    (
      from,
      to,
      first,
      last,
      ordered,
      follows,
      fresh,
      rw (s'_is, streams') (mark source),
      rw (s'_is, heads', heads),
    )

-- A session window whose publication returns was published before under its input key, and then its revision is
-- returned and nothing is written; or it was published behind the window that the session's watermark names, on
-- the next index, over an interval in order, and under a window name new for the session: it is then the
-- watermark of its session; other sessions and every source head stay as they were.
pub publish_revision-window :
    (digest : Digest) (lease : AttemptLease) (p : Publication) (window : String)
    (checked now later : ℕ) (s : Store) (revision : String) (s' : Store) (source : String)
    → p.window_id ≡ some window
    → publish_revision digest lease p checked now later s ≡ ok (revision, s')
    → ((r : Revision) × (existing_revision p s.source_revisions ≡ some (revision, r)) × (s' ≡ s))
      ⊎ ((existing_revision p s.source_revisions ≡ none)
          × (from : ℕ) × (to : ℕ) × (p.window_from_index ≡ some from)
          × (p.window_to_index ≡ some to)
          × (from ≤ to)
          × Follows p from (session_watermark p.source_id s)
          × (any (same_window p.source_id window) s.window_heads ≡ false)
          × (session_watermark source s' ≡ (
              if str_eq p.source_id source then some (window, to) else session_watermark source s))
          × (source_head source s' ≡ source_head source s))
publish_revision-window digest lease p window checked now later s revision s' source session h =
    elim (publish_revision-cases digest lease p checked now later s revision s' h) [
      | inl known ↦ inl known
      | inr (fresh, published) ↦
          let (from, to, first, last, ordered, follows, unused, mark, heads) =
            publish_new-window digest lease p window now later s revision s' source session
              published in
          inr (fresh, from, to, first, last, ordered, follows, unused, mark, heads)
    ]
