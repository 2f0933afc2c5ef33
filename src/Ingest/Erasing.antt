-- ===== src/Ingest/Erasing.antt =====
-- runtime/transactional_ingest.py: what `purge_source` takes away.
use knoarbor.Prelude.{
  ℕ, String, ◌≡◌, refl, Bool, false, not, none, List, [], ◌∷◌, arith, str_eq, Bool-cases, inl, inr,
  any, keep, if◌then◌else◌, ok,
}
use knoarbor.Table.{Table, lookup-delete}
use knoarbor.Ingest.State.{Store, Revision, WindowHead, Contribution, Cursor}
use knoarbor.Ingest.Materialize.{Digest, request_materialization}
use knoarbor.Ingest.Purge.{purge_source, purged, purged_rows, delete_rows}
use knoarbor.Ingest.Purging.{purge_source-ok}
use knoarbor.Ingest.Heads.{source_head, session_watermark}

-- Some row of a table passes the test.
abbrev pub any_row : {A : Type 0} → (A → Bool) → Table A → Bool
any_row test rows = any (λ row. test row.1) rows

any-keep :
    {A : Type 0} (test : A → Bool) (xs : List A) → any test (keep (λ x. not (test x)) xs) ≡ false
any-keep test [] = refl
any-keep test (x ∷ xs) = ground (arith, any-keep test xs)

any-delete_rows :
    {A : Type 0} (test : A → Bool) (t : Table A) → any_row test (delete_rows test t) ≡ false
unfolding delete_rows
any-delete_rows test [] = refl
any-delete_rows test ((k, a) ∷ t) = ground (arith, any-delete_rows test t)

-- Nothing of a source is left: no revision, no window, no cursor and no contribution.
pub record IsErased (source : String) (s : Store) : Type 0 where
  pub revisions : any_row (λ (r : Revision). str_eq r.source_id source) s.source_revisions ≡ false
  pub windows : any (λ (w : WindowHead). str_eq w.source_id source) s.window_heads ≡ false
  pub cursors : any_row (λ (c : Cursor). str_eq c.source_id source) s.source_cursors ≡ false
  pub contributions : any (λ (c : Contribution). str_eq c.source_id source) s.contributions ≡ false

purged-IsErased :
    (digest : Digest) (source : String) (now : ℕ) (s : Store)
    → IsErased source
        (request_materialization digest now
          (purged source (purged_rows source s.tasks s.source_revisions) s)).1
unfolding purged request_materialization
purged-IsErased digest source now s = record {
  revisions = any-delete_rows (λ (r : Revision). str_eq r.source_id source) s.source_revisions;
  windows = any-keep (λ (w : WindowHead). str_eq w.source_id source) s.window_heads;
  cursors = any-delete_rows (λ (c : Cursor). str_eq c.source_id source) s.source_cursors;
  contributions = any-keep (λ (c : Contribution). str_eq c.source_id source) s.contributions;
}

purged-heads :
    (digest : Digest) (source : String) (now : ℕ) (s : Store) (other : String)
    → (source_head other
          (request_materialization digest now
            (purged source (purged_rows source s.tasks s.source_revisions) s)).1
        ≡ (if str_eq source other then none else source_head other s))
      × (session_watermark other
            (request_materialization digest now
              (purged source (purged_rows source s.tasks s.source_revisions) s)).1
          ≡ (if str_eq source other then none else session_watermark other s))
unfolding purged request_materialization
purged-heads digest source now s other = elim (Bool-cases (str_eq source other)) [
  | inl here ↦ (
    rw (lookup-delete source other s.source_heads, here) refl,
    rw (lookup-delete source other s.session_streams, here) refl,
  )
  | inr there ↦ (
    rw (lookup-delete source other s.source_heads, there) refl,
    rw (lookup-delete source other s.session_streams, there) refl,
  )
]

-- After a purge of a source the store holds no revision, window, cursor or contribution of it, and
-- neither its head nor its session; the heads and sessions of the other sources are as they were.
pub purge_source-erases :
    (digest : Digest) (source : String) (now : ℕ) (s : Store) (paths : List String) (s' : Store)
    → purge_source digest source now s ≡ ok (paths, s')
    → IsErased source s'
      × ((other : String)
          → (source_head other s' ≡ (if str_eq source other then none else source_head other s))
            × (session_watermark other s'
                ≡ (if str_eq source other then none else session_watermark other s)))
purge_source-erases digest source now s paths s' h =
    rw (purge_source-ok digest source now s paths s' h)
      (purged-IsErased digest source now s, purged-heads digest source now s)
