-- ===== src/Ingest/Republishing.antt =====
-- runtime/transactional_ingest.py: `publish_revision` for an input that has been published before.
use knoarbor.Prelude.{
  ℕ, List, any, String, ◌≡◌, refl, sym, ap, ◌∙◌, false, Option, some, [], ◌∷◌, ◌++◌, arith, str_eq,
  eq_refl, Option-cases, inl, inr, ok,
}
use knoarbor.Table.{Table, lookup}
use knoarbor.Ingest.State.{AttemptLease, Store, Revision, task_row}
use knoarbor.Ingest.Materialize.{Digest}
use knoarbor.Ingest.Publish.{
  Publication, find_input, existing_revision, input_taken, new_revision, publish_revision,
}
use knoarbor.Ingest.Publishing.{publish_new-ok}
use knoarbor.Ingest.Heads.{publish_revision-cases}
use knoarbor.Ingest.Added.{publish_new-Added}
use knoarbor.Ingest.Inputs.{input_key, forgets, run-Knows}
use knoarbor.Ingest.History.{Call, run}

find_input-snoc :
    (source key k : String) (r : Revision) (rows : Table Revision)
    → input_taken source (some key) rows ≡ false
    → r.source_id ≡ source
    → r.input_revision_key ≡ some key
    → find_input source key (rows ++ (k, r) ∷ []) ≡ some (k, r)
unfolding input_taken find_input
find_input-snoc source key k r [] h own keyed = rw (own, keyed, eq_refl source, eq_refl key) refl
find_input-snoc source key k r ((j, q) ∷ rows) h own keyed =
    ground (arith, h, find_input-snoc source key k r rows, own, keyed)

existing_revision-found :
    (q : Publication) (key : String) (rows : Table Revision)
    → q.input_revision_key ≡ some key
    → str_eq key "" ≡ false
    → existing_revision q rows ≡ find_input q.source_id key rows
unfolding existing_revision
existing_revision-found q key rows keyed real = rw (keyed, real) refl

publish_revision-existing :
    (digest : Digest) (lease : AttemptLease) (q : Publication) (checked now later : ℕ)
    (s s' : Store) (k revision : String) (r : Revision)
    → existing_revision q s.source_revisions ≡ some (k, r)
    → publish_revision digest lease q checked now later s ≡ ok (revision, s')
    → (revision ≡ k) × (s' ≡ s)
unfolding publish_revision task_row
publish_revision-existing digest lease q checked now later s s' k revision r found h =
    elim (Option-cases (lookup lease.task_id s.tasks)) [
      | inl e ↦ absurd (ground arith)
      | inr (task, e) ↦ (ground arith, ground arith)
    ]

-- After the first publication its input is known under its key.
publish_revision-known :
    (digest : Digest) (lease : AttemptLease) (p : Publication) (key : String)
    (checked now later : ℕ) (s : Store) (revision : String) (s' : Store)
    → p.input_revision_key ≡ some key
    → str_eq key "" ≡ false
    → publish_revision digest lease p checked now later s ≡ ok (revision, s')
    → input_key p.source_id key s'.source_revisions ≡ some revision
publish_revision-known digest lease p key checked now later s revision s' keyed real h =
    elim (publish_revision-cases digest lease p checked now later s revision s' h) [
      | inl (r, found, same) ↦
          let known = sym (existing_revision-found p key s.source_revisions keyed real) ∙ found in
          rw (same, known) refl
      | inr (fresh, published) ↦
          let (unknown, rows) =
            publish_new-Added digest lease p now later s revision s' published in
          let (_, _, _, _, revision_is, _) =
            publish_new-ok digest lease p now later s revision s' published in
          let known =
            find_input-snoc p.source_id key p.revision_id (new_revision lease p now)
              s.source_revisions
              (ap (λ (o : Option String). input_taken p.source_id o s.source_revisions) (sym keyed)
                ∙ unknown)
              refl keyed in
          rw (rows, known, revision_is) refl
    ]

-- Once an input of a source is published under its key, a publication of the same input that returns, from
-- whatever worker, with whatever content and after whatever calls but a purge of the source, returns the
-- first revision and writes nothing.
pub publish_revision-again :
    (digest : Digest) (lease lease' : AttemptLease) (p q : Publication) (key : String)
    (checked now later checked' now' later' : ℕ) (s s' s'' : Store) (calls : List Call)
    (revision revision' : String)
    → p.input_revision_key ≡ some key
    → q.input_revision_key ≡ some key
    → q.source_id ≡ p.source_id
    → str_eq key "" ≡ false
    → publish_revision digest lease p checked now later s ≡ ok (revision, s')
    → any (forgets p.source_id) calls ≡ false
    → publish_revision digest lease' q checked' now' later' (run digest s' calls)
      ≡ ok (revision', s'')
    → (revision' ≡ revision) × (s'' ≡ run digest s' calls)
publish_revision-again digest lease lease' p q key checked now later checked' now' later' s s' s''
      calls revision revision' keyed same_key same_source real h clear again =
    let s₁ = run digest s' calls in
    let known : input_key p.source_id key s₁.source_revisions ≡ some revision =
      run-Knows p.source_id key digest s' calls clear revision
        (publish_revision-known digest lease p key checked now later s revision s' keyed real h) in
    let existing = existing_revision-found q key s₁.source_revisions same_key real in
    elim (Option-cases (find_input p.source_id key s₁.source_revisions)) [
      | inl gone ↦ absurd (ground (arith, known, gone))
      | inr ((k, r), found) ↦
          let here : k ≡ revision = ground (arith, known, found) in
          let (returned, nothing) =
            publish_revision-existing digest lease' q checked' now' later' s₁ s'' k revision' r
              (existing ∙ rw same_source found) again in
          (returned ∙ here, nothing)
    ]
