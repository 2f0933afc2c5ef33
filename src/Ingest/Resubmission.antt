-- ===== src/Ingest/Resubmission.antt =====
-- runtime/transactional_ingest.py: `submit_command` is idempotent on the hash of the command.
use knoarbor.Prelude.{
  ℕ, String, ◌≡◌, refl, sym, ap, ◌∙◌, Bool, false, any, List, Option, eq_iff, Bool-cases, none,
  some, [], ◌∷◌, ◌++◌, arith, eq_refl, Option-cases, inl, inr, ok,
}
use mathlib.Core.Option
use knoarbor.Table.{Table, lookup, insert-eq-ok, lookup-insert, Unique, update_where, insert}
use knoarbor.Ingest.Materialize.{Digest}
use knoarbor.Ingest.History.{Call, run}
use knoarbor.Ingest.Consistent.{TaskOk}
use knoarbor.Ingest.Invariant.{IsConsistent}
use knoarbor.Ingest.Safety.{run-IsConsistent}
use knoarbor.Ingest.Admissions.{submit_command-IsConsistent}
use knoarbor.Ingest.Kept.{run-kept}
use knoarbor.Ingest.Writes.{IsKept, is_purge}
use knoarbor.Ingest.State.{Task, Attempt, Store, task_row, attempt_row}
use knoarbor.Ingest.Tasks.{
  Command, Admission, submit_command, find_command, existing_command, new_command, new_task,
  new_attempt,
}
use knoarbor.Ingest.OutcomesMore.{
  new_command-ok, existing_command-ok, insert_task-ok, insert_attempt-ok,
}

-- A new command is found again behind the old ones.
find_command-snoc :
    (hash k : String) (t : Task) (ts : Table Task)
    → find_command hash ts ≡ none
    → t.command_hash ≡ some hash
    → find_command hash (ts ++ (k, t) ∷ []) ≡ some (k, t)
unfolding find_command
find_command-snoc hash k t [] h e = ground (arith, eq_refl hash)
find_command-snoc hash k t ((j, u) ∷ ts) h e = ground (arith, find_command-snoc hash k t ts)

new-found :
    (c : Command) (hash id a : String) (now : ℕ) (s : Store) (r : Admission) (s' : Store)
    → find_command hash s.tasks ≡ none
    → new_command c hash id a now s ≡ ok (r, s')
    → (find_command hash s'.tasks ≡ some (id, new_task c hash a now))
      × (lookup id s'.tasks ≡ some (new_task c hash a now))
      × (lookup a s'.attempts ≡ some (new_attempt id 1 now))
      × (r.0 ≡ (id, new_task c hash a now))
new-found c hash id a now s r s' fresh h =
    let (tasks, attempts, e, e', s'_is, named, got) = new_command-ok c hash id a now s s' r h in
    let ins = insert_task-ok id (new_task c hash a now) s.tasks tasks e in
    let ins' = insert_attempt-ok a (new_attempt id 1 now) s.attempts attempts e' in
    let (_, tasks_are) = insert-eq-ok id (new_task c hash a now) s.tasks tasks ins in
    (
      rw (s'_is, tasks_are) (find_command-snoc hash id (new_task c hash a now) s.tasks fresh refl),
      rw s'_is (lookup-insert id _ s.tasks tasks id ins ∙ rw (eq_refl id)),
      rw s'_is (lookup-insert a _ s.attempts attempts a ins' ∙ rw (eq_refl a)),
      ground (arith, lookup-insert id (new_task c hash a now) s.tasks tasks id ins, eq_refl id),
    )

existing_again :
    (c : Command) (hash id a : String) (now : ℕ) (s : Store) (row : String × Task)
    (attempt : Attempt)
    → find_command hash s.tasks ≡ some row
    → lookup row.0 s.tasks ≡ some row.1
    → lookup row.1.current_attempt_id s.attempts ≡ some attempt
    → submit_command c hash id a now s ≡ ok ((row, (row.1.current_attempt_id, attempt)), s)
unfolding submit_command existing_command task_row attempt_row
existing_again c hash id a now s row attempt found task e = ground arith

-- The task that a command names.
abbrev pub command_key : String → Table Task → Option String
command_key hash ts = Option.map (λ (row : String × Task). row.0) (find_command hash ts)

-- A task that a command names in the first table it names in the second.
abbrev Names : String → Table Task → Table Task → Type 0
Names hash ts ts' = (k : String) → command_key hash ts ≡ some k → command_key hash ts' ≡ some k

command_key-update_where :
    (hash : String) (test : String → Task → Bool) (f : Task → Task) (ts : Table Task)
    → ((t : Task) → (f t).command_hash ≡ t.command_hash)
    → command_key hash (update_where test f ts) ≡ command_key hash ts
unfolding find_command update_where
command_key-update_where hash test f [] same = refl
command_key-update_where hash test f ((k, t) ∷ ts) same =
    let later = command_key-update_where hash test f ts same in
    elim (Bool-cases (test k t)) [
      | inr missed ↦ rw missed (ground (arith, later))
      | inl hit ↦ rw (hit, same t) (ground (arith, later))
    ]

command_key-snoc :
    (hash k : String) (row : String × Task) (ts : Table Task)
    → command_key hash ts ≡ some k
    → command_key hash (ts ++ row ∷ []) ≡ some k
unfolding find_command
command_key-snoc hash k row [] h = cc
command_key-snoc hash k row ((j, t) ∷ ts) h = ground (arith, h, command_key-snoc hash k row ts)

Names-update :
    (hash : String) (test : String → Task → Bool) (f : Task → Task) (ts : Table Task)
    → ((t : Task) → (f t).command_hash ≡ t.command_hash)
    → Names hash ts (update_where test f ts)
Names-update hash test f ts same k h = command_key-update_where hash test f ts same ∙ h

Names-insert :
    (hash id : String) (t : Task) (ts ts' : Table Task)
    → insert id t ts ≡ ok ts'
    → Names hash ts ts'
Names-insert hash id t ts ts' e k h =
    rw (insert-eq-ok id t ts ts' e).1 (command_key-snoc hash k (id, t) ts h)

-- Only a purge makes the store forget what a command names.
Names-IsKept : (hash : String) → IsKept (Names hash)
Names-IsKept hash = record {
  same = λ ts ts' e k h. rw e h;
  trans = λ a b c g h k e. h k (g k e);
  inserted = Names-insert hash;
  claimed = λ id owner t expires now ts e. Names-update hash _ _ ts (λ u. refl);
  renewal = λ lease t checked expires now ts e holds going. Names-update hash _ _ ts (λ u. refl);
  cancels = λ id state now ts. Names-update hash _ _ ts (λ u. refl);
  fails = λ id now ts. Names-update hash _ _ ts (λ u. refl);
  requeued = λ id a now ts. Names-update hash _ _ ts (λ u. refl);
  settled = λ id state now ts. Names-update hash _ _ ts (λ u. refl);
  reaps = λ id version now ts. Names-update hash _ _ ts (λ u. refl);
}

submit_command-names :
    (c : Command) (hash id a : String) (now : ℕ) (s : Store) (r : Admission) (s' : Store)
    → submit_command c hash id a now s ≡ ok (r, s')
    → command_key hash s'.tasks ≡ some r.0.0
unfolding submit_command
submit_command-names c hash id a now s r s' h = elim (Option-cases (find_command hash s.tasks)) [
  | inl fresh ↦
      let (found, row, attempt, named) = new-found c hash id a now s r s' fresh (ground arith) in
      rw (found, named) refl
  | inr (row, found) ↦
      let (same, key, _) = existing_command-ok row s s' r (ground arith) in
      rw (same, found, key) refl
]

find_command-lookup :
    (hash : String) (row : String × Task) (ts : Table Task)
    → Unique ts
    → find_command hash ts ≡ some row
    → lookup row.0 ts ≡ some row.1
unfolding find_command lookup
find_command-lookup hash row [] u h = cc
find_command-lookup hash row ((k, t) ∷ ts) u h =
    ground (arith, h, u.0, eq_iff k row.0, eq_refl k, find_command-lookup hash row ts u.1)

-- A command submitted again in a well-formed store, with any fresh names and after any calls but purges,
-- returns the task that the first submission gave, as it is then, and writes nothing.
pub submit_command-submit_command :
    (digest : Digest) (c : Command) (hash id a id' a' : String) (now now' : ℕ) (s : Store)
    (r : Admission) (s' : Store) (calls : List Call)
    → IsConsistent s
    → submit_command c hash id a now s ≡ ok (r, s')
    → any is_purge calls ≡ false
    → (r' : Admission) × (submit_command c hash id' a' now' (run digest s' calls)
        ≡ ok (r', run digest s' calls))
      × (r'.0.0 ≡ r.0.0)
      × (lookup r.0.0 (run digest s' calls).tasks ≡ some r'.0.1)
submit_command-submit_command digest c hash id a id' a' now now' s r s' calls v h clear =
    let s'' = run digest s' calls in
    let v'' : IsConsistent s'' =
      run-IsConsistent digest s' calls (submit_command-IsConsistent c hash id a now s r s' v h) in
    let key : command_key hash s''.tasks ≡ some r.0.0 =
      run-kept (Names hash) (Names-IsKept hash) digest s' calls (inl clear) r.0.0
        (submit_command-names c hash id a now s r s' h) in
    elim (Option-cases (find_command hash s''.tasks)) [
      | inl gone ↦ absurd (ground (arith, key, gone))
      | inr (row, found) ↦
          let same : row.0 ≡ r.0.0 = ground (arith, key, found) in
          let task = find_command-lookup hash row s''.tasks v''.unique found in
          let tie : TaskOk s''.attempts row.0 row.1 = v''.tied row.0 row.1 task in
          (
            (row, (row.1.current_attempt_id, tie.current)),
            existing_again c hash id' a' now' s'' row tie.current found task tie.found,
            same,
            ap (λ k. lookup k s''.tasks) (sym same) ∙ task,
          )
    ]
