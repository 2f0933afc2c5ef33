-- ===== src/Ingest/Reaping.antt =====
-- runtime/transactional_ingest.py: `_reap_expired_attempts` works on rows that it selected before
-- its first write. No row is touched twice, so each is still what the loop expects.
use knoarbor.Prelude.{
  ℕ, String, ◌≡◌, refl, ◌∙◌, true, Option, none, some, List, [], ◌∷◌, arith, str_eq, eq_iff,
  eq_refl, Bool-cases, Option-cases, inl, inr, if◌then◌else◌,
}
use mathlib.Core.Option
use knoarbor.Table.{
  Table, lookup, Unique, Unique-update_where, lookup-update_where, update_where-miss,
}
use knoarbor.Ingest.State.{Task, Store, recovery_needed, is_running}
use knoarbor.Ingest.Recovery.{
  reap_one, reap_rows, expired_tasks, reap_expired_attempts, is_expired_running, settle_task,
}
use knoarbor.Ingest.Consistent.{TaskOk, both_updated}
use knoarbor.Ingest.Invariant.{IsConsistent}

-- Rows that were selected as running, are in the table as selected, and have different keys.
abbrev pub Selected : Table Task → List (String × Task) → Type 0
Selected tasks [] = Unit {0}
Selected tasks ((k, t) ∷ rows) =
    (lookup k tasks ≡ some t)
    × (is_running t.state ≡ true)
    × (lookup k rows ≡ none)
    × Selected tasks rows

lookup-expired :
    (now : ℕ) (k : String) (tasks : Table Task)
    → lookup k tasks ≡ none
    → lookup k (expired_tasks now tasks) ≡ none
unfolding lookup expired_tasks
lookup-expired now k [] h = refl
lookup-expired now k ((j, t) ∷ tasks) h = ground (arith, lookup-expired now k tasks)

Selected-cons :
    (k : String) (t : Task) (tasks : Table Task) (rows : List (String × Task))
    → lookup k rows ≡ none
    → Selected tasks rows
    → Selected ((k, t) ∷ tasks) rows
unfolding lookup
Selected-cons k t tasks [] h w = tt
Selected-cons k t tasks ((j, u) ∷ rows) h w =
    ground (arith, Selected-cons k t tasks rows, eq_iff k j, eq_iff j k)

expired-Selected :
    (now : ℕ) (tasks : Table Task) → Unique tasks → Selected tasks (expired_tasks now tasks)
unfolding expired_tasks lookup
expired-Selected now [] u = tt
expired-Selected now ((k, t) ∷ tasks) u =
    let fresh = lookup-expired now k tasks u.0 in
    let rest =
      Selected-cons k t tasks (expired_tasks now tasks) fresh (expired-Selected now tasks u.1) in
    ground (arith, eq_refl k)

-- One round of the loop leaves the rows that are still to come.
Selected-reap_one :
    (now : ℕ) (k : String) (t : Task) (s : Store) (rows : List (String × Task))
    → lookup k rows ≡ none
    → Selected s.tasks rows
    → Selected (reap_one now (k, t) s).tasks rows
unfolding reap_one lookup
Selected-reap_one now k t s [] h w = tt
Selected-reap_one now k t s ((j, u) ∷ rows) h w = (
  update_where-miss _ _ j s.tasks w.0 (ground arith),
  w.1,
  w.2,
  Selected-reap_one now k t s rows (ground arith) w.3,
)

reap_one-IsConsistent :
    (now : ℕ) (k : String) (t : Task) (s : Store)
    → lookup k s.tasks ≡ some t
    → is_running t.state ≡ true
    → IsConsistent s
    → IsConsistent (reap_one now (k, t) s)
unfolding reap_one
reap_one-IsConsistent now k t s e busy v =
    let row : TaskOk s.attempts k t = v.tied k t e in
    record {
      unique = Unique-update_where _ _ s.tasks v.unique;
      tied =
          both_updated s.tasks s.attempts k t row.current _ _ _ _
            (
              e,
              λ j u h. (eq_iff j k).0 (ground arith),
              ground (arith, eq_refl k),
              row.found,
              λ j b h. (eq_iff j t.current_attempt_id).0 (ground arith),
              ground (arith, eq_refl t.current_attempt_id, row.same_state),
            )
            (refl, row.own, refl, refl) v.tied;
    }

reap_rows-IsConsistent :
    (now : ℕ) (rows : List (String × Task)) (s : Store)
    → Selected s.tasks rows
    → IsConsistent s
    → IsConsistent (reap_rows now rows s)
unfolding reap_rows
reap_rows-IsConsistent now [] s w v = v
reap_rows-IsConsistent now ((k, t) ∷ rows) s w v =
    reap_rows-IsConsistent now rows (reap_one now (k, t) s)
      (Selected-reap_one now k t s rows w.2 w.3) (reap_one-IsConsistent now k t s w.0 w.1 v)

pub reap_expired_attempts-IsConsistent :
    (now : ℕ) (s : Store) → IsConsistent s → IsConsistent (reap_expired_attempts now s).1
unfolding reap_expired_attempts
reap_expired_attempts-IsConsistent now s v =
    reap_rows-IsConsistent now (expired_tasks now s.tasks) s (expired-Selected now s.tasks v.unique)
      v

-- The loop against its meaning: the row that was selected under a name is settled, others stay.
settled_if : ℕ → Option Task → Option Task → Option Task
settled_if now none old = old
settled_if now (some t) old = some (settle_task recovery_needed now t)

lookup-reap_one :
    (now : ℕ) (k : String) (t : Task) (s : Store) (j : String)
    → lookup k s.tasks ≡ some t
    → is_running t.state ≡ true
    → lookup j (reap_one now (k, t) s).tasks
      ≡ (if str_eq k j then some (settle_task recovery_needed now t) else lookup j s.tasks)
unfolding reap_one
lookup-reap_one now k t s j e busy =
    lookup-update_where _ _ j s.tasks ∙ elim (Bool-cases (str_eq k j)) [
      | inl same ↦ ground (arith, eq_iff k j, eq_refl k)
      | inr differ ↦ rw differ (elim (Option-cases (lookup j s.tasks)) [
        | inl gone ↦ rw gone
        | inr (u, found) ↦ rw found (ground (arith, eq_iff k j, eq_iff j k))
      ])
    ]

lookup-reap_rows :
    (now : ℕ) (rows : List (String × Task)) (s : Store) (j : String)
    → Selected s.tasks rows
    → lookup j (reap_rows now rows s).tasks ≡ settled_if now (lookup j rows) (lookup j s.tasks)
unfolding reap_rows settled_if lookup
lookup-reap_rows now [] s j w = refl
lookup-reap_rows now ((k, t) ∷ rows) s j w =
    lookup-reap_rows now rows (reap_one now (k, t) s) j (Selected-reap_one now k t s rows w.2 w.3)
    ∙ elim (Bool-cases (str_eq k j)) [
      | inl same ↦ ground (arith, lookup-reap_one now k t s j w.0 w.1, eq_iff k j)
      | inr differ ↦ ground (arith, lookup-reap_one now k t s j w.0 w.1)
    ]

abbrev pub expired_row : ℕ → Option Task → Option Task
expired_row now none = none
expired_row now (some t) = if is_expired_running t now then some t else none

lookup-expired_tasks :
    (now : ℕ) (tasks : Table Task) (j : String)
    → Unique tasks
    → lookup j (expired_tasks now tasks) ≡ expired_row now (lookup j tasks)
unfolding lookup expired_tasks
lookup-expired_tasks now [] j u = refl
lookup-expired_tasks now ((k, t) ∷ tasks) j u =
    ground (arith, lookup-expired_tasks now tasks j u.1, eq_iff k j, lookup-expired now k tasks u.0)

abbrev pub reap_row : ℕ → Task → Task
reap_row now t = if is_expired_running t now then settle_task recovery_needed now t else t

-- Reaping rewrites exactly the running tasks whose lease the clock has passed.
pub lookup-reap_expired_attempts :
    (now : ℕ) (s : Store) (j : String)
    → IsConsistent s
    → lookup j (reap_expired_attempts now s).1.tasks ≡ Option.map (reap_row now) (lookup j s.tasks)
unfolding reap_expired_attempts settled_if
lookup-reap_expired_attempts now s j v =
    lookup-reap_rows now (expired_tasks now s.tasks) s j (expired-Selected now s.tasks v.unique)
    ∙ elim (Option-cases (lookup j s.tasks)) [
      | inl gone ↦ ground (arith, lookup-expired_tasks now s.tasks j v.unique)
      | inr (t, found) ↦ ground (arith, lookup-expired_tasks now s.tasks j v.unique)
    ]
