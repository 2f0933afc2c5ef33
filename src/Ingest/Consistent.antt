-- ===== src/Ingest/Consistent.antt =====
-- What ties a task to its current attempt, and the lemma that each transaction's writes keep it.
use knoarbor.Prelude.{
  String, ◌≡◌, sym, str_eq, eq_iff, ◌≢◌, Bool, true, false, some, arith, is_some, Bool-cases, inl,
  inr, ok, ◌∙◌,
}
use mathlib.Core.Path.{subst, subst₂}
use knoarbor.Table.{
  Table, lookup, update, update_where, insert, insert-eq-ok, lookup-insert, Rows, update_where-inv,
  update_where-hit, update_where-miss,
}
use knoarbor.Ingest.State.{Task, Attempt, is_running}

-- The current attempt of a task exists, is the task's own and is in the task's state; and a task
-- is running exactly while it has a lease.
pub record TaskOk (attempts : Table Attempt) (task_id : String) (t : Task) : Type 0 where
  pub current : Attempt
  pub found : lookup t.current_attempt_id attempts ≡ some current
  pub own : current.task_id ≡ task_id
  pub same_state : current.state ≡ t.state
  pub leased : is_running t.state ≡ is_some t.lease_expires_at

-- The writes of one transaction: `test` rewrites the row of one task, `hit` that of its attempt.
module _ (tasks : Table Task) (attempts : Table Attempt) (task_id : String) (t : Task) (a : Attempt)
    (test : String → Task → Bool) (f : Task → Task) (hit : String → Attempt → Bool)
    (g : Attempt → Attempt) where
  abbrev pub Targets : Type 0
  Targets =
      (lookup task_id tasks ≡ some t)
      × ((k : String) (u : Task) → test k u ≡ true → k ≡ task_id)
      × (test task_id t ≡ true)
      × (lookup t.current_attempt_id attempts ≡ some a)
      × ((k : String) (b : Attempt) → hit k b ≡ true → k ≡ t.current_attempt_id)
      × (hit t.current_attempt_id a ≡ true)

  abbrev pub KeepsTie : Type 0
  KeepsTie =
      ((f t).current_attempt_id ≡ t.current_attempt_id)
      × ((g a).task_id ≡ task_id)
      × ((g a).state ≡ (f t).state)
      × (is_running (f t).state ≡ is_some (f t).lease_expires_at)

  other_row :
      Targets
      → a.task_id ≡ task_id
      → (k : String) (u : Task) → TaskOk attempts k u
      → test k u ≡ false
      → k ≢ task_id
      → TaskOk (update_where hit g attempts) k u
  other_row targets own k u w miss other = record {
    current = w.current;
    found =
        update_where-miss hit g u.current_attempt_id attempts w.found
          (elim (Bool-cases (hit u.current_attempt_id w.current)) [
            | inl e ↦ absurd (
                other
                  (cc (targets.4 u.current_attempt_id w.current e, targets.3, w.found, own, w.own)))
            | inr e ↦ e
          ]);
    own = w.own;
    same_state = w.same_state;
    leased = w.leased;
  }

  target_own : Targets → Rows (TaskOk attempts) tasks → a.task_id ≡ task_id
  target_own targets w =
      let row : TaskOk attempts task_id t = w task_id t targets.0 in
      cc (row.found, row.own, targets.3)

  target_is_row : (k : String) (u : Task) → Targets → lookup k tasks ≡ some u → k ≡ task_id → u ≡ t
  target_is_row k u targets e same = cc (targets.0)

  target_row : Targets → KeepsTie → TaskOk (update_where hit g attempts) task_id (f t)
  target_row targets keeps = record {
    current = g a;
    found = cc (keeps.0, update_where-hit hit g t.current_attempt_id attempts targets.3 targets.5);
    own = keeps.1;
    same_state = keeps.2;
    leased = keeps.3;
  }

  pub both_updated :
      Targets
      → KeepsTie
      → Rows (TaskOk attempts) tasks
      → Rows (TaskOk (update_where hit g attempts)) (update_where test f tasks)
  both_updated targets keeps w k v h =
      let (u, e, v_is) = update_where-inv test f k tasks v h in
      elim (Bool-cases (test k u)) [
        | inl yes' ↦
            let same : k ≡ task_id = targets.1 k u yes' in
            subst₂ (TaskOk (update_where hit g attempts)) (sym same)
              (ground (arith, target_is_row k u targets e same)) (target_row targets keeps)
        | inr no' ↦ subst (TaskOk (update_where hit g attempts) k) (ground arith) (
            other_row targets (target_own targets w) k u (w k u e) no'
              (λ same. cc (target_is_row k u targets e same, targets.2, same, no')))
      ]

-- A write to tasks that keeps each row's tie, with the attempts left alone.
pub tasks_updated :
    (test : String → Task → Bool) (f : Task → Task) (attempts : Table Attempt) (tasks : Table Task)
    → ((k : String) (u : Task)
        → lookup k tasks ≡ some u
        → test k u ≡ true
        → TaskOk attempts k u
        → TaskOk attempts k (f u))
    → Rows (TaskOk attempts) tasks
    → Rows (TaskOk attempts) (update_where test f tasks)
tasks_updated test f attempts tasks keeps w k v h =
    let (u, e, v_is) = update_where-inv test f k tasks v h in
    elim (Bool-cases (test k u)) [
      | inl hit ↦ subst (TaskOk attempts k) (ground arith) (keeps k u e hit (w k u e))
      | inr miss ↦ subst (TaskOk attempts k) (ground arith) (w k u e)
    ]

-- Every task but one.
abbrev pub Others : String → Table Attempt → Table Task → Type 0
Others id attempts tasks =
    (k : String) (u : Task) → lookup k tasks ≡ some u → k ≢ id → TaskOk attempts k u

-- An attempt of that one task may be rewritten at will.
pub Others-update :
    (id attempt_id : String) (g : Attempt → Attempt) (attempts : Table Attempt) (tasks : Table Task)
    (a : Attempt)
    → lookup attempt_id attempts ≡ some a
    → a.task_id ≡ id
    → Others id attempts tasks
    → Others id (update attempt_id g attempts) tasks
Others-update id attempt_id g attempts tasks a e own w k u h other =
    let row : TaskOk attempts k u = w k u h other in
    record {
      current = row.current;
      found =
          update_where-miss (λ j _. str_eq j attempt_id) g u.current_attempt_id attempts row.found
            (elim (Bool-cases (str_eq u.current_attempt_id attempt_id)) [
              | inl same ↦ absurd (
                  other (
                    cc (
                      (eq_iff u.current_attempt_id attempt_id).0 same,
                      e,
                      row.found,
                      own,
                      row.own,
                    )))
              | inr differ ↦ differ
            ]);
      own = row.own;
      same_state = row.same_state;
      leased = row.leased;
    }

TaskOk-insert :
    (attempt_id : String) (a : Attempt) (attempts attempts' : Table Attempt) (k : String) (u : Task)
    → insert attempt_id a attempts ≡ ok attempts'
    → TaskOk attempts k u
    → TaskOk attempts' k u
TaskOk-insert attempt_id a attempts attempts' k u h row = record {
  current = row.current;
  found =
      lookup-insert attempt_id a attempts attempts' u.current_attempt_id h
      ∙ elim (Bool-cases (str_eq attempt_id u.current_attempt_id)) [
        | inl same ↦ absurd (
            cc (
              (eq_iff attempt_id u.current_attempt_id).0 same,
              row.found,
              (insert-eq-ok attempt_id a attempts attempts' h).0,
            ))
        | inr differ ↦ rw differ row.found
      ];
  own = row.own;
  same_state = row.same_state;
  leased = row.leased;
}

-- An attempt under a fresh name disturbs no task.
pub Others-insert :
    (id attempt_id : String) (a : Attempt) (attempts attempts' : Table Attempt) (tasks : Table Task)
    → insert attempt_id a attempts ≡ ok attempts'
    → Others id attempts tasks
    → Others id attempts' tasks
Others-insert id attempt_id a attempts attempts' tasks h w k u e other =
    TaskOk-insert attempt_id a attempts attempts' k u h (w k u e other)

pub Others-total :
    (id : String) (attempts : Table Attempt) (tasks : Table Task)
    → Rows (TaskOk attempts) tasks
    → Others id attempts tasks
Others-total id attempts tasks w k u e other = w k u e

-- With the one task tied again all tasks are.
pub Others-update_task :
    (id : String) (f : Task → Task) (attempts : Table Attempt) (tasks : Table Task) (t : Task)
    → lookup id tasks ≡ some t
    → TaskOk attempts id (f t)
    → Others id attempts tasks
    → Rows (TaskOk attempts) (update id f tasks)
Others-update_task id f attempts tasks t e tied w k v h =
    let (u, e', v_is) = update_where-inv (λ j _. str_eq j id) f k tasks v h in
    elim (Bool-cases (str_eq k id)) [
      | inl same ↦
          let at : k ≡ id = (eq_iff k id).0 same in
          subst₂ (TaskOk attempts) (sym at) (ground (arith, target at u e')) tied
      | inr differ ↦
          subst (TaskOk attempts k) (ground arith)
            (w k u e' (λ at. cc (differ, (eq_iff k id).1 at)))
    ]
  where
    target : k ≡ id → (u : Task) → lookup k tasks ≡ some u → u ≡ t
    target at u e' = cc

-- A new task with a new attempt.
pub new_task_added :
    (id : String) (t : Task) (attempt_id : String) (a : Attempt) (tasks tasks' : Table Task)
    (attempts attempts' : Table Attempt)
    → insert id t tasks ≡ ok tasks'
    → insert attempt_id a attempts ≡ ok attempts'
    → TaskOk attempts' id t
    → Rows (TaskOk attempts) tasks
    → Rows (TaskOk attempts') tasks'
new_task_added id t attempt_id a tasks tasks' attempts attempts' h h' tied w k u e =
    elim (Bool-cases (str_eq id k)) [
      | inl same ↦
          subst₂ (TaskOk attempts') ((eq_iff id k).0 same)
            (ground (arith, lookup-insert id t tasks tasks' k h)) tied
      | inr differ ↦
          TaskOk-insert attempt_id a attempts attempts' k u h'
            (w k u (ground (arith, lookup-insert id t tasks tasks' k h)))
    ]
