-- ===== src/Ingest/Tasks.antt =====
-- runtime/transactional_ingest.py: the transactions on tasks, attempts and leases. A transaction
-- is a function from the store to its result and the new store; on an exception `__exit__` rolls
-- back, so `err` carries no store. Each reading of `time.time()` is an argument, in order.
use knoarbor.Prelude.{
  ℕ, ◌+◌, String, Bool, true, false, Option, none, some, [], ◌∷◌, not, ◌&&◌, ◌||◌, str_eq, opt_eq,
  Result, ok, ◌>>=◌, ◌>>◌, require, storage_conflict, integrity, if◌then◌else◌, ◌==◌, is_some,
}
use knoarbor.Table.{Table, update, update_where, row_count, insert}
use knoarbor.Json.{Json, object, end}
use knoarbor.Ingest.State.{
  Task, Attempt, AttemptLease, Store, TaskState, queued, running, partially_failed, failed,
  paused_rate_limited, recovery_needed, cancelled, is_queued, is_running, is_settled, task_row,
  attempt_row, lease_over,
}

-- `IngestExecutionCommand`: its JSON dump, and `generation_id` again.
pub record Command : Type 0 where
  pub payload : Json
  pub generation_id : String

-- `insert into tasks`, under the primary key and the unique index on `command_hash`.
unfoldable pub hash_taken : Option String → Table Task → Bool
hash_taken h [] = false
hash_taken h ((k, t) ∷ ts) = (is_some h && opt_eq t.command_hash h) || hash_taken h ts

-- `select task_id, current_attempt_id from tasks where command_hash=?`: the first such row. The
-- unique index leaves at most one, so its order by `created_at` plays no part.
unfoldable pub find_command : String → Table Task → Option (String × Task)
find_command h [] = none
find_command h ((k, t) ∷ ts) =
    if opt_eq t.command_hash (some h) then some (k, t) else find_command h ts

-- `insert into attempts`, under the primary key and the unique index on `(task_id, ordinal)`.
unfoldable pub ordinal_taken : String → ℕ → Table Attempt → Bool
ordinal_taken task_id n [] = false
ordinal_taken task_id n ((k, a) ∷ rows) =
    (str_eq a.task_id task_id && a.ordinal == n) || ordinal_taken task_id n rows

unfoldable pub insert_attempt : String → Attempt → Table Attempt → Result (Table Attempt)
unfolding ordinal_taken
insert_attempt attempt_id a rows = do
  require (not (ordinal_taken a.task_id a.ordinal rows)) (integrity "task_attempt_ordinal")
  insert attempt_id a rows

unfoldable pub insert_task : String → Task → Table Task → Result (Table Task)
unfolding hash_taken
insert_task task_id t ts = do
  require (not (hash_taken t.command_hash ts)) (integrity "task_command_hash")
  insert task_id t ts

abbrev pub new_attempt : String → ℕ → ℕ → Attempt
new_attempt task_id ordinal now = record {
  task_id = task_id;
  ordinal = ordinal;
  state = queued;
  created_at = now;
  updated_at = now;
  finished_at = none;
  result = none;
  error = none;
}

abbrev pub new_task : Command → String → String → ℕ → Task
new_task command hash attempt_id now = record {
  command = command.payload;
  command_hash = some hash;
  input_generation_id = command.generation_id;
  state = queued;
  current_attempt_id = attempt_id;
  version = 1;
  cancel_requested = false;
  lease_owner = none;
  lease_epoch = 0;
  lease_expires_at = none;
  created_at = now;
  updated_at = now;
}

-- `submit_command`. `hash` is `command.command_hash()`; `task_id` and `attempt_id` are what `_id`
-- draws for a new task. The result names the task and its current attempt, with their rows.
abbrev pub Admission : Type 0
Admission = (String × Task) × (String × Attempt)

unfoldable pub existing_command : String × Task → Store → Result (Admission × Store)
existing_command (task_id, t) s = do
  task ← task_row task_id s
  attempt ← attempt_row t.current_attempt_id s
  ok (((task_id, task), (t.current_attempt_id, attempt)), s)

unfoldable pub new_command :
    Command → String → String → String → ℕ → Store → Result (Admission × Store)
unfolding insert_task insert_attempt
new_command command hash task_id attempt_id now s = do
  tasks ← insert_task task_id (new_task command hash attempt_id now) s.tasks
  attempts ← insert_attempt attempt_id (new_attempt task_id 1 now) s.attempts
  let s' = record s { tasks = tasks; attempts = attempts }
  task ← task_row task_id s'
  attempt ← attempt_row attempt_id s'
  ok (((task_id, task), (attempt_id, attempt)), s')

unfoldable pub submit_command :
    Command → String → String → String → ℕ → Store → Result (Admission × Store)
unfolding find_command
submit_command command hash task_id attempt_id now s = elim (find_command hash s.tasks) [
  | none ↦ new_command command hash task_id attempt_id now s
  | some row ↦ existing_command row s
]

-- `expected_admission_version is not None and int(control["version"]) != expected…`.
abbrev pub admission_changed : Option ℕ → ℕ → Bool
admission_changed none version = false
admission_changed (some n) version = not (version == n)

-- `where task_id=? and version=?`, with the version that the transaction read.
abbrev pub at_version : String → ℕ → String → Task → Bool
at_version task_id version k t = str_eq k task_id && t.version == version

abbrev pub claim_task : String → ℕ → ℕ → ℕ → Task → Task
claim_task owner_id epoch expires now t = record t {
  state = running;
  version = t.version + 1;
  lease_owner = some owner_id;
  lease_epoch = epoch;
  lease_expires_at = some expires;
  updated_at = now;
}

unfoldable pub mark_claimed : String → Task → String → String → ℕ → ℕ → Store → Store
mark_claimed task_id task attempt_id owner_id expires now s = record s {
  tasks =
      update_where (at_version task_id task.version)
        (claim_task owner_id (task.lease_epoch + 1) expires now) s.tasks;
  attempts = update attempt_id (λ a. record a { state = running; updated_at = now }) s.attempts;
}

unfoldable pub claim :
    String → String → String → ℕ → Option ℕ → ℕ → Store → Result (AttemptLease × Store)
unfolding mark_claimed
claim task_id attempt_id owner_id lease_seconds expected_version now s = do
  task ← task_row task_id s
  require (not s.control.paused) (storage_conflict "Ingest admission is paused.")
  require (not (admission_changed expected_version s.control.version))
      (storage_conflict "Ingest admission changed before claim.")
  require
      (str_eq task.current_attempt_id attempt_id
        && is_queued task.state
        && not task.cancel_requested)
      (storage_conflict "Ingest task is no longer claimable.")
  let expires = now + lease_seconds
  require (row_count (at_version task_id task.version) s.tasks == 1)
      (storage_conflict "Ingest task changed while being claimed.")
  ok (
    record {
      task_id = task_id;
      attempt_id = attempt_id;
      epoch = task.lease_epoch + 1;
      expires_at = expires;
    },
    mark_claimed task_id task attempt_id owner_id expires now s,
  )

-- The fence that `renew` and `finish` share, and `publish_revision` with no test of the state.
abbrev pub holds_epoch : AttemptLease → Task → ℕ → Bool
holds_epoch lease task now =
    str_eq task.current_attempt_id lease.attempt_id
    && task.lease_epoch == lease.epoch
    && not (lease_over task.lease_expires_at now)

unfoldable pub mark_renewed : String → ℕ → ℕ → Store → Store
mark_renewed task_id expires now s = record s {
  tasks =
      update task_id (λ t. record t { lease_expires_at = some expires; updated_at = now }) s.tasks;
}

unfoldable pub renew : AttemptLease → ℕ → ℕ → Store → Result (AttemptLease × Store)
unfolding mark_renewed
renew lease lease_seconds now s = do
  task ← task_row lease.task_id s
  require (holds_epoch lease task now && is_running task.state && not task.cancel_requested)
      (storage_conflict "Stale ingest worker cannot renew this lease.")
  let expires = now + lease_seconds
  ok (record lease { expires_at = expires }, mark_renewed lease.task_id expires now s)

-- The states from which a cancellation takes effect at once.
abbrev pub cancels_now : TaskState → Bool
cancels_now queued = true
cancels_now failed = true
cancels_now partially_failed = true
cancels_now paused_rate_limited = true
cancels_now recovery_needed = true
cancels_now _ = false

abbrev pub is_cancelled : TaskState → Bool
is_cancelled cancelled = true
is_cancelled _ = false

-- `if expected_attempt_id and …`: the empty text is no expectation either.
abbrev pub other_attempt : Option String → String → Bool
other_attempt none current = false
other_attempt (some expected) current = not (str_eq expected "") && not (str_eq current expected)

abbrev pub after_cancel : TaskState → TaskState
after_cancel state = if cancels_now state then cancelled else state

abbrev pub cancel_task : TaskState → ℕ → Task → Task
cancel_task state now t = record t {
  state = state;
  cancel_requested = true;
  version = t.version + 1;
  updated_at = now;
}

unfoldable pub mark_cancelled : String → Task → ℕ → Store → Store
mark_cancelled task_id task now s = record s {
  tasks = update task_id (cancel_task (after_cancel task.state) now) s.tasks;
  attempts =
      if is_cancelled (after_cancel task.state)
      then update task.current_attempt_id
          (λ a. record a { state = cancelled; updated_at = now; finished_at = some now }) s.attempts
      else s.attempts;
}

unfoldable pub request_cancel : String → Option String → ℕ → Store → Result (Task × Store)
unfolding mark_cancelled
request_cancel task_id expected now s = do
  task ← task_row task_id s
  require (not (other_attempt expected task.current_attempt_id))
      (storage_conflict "Historical attempts cannot cancel the current task.")
  if is_settled task.state then ok (task, s) else do
    let s' = mark_cancelled task_id task now s
    task' ← task_row task_id s'
    ok (task', s')

-- `_canonical_json(result or {})`.
abbrev pub result_column : Option Json → Json
result_column none = object end
result_column (some v) = v

-- The last writes of an attempt: `update attempts set state=?, result=?, error=?, …`.
abbrev pub close_attempt : TaskState → Option Json → Option String → ℕ → Attempt → Attempt
close_attempt state result error now a = record a {
  state = state;
  result = some (result_column result);
  error = error;
  updated_at = now;
  finished_at = some now;
}

unfoldable pub mark_failed : String → String → String → Option Json → ℕ → Store → Store
mark_failed task_id attempt_id error result now s = record s {
  tasks =
      update task_id (λ t. record t { state = failed; version = t.version + 1; updated_at = now })
        s.tasks;
  attempts = update attempt_id (close_attempt failed result (some error) now) s.attempts;
}

unfoldable pub fail_queued_task :
    String → String → String → Option Json → ℕ → Store → Result (Task × Store)
unfolding mark_failed
fail_queued_task task_id attempt_id error result now s = do
  task ← task_row task_id s
  require (str_eq task.current_attempt_id attempt_id && is_queued task.state)
      (storage_conflict "Queued ingest task is no longer current.")
  let s' = mark_failed task_id attempt_id error result now s
  task' ← task_row task_id s'
  ok (task', s')
