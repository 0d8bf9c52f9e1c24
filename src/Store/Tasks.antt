-- ===== src/Store/Tasks.antt =====
-- infrastructure/persistence/task_repository.go.
use antflow_server.Base.{
  ℕ, ◌+◌, Bool, true, false, not, ◌&&◌, ◌||◌, Option, none, some, List, [], ◌∷◌, ◌++◌, String,
  str_eq, exists, find, select, update, delete, ltb, leb, ◌==◌, if◌then◌else◌,
}
use antflow_server.Domain.{
  Task, Bytes, State, created, running, completed, failed, cancelled, scheduled, state_eq,
  not_found, is_null,
}
use antflow_server.Store.World.{
  Db, M, ◌>>=◌, ◌>>◌, pure, throw, gets, stmt, query, base_stmt, insert_if, or_throw, poll_in_tx,
}
use antflow_server.Store.Executions.{before}

-- state IN ('CREATED','SCHEDULED','RUNNING')
abbrev pub is_active : State → Bool
is_active created = true
is_active scheduled = true
is_active running = true
is_active _ = false

-- `chk_task_state`
abbrev pub is_task_state : State → Bool
is_task_state s = is_active s || state_eq s completed || state_eq s failed || state_eq s cancelled

abbrev pub same_step : String → ℕ → Task → Bool
same_step id index r = str_eq r.workflow_execution_id id && r.step_index == index

-- The constraints of the table `task`.
unfoldable pub task_fits : Task → Db → Bool
task_fits t d =
    not (exists (λ r. str_eq r.id t.id) d.tasks)
    && exists (λ r. str_eq r.id t.workflow_execution_id) d.executions
    && not (exists (same_step t.workflow_execution_id t.step_index) d.tasks)
    && is_task_state t.state
    && ltb 0 t.max_attempts
    && not (is_null t.input)

-- The INSERT names eleven columns; the others are NULL.
abbrev pub task_row : Task → Task
task_row t = record t {
  output = [];
  error = "";
  started_at = none;
  completed_at = none;
  locked_until = none;
}

unfoldable pub create : Task → M (Unit {0})
create t = stmt λ d. insert_if (task_fits t d) (record d { tasks = d.tasks ++ task_row t ∷ [] })

abbrev pub has_id : String → Task → Bool
has_id id r = str_eq r.id id

unfoldable pub get_by_id : String → M Task
get_by_id id = do row ← query λ d. find (has_id id) d.tasks; or_throw not_found row

-- The WHERE clause of FindAndLockPending.
abbrev pub is_due : State → Option ℕ → ℕ → ℕ → Bool
is_due created locked_until at now = leb at now
is_due running locked_until at now = before locked_until now
is_due _ locked_until at now = false

abbrev pub is_eligible : String → ℕ → Task → Bool
is_eligible queue now t =
    str_eq t.task_queue queue && is_due t.state t.locked_until t.scheduled_at now

-- ORDER BY scheduled_at ASC LIMIT 1; of rows that tie, the first of the table.
abbrev pub earlier : Task → Option Task → Task
earlier t none = t
earlier t (some u) = if leb t.scheduled_at u.scheduled_at then t else u

unfoldable pub earliest : List Task → Option Task
earliest [] = none
earliest (t ∷ ts) = some (earlier t (earliest ts))

abbrev pub lock_row : ℕ → ℕ → Task → Task
lock_row now locked_until r = record r {
  state = running;
  started_at = some now;
  locked_until = some locked_until;
  attempt = r.attempt + 1;
}

-- The struct that is returned: the columns of the SELECT, and the update mirrored.
abbrev pub locked : ℕ → Task → Task
locked now t =
    lock_row now (now + t.timeout_seconds)
      (record t { output = []; error = ""; completed_at = none })

unfoldable pub lock : Option Task → M (Option Task)
lock none = pure none
lock (some t) = do
  now ← gets λ w. w.now
  stmt λ d. some (
    tt,
    record d { tasks = update (has_id t.id) (lock_row now (now + t.timeout_seconds)) d.tasks },
  )
  pure (some (locked now t))

unfoldable pub find_and_lock_pending : String → M (Option Task)
unfolding lock earliest
find_and_lock_pending queue = poll_in_tx do
  now ← gets λ w. w.now
  row ← query λ d. earliest (select (is_eligible queue now) d.tasks)
  lock row

abbrev pub done_state : String → State
done_state error = if str_eq error "" then completed else failed

abbrev pub complete_row : Bytes → String → ℕ → Task → Task
complete_row output error now r = record r {
  state = done_state error;
  output = output;
  error = error;
  completed_at = some now;
}

-- An UPDATE of the rows that pass, and whether there was one.
abbrev pub update_rows : (Task → Bool) → (Task → Task) → Db → Option (Bool × Db)
update_rows p f d = some (exists p d.tasks, record d { tasks = update p f d.tasks })

unfoldable pub update_completed : String → Bytes → String → M Bool
update_completed id output error = do
  now ← gets λ w. w.now
  stmt (update_rows (has_id id) (complete_row output error now))

unfoldable pub delete_by_id : String → M (Unit {0})
delete_by_id id = stmt λ d. some (tt, record d { tasks = delete (has_id id) d.tasks })

unfoldable pub update_state : String → State → M Bool
update_state id state =
    stmt (update_rows (has_id id) (λ r. record r { state = state; locked_until = none }))

abbrev pub pending_of : String → Task → Bool
pending_of id r = str_eq r.workflow_execution_id id && is_active r.state

abbrev pub cancel_row : Task → Task
cancel_row r = record r { state = cancelled; locked_until = none }

unfoldable pub cancel_by_execution : String → M Bool
cancel_by_execution id = stmt (update_rows (pending_of id) cancel_row)

abbrev pub is_stuck : ℕ → Task → Bool
is_stuck now r = state_eq r.state running && before r.locked_until now

unfoldable pub reset_timed_out_tasks : M Bool
reset_timed_out_tasks = do
  now ← gets λ w. w.now
  base_stmt (update_rows (is_stuck now) (λ r. record r { state = created; locked_until = none }))

unfoldable pub has_active_tasks : String → M Bool
has_active_tasks id = query λ d. exists (pending_of id) d.tasks

abbrev pub renewable : String → Task → Bool
renewable id r = has_id id r && state_eq r.state running

abbrev pub renew_row : ℕ → Task → Task
renew_row now r = record r { locked_until = some (now + r.timeout_seconds) }

unfoldable pub renew_lock : String → M (Unit {0})
renew_lock id = do
  now ← gets λ w. w.now
  hit ← stmt (update_rows (renewable id) (renew_row now))
  if hit then pure tt else throw not_found
