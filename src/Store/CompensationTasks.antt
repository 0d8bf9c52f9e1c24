-- ===== src/Store/CompensationTasks.antt =====
-- infrastructure/persistence/compensation_task_repository.go.
use antflow_server.Base.{
  ℕ, ◌+◌, Bool, not, ◌&&◌, Option, none, some, List, [], ◌∷◌, ◌++◌, String, str_eq, exists, find,
  select, update, delete, leb, ◌==◌, if◌then◌else◌,
}
use antflow_server.Domain.{CompensationTask, Bytes, running, cancelled, state_eq, not_found}
use antflow_server.Store.World.{
  Db, M, ◌>>=◌, ◌>>◌, pure, throw, gets, stmt, query, insert_if, or_throw, poll_in_tx,
}
use antflow_server.Store.Tasks.{is_active, is_task_state, is_due, done_state}

abbrev pub same_step : String → ℕ → CompensationTask → Bool
same_step id index r = str_eq r.workflow_execution_id id && r.step_index == index

-- The constraints of the table `compensation_task`: none on the attempts.
unfoldable pub compensation_task_fits : CompensationTask → Db → Bool
compensation_task_fits t d =
    not (exists (λ r. str_eq r.id t.id) d.compensation_tasks)
    && exists (λ r. str_eq r.id t.workflow_execution_id) d.executions
    && not (exists (same_step t.workflow_execution_id t.step_index) d.compensation_tasks)
    && is_task_state t.state

abbrev pub compensation_task_row : CompensationTask → CompensationTask
compensation_task_row t = record t {
  output = [];
  error = "";
  started_at = none;
  completed_at = none;
  locked_until = none;
}

unfoldable pub create : CompensationTask → M (Unit {0})
create t = stmt λ d.
    insert_if (compensation_task_fits t d)
      (record d { compensation_tasks = d.compensation_tasks ++ compensation_task_row t ∷ [] })

abbrev pub has_id : String → CompensationTask → Bool
has_id id r = str_eq r.id id

unfoldable pub get_by_id : String → M CompensationTask
get_by_id id = do row ← query λ d. find (has_id id) d.compensation_tasks; or_throw not_found row

abbrev pub is_eligible : String → ℕ → CompensationTask → Bool
is_eligible queue now t =
    str_eq t.task_queue queue && is_due t.state t.locked_until t.scheduled_at now

abbrev pub earlier : CompensationTask → Option CompensationTask → CompensationTask
earlier t none = t
earlier t (some u) = if leb t.scheduled_at u.scheduled_at then t else u

unfoldable pub earliest : List CompensationTask → Option CompensationTask
earliest [] = none
earliest (t ∷ ts) = some (earlier t (earliest ts))

abbrev pub lock_row : ℕ → ℕ → CompensationTask → CompensationTask
lock_row now locked_until r = record r {
  state = running;
  started_at = some now;
  locked_until = some locked_until;
  attempt = r.attempt + 1;
}

-- A timeout of 0 counts as 300 seconds here.
abbrev pub lock_seconds : ℕ → ℕ
lock_seconds n = if n == 0 then 300 else n

abbrev pub locked : ℕ → CompensationTask → CompensationTask
locked now t =
    lock_row now (now + lock_seconds t.timeout_seconds)
      (record t { output = []; error = ""; completed_at = none })

unfoldable pub lock : Option CompensationTask → M (Option CompensationTask)
lock none = pure none
lock (some t) = do
  now ← gets λ w. w.now
  stmt λ d. some (
    tt,
    record d {
      compensation_tasks =
          update (has_id t.id) (lock_row now (now + lock_seconds t.timeout_seconds))
            d.compensation_tasks;
    },
  )
  pure (some (locked now t))

unfoldable pub find_and_lock_pending : String → M (Option CompensationTask)
unfolding lock earliest
find_and_lock_pending queue = poll_in_tx do
  now ← gets λ w. w.now
  row ← query λ d. earliest (select (is_eligible queue now) d.compensation_tasks)
  lock row

abbrev pub complete_row : Bytes → String → ℕ → CompensationTask → CompensationTask
complete_row output error now r = record r {
  state = done_state error;
  output = output;
  error = error;
  completed_at = some now;
}

abbrev pub update_rows :
    (CompensationTask → Bool) → (CompensationTask → CompensationTask) → Db → Option (Bool × Db)
update_rows p f d = some (
  exists p d.compensation_tasks,
  record d { compensation_tasks = update p f d.compensation_tasks },
)

unfoldable pub update_completed : String → Bytes → String → M Bool
update_completed id output error = do
  now ← gets λ w. w.now
  stmt (update_rows (has_id id) (complete_row output error now))

unfoldable pub delete_by_id : String → M (Unit {0})
delete_by_id id =
    stmt λ d. some (tt, record d { compensation_tasks = delete (has_id id) d.compensation_tasks })

abbrev pub pending_of : String → CompensationTask → Bool
pending_of id r = str_eq r.workflow_execution_id id && is_active r.state

-- ORDER BY step_index DESC
insert_by_step : CompensationTask → List CompensationTask → List CompensationTask
insert_by_step x [] = x ∷ []
insert_by_step x (y ∷ ys) =
    let rest = insert_by_step x ys in if leb y.step_index x.step_index then x ∷ y ∷ ys else y ∷ rest

by_step_desc : List CompensationTask → List CompensationTask
unfolding insert_by_step
by_step_desc [] = []
by_step_desc (x ∷ xs) = insert_by_step x (by_step_desc xs)

unfoldable pub get_pending_by_execution : String → M (List CompensationTask)
unfolding by_step_desc
get_pending_by_execution id = query λ d. by_step_desc (select (pending_of id) d.compensation_tasks)

abbrev pub cancel_row : CompensationTask → CompensationTask
cancel_row r = record r { state = cancelled; locked_until = none }

unfoldable pub cancel_by_execution : String → M Bool
cancel_by_execution id = stmt (update_rows (pending_of id) cancel_row)

abbrev pub renewable : String → CompensationTask → Bool
renewable id r = has_id id r && state_eq r.state running

-- NOW() + INTERVAL '5 minutes', whatever the task's own timeout
abbrev pub renew_row : ℕ → CompensationTask → CompensationTask
renew_row now r = record r { locked_until = some (now + 300) }

unfoldable pub renew_lock : String → M (Unit {0})
renew_lock id = do
  now ← gets λ w. w.now
  hit ← stmt (update_rows (renewable id) (renew_row now))
  if hit then pure tt else throw not_found
