-- ===== src/Store/Executions.antt =====
-- infrastructure/persistence/workflow_execution_repository.go.
use antflow_server.Base.{
  ℕ, ◌+◌, Bool, true, false, not, ◌&&◌, Option, none, some, List, [], ◌∷◌, ◌++◌, map, String,
  str_eq, exists, find, select, update, ltb, if◌then◌else◌,
}
use mathlib.Core.Option
use antflow_server.Domain.{
  WorkflowExecution, Bytes, State, created, running, compensating, completed, failed, cancelled,
  scheduled, not_found, conflict, no_rows,
}
use antflow_server.Store.World.{
  Db, M, ◌>>=◌, pure, throw, gets, stmt, query, base_stmt, base_query, insert_if, or_throw,
}

-- PRIMARY KEY (id), the foreign key to the definition, and the CHECK on the state.
abbrev pub is_execution_state : State → Bool
is_execution_state scheduled = false
is_execution_state _ = true

unfoldable pub execution_fits : WorkflowExecution → Db → Bool
execution_fits x d =
    exists (λ r. str_eq r.id x.workflow_definition_id) d.definitions
    && not (exists (λ r. str_eq r.id x.id) d.executions)
    && is_execution_state x.state

-- The INSERT names no result, error or completed_at.
abbrev pub execution_row : WorkflowExecution → WorkflowExecution
execution_row x = record x { result = []; error = ""; completed_at = none }

unfoldable pub create : WorkflowExecution → M (Unit {0})
unfolding execution_fits
create x = stmt λ d.
    insert_if (execution_fits x d) (record d { executions = d.executions ++ execution_row x ∷ [] })

abbrev pub has_id : String → WorkflowExecution → Bool
has_id id r = str_eq r.id id

unfoldable pub get_by_id : String → M WorkflowExecution
get_by_id id = do row ← query λ d. find (has_id id) d.executions; or_throw not_found row

-- state NOT IN ('COMPLETED','FAILED','CANCELLED')
abbrev pub is_open : State → Bool
is_open completed = false
is_open failed = false
is_open cancelled = false
is_open _ = true

abbrev pub open_row : String → WorkflowExecution → Bool
open_row id r = has_id id r && is_open r.state

-- The two statements of the switch: the terminal states set completed_at too.
abbrev pub set_state : State → ℕ → WorkflowExecution → WorkflowExecution
set_state completed now r = record r {
  state = completed;
  completed_at = some now;
  updated_at = now;
}
set_state failed now r = record r { state = failed; completed_at = some now; updated_at = now }
set_state cancelled now r = record r {
  state = cancelled;
  completed_at = some now;
  updated_at = now;
}
set_state s now r = record r { state = s; updated_at = now }

-- An UPDATE of the rows that pass, and whether there was one.
abbrev pub update_rows :
    (WorkflowExecution → Bool) → (WorkflowExecution → WorkflowExecution) → Db → Option (Bool × Db)
update_rows p f d = some (exists p d.executions, record d { executions = update p f d.executions })

unfoldable pub update_state : String → State → M (Unit {0})
update_state id state = do
  now ← gets λ w. w.now
  hit ← stmt (update_rows (open_row id) (set_state state now))
  if hit then pure tt else throw conflict

unfoldable pub update_step_cursor : String → ℕ → M Bool
update_step_cursor id next_step = do
  now ← gets λ w. w.now
  stmt (update_rows (open_row id) (λ r. record r { current_step = next_step; updated_at = now }))

unfoldable pub save_result : String → Bytes → M Bool
save_result id result = do
  now ← gets λ w. w.now
  stmt (update_rows (open_row id) (λ r. record r { result = result; updated_at = now }))

-- UPDATE ... RETURNING: the column of the updated row, or sql.ErrNoRows.
abbrev pub update_returning :
    String → (WorkflowExecution → WorkflowExecution) → (WorkflowExecution → ℕ) → M ℕ
update_returning id f column = do
  row ← stmt λ d. some (
    Option.map (λ r. column (f r)) (find (has_id id) d.executions),
    record d { executions = update (has_id id) f d.executions },
  )
  or_throw no_rows row

unfoldable pub increment_completed_steps : String → M ℕ
increment_completed_steps id = do
  now ← gets λ w. w.now
  update_returning id (λ r. record r { completed_steps = r.completed_steps + 1; updated_at = now })
      (λ r. r.completed_steps)

unfoldable pub increment_compensation_done : String → M ℕ
increment_compensation_done id = do
  now ← gets λ w. w.now
  update_returning id
      (λ r. record r { compensation_done = r.compensation_done + 1; updated_at = now })
      (λ r. r.compensation_done)

unfoldable pub set_compensation_total : String → ℕ → M Bool
set_compensation_total id total = do
  now ← gets λ w. w.now
  stmt (update_rows (has_id id) (λ r. record r { compensation_total = total; updated_at = now }))

abbrev pub before : Option ℕ → ℕ → Bool
before none now = false
before (some t) now = ltb t now

-- deadline_at < NOW() AND state IN ('CREATED', 'RUNNING', 'COMPENSATING')
abbrev pub is_expirable : State → Bool
is_expirable created = true
is_expirable running = true
is_expirable compensating = true
is_expirable _ = false

abbrev pub is_overdue : ℕ → WorkflowExecution → Bool
is_overdue now r = before r.deadline_at now && is_expirable r.state

abbrev pub expire_row : ℕ → WorkflowExecution → WorkflowExecution
expire_row now r = record r {
  state = failed;
  error = "workflow exceeded its configured timeout";
  completed_at = some now;
  updated_at = now;
}

unfoldable pub expire_overdue : M (List String)
expire_overdue = do
  now ← gets λ w. w.now
  base_stmt λ d. some (
    map (λ r. r.id) (select (is_overdue now) d.executions),
    record d { executions = update (is_overdue now) (expire_row now) d.executions },
  )

unfoldable pub save_error : String → String → M Bool
save_error id error = do
  now ← gets λ w. w.now
  stmt (update_rows (has_id id) (λ r. record r { error = error; updated_at = now }))

abbrev pub is_active_state : State → Bool
is_active_state running = true
is_active_state compensating = true
is_active_state _ = false

unfoldable pub get_active_executions : M (List WorkflowExecution)
get_active_executions = base_query λ d. select (λ r. is_active_state r.state) d.executions
