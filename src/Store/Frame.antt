-- ===== src/Store/Frame.antt =====
-- What every request keeps, proved once for all relations between a database and a later one.
-- A `Frame` is such a relation that each statement of the repositories respects; an action keeps it
-- if the tables before and after are related, both the committed ones and those of a transaction,
-- however the action ends and whichever statements fail.
pub mod Guarded
pub mod Rules
pub mod Statements
use antflow_server.Base.{
  ℕ, ◌+◌, ◌≤◌, Bool, true, false, find, Option, some, ◌≡◌, List, [], ◌∷◌, ◌++◌, String, update,
  delete,
}
use antflow_server.Domain.Moves.{Moves}
use antflow_server.Domain.{
  Namespace, WorkflowDefinition, WorkflowDefinitionStep, WorkflowExecution, Task, CompensationTask,
  HistoryEvent, Checkpoint, State,
}
use antflow_server.Store.World.{Db, World}
use antflow_server.Store.Namespaces.{namespace_fits}
use antflow_server.Store.Definitions.{definition_fits, definition_row}
use antflow_server.Store.Steps.{step_fits}
use antflow_server.Store.Executions.{
  execution_fits, execution_row, open_row, is_open, is_execution_state, has_id, set_state,
  is_overdue, expire_row,
}
use antflow_server.Store.Tasks.{task_fits, task_row}
use antflow_server.Store.CompensationTasks.{compensation_task_fits, compensation_task_row}

-- The row of that id, if it is open, may go to that state.
abbrev pub CanMove : String → State → Db → Type 0
CanMove id s d =
    (x : WorkflowExecution)
    → find (has_id id) d.executions ≡ some x
    → is_open x.state ≡ true
    → is_execution_state x.state ≡ true
    → Moves x.state s

-- The UPDATE statements on `workflow_execution`, but for SaveResult, at the tables they run on. The
-- state is written where the row can move to it.
pub data ExecutionChange (d : Db)
    : (WorkflowExecution → Bool) → (WorkflowExecution → WorkflowExecution) → Type 0 where
  to_state :
      (id : String) (s : State) (now : ℕ)
      → CanMove id s d
      → ExecutionChange d (open_row id) (set_state s now)
  cursor :
      (id : String) (n now : ℕ)
      → ExecutionChange d (open_row id) (λ r. record r { current_step = n; updated_at = now })
  step_done :
      (id : String) (now : ℕ)
      → ExecutionChange d
          (has_id id)
          (λ r. record r { completed_steps = r.completed_steps + 1; updated_at = now })
  undo_done :
      (id : String) (now : ℕ)
      → ExecutionChange d
          (has_id id)
          (λ r. record r { compensation_done = r.compensation_done + 1; updated_at = now })
  undo_total :
      (id : String) (n now : ℕ)
      → ExecutionChange d (has_id id) (λ r. record r { compensation_total = n; updated_at = now })
  error_text :
      (id : String) (s : String) (now : ℕ)
      → ExecutionChange d (has_id id) (λ r. record r { error = s; updated_at = now })
  expire : (now : ℕ) → ExecutionChange d (is_overdue now) (expire_row now)

-- An UPDATE that leaves the row its key.
pub record KeepsTaskKey (f : Task → Task) : Type 0 where
  pub same_id : (r : Task) → (f r).id ≡ r.id
  pub same_execution : (r : Task) → (f r).workflow_execution_id ≡ r.workflow_execution_id
  pub same_index : (r : Task) → (f r).step_index ≡ r.step_index

pub record KeepsCompensationKey (f : CompensationTask → CompensationTask) : Type 0 where
  pub same_id : (r : CompensationTask) → (f r).id ≡ r.id
  pub same_execution :
      (r : CompensationTask) → (f r).workflow_execution_id ≡ r.workflow_execution_id
  pub same_index : (r : CompensationTask) → (f r).step_index ≡ r.step_index

pub record Frame : Type 1 where
  pub Rel : Db → Db → Type 0
  pub rel_refl : (d : Db) → Rel d d
  pub rel_trans : (a b c : Db) → Rel a b → Rel b c → Rel a c
  pub on_sequence : (d : Db) (n : ℕ) → d.event_seq ≤ n → Rel d (record d { event_seq = n })
  pub on_checkpoints :
      (d : Db) (cs : List Checkpoint) (n : ℕ)
      → Rel d (record d { checkpoints = cs; checkpoint_seq = n })
  pub on_namespace :
      (d : Db) (x : Namespace)
      → namespace_fits x d ≡ true
      → Rel d (record d { namespaces = d.namespaces ++ x ∷ [] })
  pub on_definition :
      (d : Db) (x : WorkflowDefinition)
      → definition_fits (definition_row x) d ≡ true
      → Rel d (record d { definitions = d.definitions ++ definition_row x ∷ [] })
  pub on_deactivate :
      (d : Db) (p : WorkflowDefinition → Bool)
      → Rel d
          (record d { definitions = update p (λ r. record r { is_active = false }) d.definitions })
  pub on_step :
      (d : Db) (x : WorkflowDefinitionStep)
      → step_fits x d ≡ true
      → Rel d (record d { steps = d.steps ++ x ∷ [] })
  pub on_execution :
      (d : Db) (x : WorkflowExecution)
      → execution_fits x d ≡ true
      → Rel d (record d { executions = d.executions ++ execution_row x ∷ [] })
  pub on_change :
      (d : Db) (p : WorkflowExecution → Bool) (f : WorkflowExecution → WorkflowExecution)
      → ExecutionChange d p f
      → Rel d (record d { executions = update p f d.executions })
  pub on_task :
      (d : Db) (x : Task)
      → task_fits x d ≡ true
      → Rel d (record d { tasks = d.tasks ++ task_row x ∷ [] })
  pub on_task_update :
      (d : Db) (p : Task → Bool) (f : Task → Task)
      → KeepsTaskKey f
      → Rel d (record d { tasks = update p f d.tasks })
  pub on_task_delete : (d : Db) (p : Task → Bool) → Rel d (record d { tasks = delete p d.tasks })
  pub on_compensation :
      (d : Db) (x : CompensationTask)
      → compensation_task_fits x d ≡ true
      → Rel d
          (record d { compensation_tasks = d.compensation_tasks ++ compensation_task_row x ∷ [] })
  pub on_compensation_update :
      (d : Db) (p : CompensationTask → Bool) (f : CompensationTask → CompensationTask)
      → KeepsCompensationKey f
      → Rel d (record d { compensation_tasks = update p f d.compensation_tasks })
  pub on_compensation_delete :
      (d : Db) (p : CompensationTask → Bool)
      → Rel d (record d { compensation_tasks = delete p d.compensation_tasks })
  pub on_event :
      (d : Db) (row : ℕ → HistoryEvent)
      → (row d.event_seq).id ≡ d.event_seq
      → Rel d
          (record d { history = d.history ++ row d.event_seq ∷ []; event_seq = d.event_seq + 1 })
