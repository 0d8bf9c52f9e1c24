-- ===== src/Store/Covered/Statements.antt =====
-- infrastructure/persistence: the statements of the repositories, run inside a transaction, leave
-- the committed tables alone.
use antflow_server.Base.{ℕ, Option, String}
use antflow_server.Domain.{
  Namespace, WorkflowDefinition, WorkflowDefinitionStep, WorkflowExecution, Task, CompensationTask,
  Bytes, State, EventType,
}
use antflow_server.Store.Namespaces
use antflow_server.Store.Definitions
use antflow_server.Store.Steps
use antflow_server.Store.Executions
use antflow_server.Store.Tasks
use antflow_server.Store.CompensationTasks
use antflow_server.Store.History
use antflow_server.Store.Covered.{Covered, covered_rules, Covered-save}

pub Covered-namespace_create : (x : Namespace) → Covered (Namespaces.create x)
unfolding Namespaces.create
Covered-namespace_create x = search covered_rules depth 14

pub Covered-namespace_get_by_name : (n : String) → Covered (Namespaces.get_by_name n)
unfolding Namespaces.get_by_name
Covered-namespace_get_by_name n = search covered_rules depth 14

pub Covered-definition_create : (x : WorkflowDefinition) → Covered (Definitions.create x)
unfolding Definitions.create
Covered-definition_create x = search covered_rules depth 14

pub Covered-definition_deactivate : (id : String) → Covered (Definitions.deactivate id)
unfolding Definitions.deactivate
Covered-definition_deactivate id = search covered_rules depth 14

pub Covered-definition_get_by_name : (ns n : String) → Covered (Definitions.get_by_name ns n)
unfolding Definitions.get_by_name
Covered-definition_get_by_name ns n = search covered_rules depth 14

pub Covered-step_create : (x : WorkflowDefinitionStep) → Covered (Steps.create x)
unfolding Steps.create
Covered-step_create x = search covered_rules depth 14

pub Covered-step_get_steps_by_definition_id :
    (id : String) → Covered (Steps.get_steps_by_definition_id id)
unfolding Steps.get_steps_by_definition_id
Covered-step_get_steps_by_definition_id id = search covered_rules depth 14

pub Covered-step_get_by_definition_and_index :
    (id : String) (i : ℕ) → Covered (Steps.get_by_definition_and_index id i)
unfolding Steps.get_by_definition_and_index
Covered-step_get_by_definition_and_index id i = search covered_rules depth 14

pub Covered-step_get_compensation_steps :
    (id : String) (u : Option ℕ) → Covered (Steps.get_compensation_steps id u)
unfolding Steps.get_compensation_steps
Covered-step_get_compensation_steps id u = search covered_rules depth 14

pub Covered-execution_create : (x : WorkflowExecution) → Covered (Executions.create x)
unfolding Executions.create
Covered-execution_create x = search covered_rules depth 14

pub Covered-execution_get_by_id : (id : String) → Covered (Executions.get_by_id id)
unfolding Executions.get_by_id
Covered-execution_get_by_id id = search covered_rules depth 14

pub Covered-execution_update_state :
    (id : String) (s : State) → Covered (Executions.update_state id s)
unfolding Executions.update_state
Covered-execution_update_state id s = search covered_rules depth 14

pub Covered-execution_update_step_cursor :
    (id : String) (n : ℕ) → Covered (Executions.update_step_cursor id n)
unfolding Executions.update_step_cursor
Covered-execution_update_step_cursor id n = search covered_rules depth 14

pub Covered-execution_save_result :
    (id : String) (b : Bytes) → Covered (Executions.save_result id b)
unfolding Executions.save_result
Covered-execution_save_result id b = search covered_rules depth 14

pub Covered-execution_increment_completed_steps :
    (id : String) → Covered (Executions.increment_completed_steps id)
unfolding Executions.increment_completed_steps
Covered-execution_increment_completed_steps id = search covered_rules depth 14

pub Covered-execution_increment_compensation_done :
    (id : String) → Covered (Executions.increment_compensation_done id)
unfolding Executions.increment_compensation_done
Covered-execution_increment_compensation_done id = search covered_rules depth 14

pub Covered-execution_set_compensation_total :
    (id : String) (n : ℕ) → Covered (Executions.set_compensation_total id n)
unfolding Executions.set_compensation_total
Covered-execution_set_compensation_total id n = search covered_rules depth 14

pub Covered-execution_save_error : (id e : String) → Covered (Executions.save_error id e)
unfolding Executions.save_error
Covered-execution_save_error id e = search covered_rules depth 14

pub Covered-task_create : (t : Task) → Covered (Tasks.create t)
unfolding Tasks.create
Covered-task_create t = search covered_rules depth 14

pub Covered-task_get_by_id : (id : String) → Covered (Tasks.get_by_id id)
unfolding Tasks.get_by_id
Covered-task_get_by_id id = search covered_rules depth 14

pub Covered-task_update_completed :
    (id : String) (b : Bytes) (e : String) → Covered (Tasks.update_completed id b e)
unfolding Tasks.update_completed
Covered-task_update_completed id b e = search covered_rules depth 14

pub Covered-task_delete_by_id : (id : String) → Covered (Tasks.delete_by_id id)
unfolding Tasks.delete_by_id
Covered-task_delete_by_id id = search covered_rules depth 14

pub Covered-task_cancel_by_execution : (id : String) → Covered (Tasks.cancel_by_execution id)
unfolding Tasks.cancel_by_execution
Covered-task_cancel_by_execution id = search covered_rules depth 14

pub Covered-compensation_create : (t : CompensationTask) → Covered (CompensationTasks.create t)
unfolding CompensationTasks.create
Covered-compensation_create t = search covered_rules depth 14

pub Covered-compensation_get_by_id : (id : String) → Covered (CompensationTasks.get_by_id id)
unfolding CompensationTasks.get_by_id
Covered-compensation_get_by_id id = search covered_rules depth 14

pub Covered-compensation_update_completed :
    (id : String) (b : Bytes) (e : String) → Covered (CompensationTasks.update_completed id b e)
unfolding CompensationTasks.update_completed
Covered-compensation_update_completed id b e = search covered_rules depth 14

pub Covered-compensation_delete_by_id : (id : String) → Covered (CompensationTasks.delete_by_id id)
unfolding CompensationTasks.delete_by_id
Covered-compensation_delete_by_id id = search covered_rules depth 14

pub Covered-compensation_cancel_by_execution :
    (id : String) → Covered (CompensationTasks.cancel_by_execution id)
unfolding CompensationTasks.cancel_by_execution
Covered-compensation_cancel_by_execution id = search covered_rules depth 14

pub Covered-history_append :
    (id : String) (i : Option ℕ) (n : Option String) (t : EventType) (p : Bytes) (e : String)
    → Covered (History.append id i n t p e)
unfolding History.append
Covered-history_append id i n t p e = search covered_rules depth 14

pub Covered-history_get_step_outputs : (id : String) → Covered (History.get_step_outputs id)
unfolding History.get_step_outputs
Covered-history_get_step_outputs id = search covered_rules depth 14

-- The rules for a body of the service.
pub ruleset body_rules = (
  covered_rules, Covered-namespace_create, Covered-namespace_get_by_name, Covered-definition_create,
  Covered-definition_deactivate, Covered-definition_get_by_name, Covered-step_create,
  Covered-step_get_steps_by_definition_id, Covered-step_get_by_definition_and_index,
  Covered-step_get_compensation_steps, Covered-execution_create, Covered-execution_get_by_id,
  Covered-execution_update_state, Covered-execution_update_step_cursor,
  Covered-execution_save_result, Covered-execution_increment_completed_steps,
  Covered-execution_increment_compensation_done, Covered-execution_set_compensation_total,
  Covered-execution_save_error, Covered-task_create, Covered-task_get_by_id,
  Covered-task_update_completed, Covered-task_delete_by_id, Covered-task_cancel_by_execution,
  Covered-compensation_create, Covered-compensation_get_by_id,
  Covered-compensation_update_completed, Covered-compensation_delete_by_id,
  Covered-compensation_cancel_by_execution, Covered-history_append,
  Covered-history_get_step_outputs,
)
