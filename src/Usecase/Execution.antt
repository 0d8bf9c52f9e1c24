-- ===== src/Usecase/Execution.antt =====
-- usecase/execution.go.
use antflow_server.Base.{
  ◌-◌, ◌*◌, ◌/◌, ◌%◌, ℕ, ◌+◌, Option, none, some, List, [], ◌∷◌, String, str_eq, str_append, ltb,
  if◌then◌else◌,
}
use antflow_server.Domain.{
  WorkflowDefinition, WorkflowDefinitionStep, WorkflowExecution, Task, Bytes, is_independent,
  created, running, cancelled, validate_transition, workflow_started, workflow_cancelled, message,
}
use antflow_server.Store.World.{
  M, ◌>>=◌, ◌>>◌, pure, throw, lift, gets, wrapping, ignore, run_in_tx, new_uuid, notify, drain,
}
use antflow_server.Store.Namespaces
use antflow_server.Store.Definitions
use antflow_server.Store.Steps
use antflow_server.Store.Executions
use antflow_server.Store.Tasks
use antflow_server.Store.CompensationTasks
use antflow_server.Store.History

-- `q := step.TaskQueue; if q == "" { q = defaultQueue }`
abbrev pub queue_or : String → String → String
queue_or q default = if str_eq q "" then default else q

abbrev pub task_of_step : String → String → WorkflowDefinitionStep → Bytes → String → ℕ → Task
task_of_step id exec_id step input default_queue now = record {
  id = id;
  workflow_execution_id = exec_id;
  step_index = step.step_index;
  step_name = step.step_name;
  task_queue = queue_or step.task_queue default_queue;
  input = input;
  output = [];
  state = created;
  error = "";
  scheduled_at = now;
  started_at = none;
  completed_at = none;
  locked_until = none;
  attempt = 0;
  max_attempts = step.max_attempts;
  timeout_seconds = step.timeout_seconds;
}

unfoldable pub build_task : String → WorkflowDefinitionStep → Bytes → String → M Task
build_task exec_id step input default_queue = do
  id ← new_uuid
  now ← gets λ w. w.now
  pure (task_of_step id exec_id step input default_queue now)

-- The loop of an INDEPENDENT workflow: a task for every step.
unfoldable pub schedule_all : String → Bytes → String → List WorkflowDefinitionStep → M (Unit {0})
unfolding build_task
schedule_all exec_id input queue [] = pure tt
schedule_all exec_id input queue (step ∷ steps) = do
  t ← build_task exec_id step input queue
  wrapping (str_append "failed to schedule step " step.step_name) (Tasks.create t)
  schedule_all exec_id input queue steps

unfoldable pub schedule_first : String → Bytes → String → List WorkflowDefinitionStep → M (Unit {0})
unfolding build_task
schedule_first exec_id input queue [] = throw (message "workflow has no steps")
schedule_first exec_id input queue (step ∷ steps) = do
  t ← build_task exec_id step input queue
  wrapping "failed to schedule first step" (Tasks.create t)

abbrev pub effective_timeout : ℕ → ℕ → ℕ
effective_timeout override default = if ltb 0 override then override else default

-- `now.Add(time.Duration(timeout) * time.Second)`: the nanoseconds are an int64, which wraps around,
-- and those that come out negative lead back. In whole seconds.
unfoldable pub after_seconds : ℕ → ℕ → ℕ
after_seconds now timeout =
    let ns = (timeout * 1000000000) % 18446744073709551616 in
    if ltb ns 9223372036854775808
    then now + ns / 1000000000
    else now - (18446744073709551616 - ns) / 1000000000

abbrev pub deadline : ℕ → ℕ → Option ℕ
deadline now timeout = if ltb 0 timeout then some (after_seconds now timeout) else none

abbrev pub new_execution : String → WorkflowDefinition → String → Bytes → ℕ → ℕ → WorkflowExecution
new_execution id def queue input override now = record {
  id = id;
  workflow_definition_id = def.id;
  workflow_name = def.name;
  workflow_type = def.workflow_type;
  task_queue = queue;
  total_steps = def.steps;
  completed_steps = 0;
  current_step = 0;
  input = input;
  result = [];
  state = created;
  error = "";
  created_at = now;
  scheduled_at = now;
  updated_at = now;
  completed_at = none;
  deadline_at = deadline now (effective_timeout override def.default_timeout_seconds);
  compensation_total = 0;
  compensation_done = 0;
}

unfoldable pub start_body :
    WorkflowDefinition → WorkflowExecution → String → Bytes → M WorkflowExecution
start_body def exec queue input = do
  wrapping "failed to create execution" (Executions.create exec)
  ignore (History.append exec.id none none workflow_started input "")
  wrapping "failed to start execution" (lift (validate_transition exec.state running))
  Executions.update_state exec.id running
  steps ← wrapping "failed to get steps" (Steps.get_steps_by_definition_id def.id)
  if is_independent def.workflow_type
      then schedule_all exec.id input queue steps
      else schedule_first exec.id input queue steps
  pure (record exec { state = running })

unfoldable pub start_workflow : String → String → Bytes → ℕ → M WorkflowExecution
start_workflow def_id queue input override = do
  def ← wrapping "workflow definition ID not found" (Definitions.get_by_id def_id)
  id ← new_uuid
  now ← gets λ w. w.now
  exec ← run_in_tx (start_body def (new_execution id def queue input override now) queue input)
  notify queue
  pure exec

-- Both branches on ErrConflict wrap the error, with different texts.
unfoldable pub cancel_body : String → M (Unit {0})
cancel_body id = do
  wrapping "cannot cancel workflow" (Executions.update_state id cancelled)
  wrapping "failed to cancel pending tasks" (Tasks.cancel_by_execution id)
  wrapping "failed to cancel pending compensation tasks" (CompensationTasks.cancel_by_execution id)
  wrapping "failed to write history event" (History.append id none none workflow_cancelled [] "")

unfoldable pub cancel_workflow : String → M (Unit {0})
cancel_workflow id = do run_in_tx (cancel_body id); drain id

unfoldable pub get_workflow_result : String → M WorkflowExecution
get_workflow_result id = Executions.get_by_id id

unfoldable pub get_workflow_name_for_execution : String → M String
get_workflow_name_for_execution id = do exec ← Executions.get_by_id id; pure exec.workflow_name

unfoldable pub get_workflow_id_for_execution : String → M String
get_workflow_id_for_execution name = do
  ns ← Namespaces.get_by_name name
  def ← Definitions.get_by_name ns.id name
  pure def.id
