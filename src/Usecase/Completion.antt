-- ===== src/Usecase/Completion.antt =====
-- usecase/task.go: what a worker's report on a task does to its execution.
use antflow_server.Base.{
  ℕ, Bool, ◌+◌, not, Option, none, some, List, [], String, str_eq, str_append, ltb, ◌==◌,
  if◌then◌else◌,
}
use antflow_server.Domain.{
  WorkflowExecution, Task, TaskOutput, Bytes, is_independent, is_saga, created, completed, failed,
  is_terminal, validate_transition, marshal_error, error_text, Result, ok, err, step_retrying,
  step_failed, step_completed, step_scheduled, workflow_failed, workflow_completed,
}
use antflow_server.Store.World.{
  M, ◌>>=◌, ◌>>◌, pure, lift, gets, attempt, wrapping, ignore, or_throw, run_in_tx, new_uuid, drain,
}
use antflow_server.Store.Steps
use antflow_server.Store.Executions
use antflow_server.Store.Tasks
use antflow_server.Store.History
use antflow_server.Store.Checkpoints
use antflow_server.Usecase.Execution.{task_of_step}
use antflow_server.Usecase.Saga.{backoff, start_compensation, notify_after}

unfoldable pub poll_task : String → M (Option Task)
poll_task queue = Tasks.find_and_lock_pending queue

abbrev pub retry_of : String → Task → String → ℕ → Task
retry_of id t exec_id now = record t {
  id = id;
  workflow_execution_id = exec_id;
  output = [];
  state = created;
  error = "";
  attempt = t.attempt + 1;
  scheduled_at = now + backoff t.attempt;
  started_at = none;
  completed_at = none;
  locked_until = none;
}

-- The body of the transaction returns the queue to notify, "" for none.
unfoldable pub retry_task : WorkflowExecution → Task → String → M String
retry_task exec t error = do
  ignore (History.append exec.id (some t.step_index) (some t.step_name) step_retrying [] error)
  ignore (Tasks.delete_by_id t.id)
  id ← new_uuid
  now ← gets λ w. w.now
  wrapping "failed to create retry task" (Tasks.create (retry_of id t exec.id now))
  pure t.task_queue

abbrev pub start_failure : String → String
start_failure text = str_append "Saga compensation start failed: " text

-- What follows an error of startCompensation.
unfoldable pub compensation_started_or : WorkflowExecution → Result (Unit {0}) → M (Unit {0})
compensation_started_or exec (ok u) = pure tt
compensation_started_or exec (err e) = do
  ignore (Executions.save_error exec.id (start_failure (error_text e)))
  ignore (Executions.update_state exec.id failed)
  ignore (History.append exec.id none none workflow_failed [] (start_failure (error_text e)))
  drain exec.id

unfoldable pub saga_step_failed : WorkflowExecution → Task → String → M String
unfolding compensation_started_or
saga_step_failed exec t error = do
  ignore (History.append exec.id (some t.step_index) (some t.step_name) step_failed [] error)
  started ← attempt (start_compensation exec t.step_index)
  compensation_started_or exec started
  ignore (Tasks.delete_by_id t.id)
  pure ""

unfoldable pub execution_failed : WorkflowExecution → Task → String → M String
execution_failed exec t error = do
  wrapping "cannot mark execution failed" (lift (validate_transition exec.state failed))
  wrapping "failed to save execution error" (Executions.save_error exec.id error)
  wrapping "failed to mark execution failed" (Executions.update_state exec.id failed)
  ignore (Tasks.cancel_by_execution exec.id)
  ignore (History.append exec.id (some t.step_index) (some t.step_name) step_failed [] error)
  ignore (History.append exec.id none none workflow_failed [] error)
  ignore (Tasks.delete_by_id t.id)
  drain exec.id
  pure ""

-- `t.Attempt < t.MaxAttempts`
abbrev pub may_retry : Task → Bool
may_retry t = ltb t.attempt t.max_attempts

unfoldable pub task_failed : WorkflowExecution → Task → String → M String
task_failed exec t error =
    if may_retry t
    then retry_task exec t error
    else if is_saga exec.workflow_type
    then saga_step_failed exec t error
    else execution_failed exec t error

-- UpdateState, then SaveResult, then the event: the end of both kinds of success.
unfoldable pub mark_completed : WorkflowExecution → Bytes → M (Unit {0})
mark_completed exec result = do
  wrapping "cannot mark execution complete" (lift (validate_transition exec.state completed))
  wrapping "failed to mark execution complete" (Executions.update_state exec.id completed)
  wrapping "failed to save execution result" (Executions.save_result exec.id result)
  ignore (History.append exec.id none none workflow_completed result "")

-- `json.Marshal(outputs)`
unfoldable pub marshal_outputs : List TaskOutput → M Bytes
marshal_outputs outputs = do bytes ← gets λ w. w.env.marshal outputs; or_throw marshal_error bytes

unfoldable pub combine_results : WorkflowExecution → M (Unit {0})
unfolding marshal_outputs
combine_results exec = do
  outputs ← wrapping "failed to get step outputs" (History.get_step_outputs exec.id)
  combined ← wrapping "failed to marshal combined outputs" (marshal_outputs outputs)
  mark_completed exec combined
  drain exec.id

unfoldable pub independent_step_done : WorkflowExecution → Task → Bytes → M String
independent_step_done exec t result = do
  ignore (History.append exec.id (some t.step_index) (some t.step_name) step_completed result "")
  new_count ←
      wrapping "failed to increment completed steps" (Executions.increment_completed_steps exec.id)
  if new_count == exec.total_steps then combine_results exec else pure tt
  ignore (Tasks.delete_by_id t.id)
  pure ""

unfoldable pub chain_complete : WorkflowExecution → Task → Bytes → M String
chain_complete exec t result = do
  mark_completed exec result
  ignore (Tasks.delete_by_id t.id)
  drain exec.id
  pure ""

unfoldable pub chain_next : WorkflowExecution → Task → Bytes → M String
chain_next exec t result = do
  step ←
      wrapping "failed to find next step definition"
        (Steps.get_by_definition_and_index exec.workflow_definition_id (t.step_index + 1))
  id ← new_uuid
  now ← gets λ w. w.now
  let next_task = record (task_of_step id exec.id step result exec.task_queue now) {
    step_index = t.step_index + 1;
  }
  wrapping "failed to save next task" (Tasks.create next_task)
  wrapping "failed to advance step cursor"
      (Executions.update_step_cursor exec.id (t.step_index + 1))
  ignore
      (History.append exec.id (some (t.step_index + 1)) (some step.step_name) step_scheduled [] "")
  ignore (Tasks.delete_by_id t.id)
  pure next_task.task_queue

-- CHAIN, and a SAGA whose step succeeded.
unfoldable pub chain_step_done : WorkflowExecution → Task → Bytes → M String
chain_step_done exec t result = do
  wrapping "failed to save checkpoint" (Checkpoints.save exec.id t.step_index result)
  ignore (History.append exec.id (some t.step_index) (some t.step_name) step_completed result "")
  if ltb exec.total_steps (t.step_index + 1)
      then chain_complete exec t result
      else chain_next exec t result

unfoldable pub task_succeeded : WorkflowExecution → Task → Bytes → M String
task_succeeded exec t result =
    if is_independent exec.workflow_type
    then independent_step_done exec t result
    else chain_step_done exec t result

unfoldable pub complete_task_body : String → Bytes → String → M String
complete_task_body id result error = do
  wrapping "failed to complete task" (Tasks.update_completed id result error)
  t ← wrapping "failed to find task" (Tasks.get_by_id id)
  exec ← wrapping "failed to find execution" (Executions.get_by_id t.workflow_execution_id)
  if is_terminal exec.state
      then pure ""
      else if not (str_eq error "")
      then task_failed exec t error
      else task_succeeded exec t result

unfoldable pub complete_task : String → Bytes → String → M (Unit {0})
complete_task id result error = do
  queue ← run_in_tx (complete_task_body id result error)
  notify_after queue
