-- ===== src/Usecase/Service.antt =====
-- usecase/service.go and usecase/history.go: the maintenance of running workflows, and the calls
-- that are passed on.
use antflow_server.Base.{ℕ, ◌+◌, Option, none, List, [], ◌∷◌, String, if◌then◌else◌}
use antflow_server.Domain.{
  WorkflowExecution, WorkflowDefinitionStep, Checkpoint, Task, HistoryEvent, Bytes, state_eq,
  running, created, workflow_timed_out, workflow_failed, Result, ok, err,
}
use antflow_server.Store.World.{
  M, ◌>>=◌, ◌>>◌, pure, gets, attempt, wrapping, ignore, new_uuid, notify, drain,
}
use antflow_server.Store.Steps
use antflow_server.Store.Executions
use antflow_server.Store.Tasks
use antflow_server.Store.CompensationTasks
use antflow_server.Store.History
use antflow_server.Store.Checkpoints
use antflow_server.Usecase.Execution.{queue_or}

abbrev pub timeout_text : String
timeout_text = "workflow exceeded its configured timeout"

unfoldable pub close_expired : String → M (Unit {0})
close_expired id = do
  ignore (Tasks.cancel_by_execution id)
  ignore (CompensationTasks.cancel_by_execution id)
  ignore (History.append id none none workflow_timed_out [] timeout_text)
  ignore (History.append id none none workflow_failed [] timeout_text)
  drain id

unfoldable pub close_each : List String → M (Unit {0})
unfolding close_expired
close_each [] = pure tt
close_each (id ∷ ids) = do close_expired id; close_each ids

unfoldable pub expire_overdue_workflows : M (Unit {0})
expire_overdue_workflows = do
  ids ← wrapping "failed to expire overdue workflows" Executions.expire_overdue
  close_each ids

-- The snapshot of the checkpoint, or else the input of the execution.
abbrev pub recovery_input : WorkflowExecution → Result Checkpoint → Bytes
recovery_input exec (ok c) = c.state_snapshot
recovery_input exec (err e) = exec.input

abbrev pub recovery_task :
    String → WorkflowExecution → WorkflowDefinitionStep → ℕ → Bytes → ℕ → Task
recovery_task id exec step index input now = record {
  id = id;
  workflow_execution_id = exec.id;
  step_index = index;
  step_name = step.step_name;
  task_queue = queue_or step.task_queue exec.task_queue;
  input = input;
  output = [];
  state = created;
  error = "";
  scheduled_at = now;
  started_at = none;
  completed_at = none;
  locked_until = none;
  attempt = 0;
  max_attempts = 3;
  timeout_seconds = 0;
}

unfoldable pub reschedule : WorkflowExecution → M (Unit {0})
reschedule exec = do
  checkpoint ← attempt (Checkpoints.get_latest exec.id exec.current_step)
  step ← Steps.get_by_definition_and_index exec.workflow_definition_id (exec.current_step + 1)
  id ← new_uuid
  now ← gets λ w. w.now
  let t = recovery_task id exec step (exec.current_step + 1) (recovery_input exec checkpoint) now
  Tasks.create t
  notify t.task_queue

-- The body of the loop; each `continue` after an error is an error here, which the loop drops.
unfoldable pub recover : WorkflowExecution → M (Unit {0})
unfolding reschedule
recover exec =
    if state_eq exec.state running
    then (do busy ← Tasks.has_active_tasks exec.id; if busy then pure tt else reschedule exec)
    else pure tt

unfoldable pub recover_each : List WorkflowExecution → M (Unit {0})
unfolding recover
recover_each [] = pure tt
recover_each (exec ∷ execs) = do ignore (recover exec); recover_each execs

unfoldable pub recover_workflows : M (Unit {0})
recover_workflows = do execs ← Executions.get_active_executions; recover_each execs

unfoldable pub heartbeat_task : String → M (Unit {0})
heartbeat_task id = Tasks.renew_lock id

unfoldable pub heartbeat_compensation_task : String → M (Unit {0})
heartbeat_compensation_task id = CompensationTasks.renew_lock id

unfoldable pub get_history_after : String → Option ℕ → M (List HistoryEvent)
get_history_after id after = History.get_by_execution_after id after
