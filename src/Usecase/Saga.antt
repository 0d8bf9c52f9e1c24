-- ===== src/Usecase/Saga.antt =====
-- usecase/saga.go: rolling a saga back, one compensation task after another.
use antflow_server.Base.{
  ℕ, ◌+◌, ◌*◌, Bool, true, false, not, Option, none, some, List, [], ◌∷◌, length, String, str_eq,
  str_append, find, select, ltb, leb, ◌==◌, if◌then◌else◌,
}
use mathlib.Core.Option
use antflow_server.Domain.{
  WorkflowDefinitionStep, WorkflowExecution, CompensationTask, TaskOutput, Bytes, created,
  compensating, failed, is_terminal, validate_transition, compensation_started,
  compensation_completed, compensation_failed, saga_rolled_back, saga_rollback_failed,
  workflow_failed, step_scheduled,
}
use antflow_server.Store.World.{
  M, ◌>>=◌, ◌>>◌, pure, lift, gets, wrapping, ignore, run_in_tx, new_uuid, notify, drain,
}
use antflow_server.Store.Steps.{int_pred}
use antflow_server.Store.Steps
use antflow_server.Store.Executions
use antflow_server.Store.CompensationTasks
use antflow_server.Store.History
use antflow_server.Usecase.Execution.{queue_or}

unfoldable pub poll_compensation_task : String → M (Option CompensationTask)
poll_compensation_task queue = CompensationTasks.find_and_lock_pending queue

-- The map `outputByStep`, as its lookup: of two outputs of one step the later stays.
abbrev pub later_or : Option Bytes → Option Bytes → Option Bytes
later_or (some b) o = some b
later_or none o = o

abbrev pub output_by_step : List TaskOutput → ℕ → Option Bytes
output_by_step [] i = none
output_by_step (o ∷ os) i =
    later_or (output_by_step os i) (if o.step_index == i then some o.output else none)

abbrev pub is_some : {A : Type 0} → Option A → Bool
is_some none = false
is_some (some a) = true

-- `if _, ok := outputByStep[step.StepIndex]; ok`
abbrev pub has_output : List TaskOutput → WorkflowDefinitionStep → Bool
has_output outputs step = is_some (output_by_step outputs step.step_index)

abbrev pub compensation_of :
    String → WorkflowExecution → WorkflowDefinitionStep → Bytes → ℕ → CompensationTask
compensation_of id exec step input now = record {
  id = id;
  workflow_execution_id = exec.id;
  step_index = step.step_index;
  step_name = step.step_name;
  compensation_step_name = step.compensation_step_name;
  task_queue = queue_or step.task_queue exec.task_queue;
  input = input;
  output = [];
  state = created;
  error = "";
  attempt = 0;
  max_attempts = step.max_attempts;
  timeout_seconds = step.timeout_seconds;
  scheduled_at = now;
  started_at = none;
  completed_at = none;
  locked_until = none;
}

-- Schedules the compensation of a step, and returns the queue to notify.
unfoldable pub schedule_compensation :
    String → WorkflowExecution → WorkflowDefinitionStep → List TaskOutput → M String
schedule_compensation problem exec step outputs = do
  id ← new_uuid
  now ← gets λ w. w.now
  let ct =
      compensation_of id exec step (Option.get_or (output_by_step outputs step.step_index) []) now
  wrapping problem (CompensationTasks.create ct)
  wrapping "failed to write history event"
      (History.append exec.id (some ct.step_index) (some ct.step_name) step_scheduled [] "")
  pure ct.task_queue

-- The execution ends as FAILED, with the two events of a rollback that is complete.
unfoldable pub rolled_back : String → String → M (Unit {0})
rolled_back id text = do
  Executions.update_state id failed
  wrapping "failed to write history event" (History.append id none none saga_rolled_back [] "")
  wrapping "failed to write history event" (History.append id none none workflow_failed [] text)
  drain id

-- Step 6 of startCompensation, or its early end where nothing is to be undone.
unfoldable pub start_first :
    WorkflowExecution → List TaskOutput → List WorkflowDefinitionStep → M (Unit {0})
unfolding rolled_back schedule_compensation
start_first exec outputs [] =
    rolled_back exec.id "Saga rolled back: no successful steps to compensate"
start_first exec outputs (step ∷ steps) = do
  queue ← schedule_compensation "failed to schedule compensation task" exec step outputs
  notify queue

unfoldable pub start_compensation : WorkflowExecution → ℕ → M (Unit {0})
start_compensation exec failed_at = do
  lift (validate_transition exec.state compensating)
  Executions.update_state exec.id compensating
  wrapping "failed to write history event"
      (History.append exec.id none none compensation_started [] "")
  steps ←
      wrapping "failed to get compensation steps"
        (Steps.get_compensation_steps exec.workflow_definition_id (int_pred failed_at))
  outputs ← wrapping "failed to get completed step outputs" (History.get_step_outputs exec.id)
  let active = select (has_output outputs) steps
  Executions.set_compensation_total exec.id (length active)
  start_first exec outputs active

-- `(t.Attempt+1)*(t.Attempt+1) * 5` seconds
abbrev pub backoff : ℕ → ℕ
backoff attempt = (attempt + 1) * (attempt + 1) * 5

abbrev pub retry_compensation : String → CompensationTask → String → ℕ → CompensationTask
retry_compensation id t exec_id now = record t {
  id = id;
  workflow_execution_id = exec_id;
  output = [];
  state = created;
  error = "";
  attempt = t.attempt + 1;
  scheduled_at = now + backoff t.attempt;
  started_at = none;
  completed_at = none;
  locked_until = none;
}

-- The body of the transaction returns the queue to notify, and `success`.
unfoldable pub retry_compensation_task : WorkflowExecution → CompensationTask → M (String × Bool)
retry_compensation_task exec t = do
  ignore (CompensationTasks.delete_by_id t.id)
  id ← new_uuid
  now ← gets λ w. w.now
  wrapping "failed to create retry compensation task"
      (CompensationTasks.create (retry_compensation id t exec.id now))
  pure (t.task_queue, true)

abbrev pub rollback_failure : String → String → String
rollback_failure step_name error =
    str_append "Saga rollback failed at step " (str_append step_name (str_append ": " error))

unfoldable pub compensation_exhausted :
    WorkflowExecution → CompensationTask → String → M (String × Bool)
compensation_exhausted exec t error = do
  wrapping "failed to write history event"
      (History.append exec.id (some t.step_index) (some t.step_name) compensation_failed [] error)
  wrapping "failed to write history event"
      (History.append exec.id none none saga_rollback_failed [] error)
  wrapping "failed to write history event"
      (History.append exec.id none none workflow_failed [] (rollback_failure t.step_name error))
  ignore (Executions.save_error exec.id (rollback_failure t.step_name error))
  ignore (Executions.update_state exec.id failed)
  ignore (CompensationTasks.delete_by_id t.id)
  drain exec.id
  pure ("", false)

unfoldable pub compensation_task_failed :
    WorkflowExecution → CompensationTask → String → M (String × Bool)
compensation_task_failed exec t error =
    if ltb t.attempt t.max_attempts
    then retry_compensation_task exec t
    else compensation_exhausted exec t error

-- The next step back that has a handler and an output, or the end of the rollback.
unfoldable pub schedule_next :
    WorkflowExecution → List TaskOutput → Option WorkflowDefinitionStep → M (String × Bool)
unfolding rolled_back schedule_compensation
schedule_next exec outputs none = do
  rolled_back exec.id "Saga rolled back successfully"
  pure ("", true)
schedule_next exec outputs (some step) = do
  queue ← schedule_compensation "failed to schedule next compensation task" exec step outputs
  pure (queue, true)

unfoldable pub next_compensation : WorkflowExecution → CompensationTask → M (String × Bool)
unfolding schedule_next
next_compensation exec t = do
  steps ←
      wrapping "failed to get next compensation steps"
        (Steps.get_compensation_steps exec.workflow_definition_id (int_pred t.step_index))
  outputs ← wrapping "failed to get completed step outputs" (History.get_step_outputs exec.id)
  schedule_next exec outputs (find (has_output outputs) steps)

unfoldable pub compensation_task_succeeded :
    WorkflowExecution → CompensationTask → Bytes → M (String × Bool)
compensation_task_succeeded exec t result = do
  wrapping "failed to write history event" (
      History.append exec.id (some t.step_index) (some t.step_name) compensation_completed result
        "")
  new_done ←
      wrapping "failed to increment compensation done"
        (Executions.increment_compensation_done exec.id)
  ignore (CompensationTasks.delete_by_id t.id)
  fresh ←
      wrapping "failed to re-fetch execution after compensation done" (Executions.get_by_id exec.id)
  if leb fresh.compensation_total new_done
      then schedule_next exec [] none
      else next_compensation fresh t

unfoldable pub complete_compensation_body : String → Bytes → String → M (String × Bool)
complete_compensation_body id result error = do
  wrapping "failed to complete task" (CompensationTasks.update_completed id result error)
  t ← wrapping "failed to find compensation task" (CompensationTasks.get_by_id id)
  exec ← wrapping "failed to find execution" (Executions.get_by_id t.workflow_execution_id)
  if is_terminal exec.state
      then pure ("", true)
      else if not (str_eq error "")
      then compensation_task_failed exec t error
      else compensation_task_succeeded exec t result

-- `if notifyQueue != "" { i.broker.Notify(notifyQueue) }`
unfoldable pub notify_after : String → M (Unit {0})
notify_after queue = if str_eq queue "" then pure tt else notify queue

unfoldable pub complete_compensation_task : String → Bytes → String → M Bool
complete_compensation_task id result error = do
  out ← run_in_tx (complete_compensation_body id result error)
  notify_after out.0
  pure out.1
