-- ===== src/Tests.antt =====
-- A small server, on which the theorems are tried: a saga that runs, a finished execution, and a task
-- that waits for a worker.
mod Runs
mod Requests
mod Parts
mod Invariants
mod Registering
mod Completing
mod Maintaining
mod Restarting
mod Unwinding
use antflow_server.Base.{
  ℕ, zero, suc, Bool, true, false, Option, none, some, List, [], ◌∷◌, String, str_append,
}
use antflow_server.Domain.{
  Namespace, WorkflowDefinition, WorkflowDefinitionStep, WorkflowExecution, Task, HistoryEvent,
  TaskOutput, State, created, running, completed, saga, workflow_started,
}
use antflow_server.Signals.{new_signal_store}
use antflow_server.Broker.{new_task_broker}
use antflow_server.Store.World.{Db, Env, World}

abbrev pub uuid : ℕ → String
uuid zero = "u"
uuid (suc n) = str_append "u" (uuid n)

abbrev pub env : Env
env = record { new_uuid = uuid; marshal = λ os. some [] }

abbrev pub namespace : Namespace
namespace = record { id = "ns"; name = "wf"; created_at = 0 }

abbrev pub definition : WorkflowDefinition
definition = record {
  id = "d";
  namespace_id = "ns";
  name = "wf";
  workflow_type = saga;
  version = 1;
  is_active = true;
  steps = 3;
  default_timeout_seconds = 0;
  created_at = 0;
}

abbrev pub step : ℕ → String → String → WorkflowDefinitionStep
step index name undo = record {
  id = str_append "s" name;
  workflow_definition_id = "d";
  step_index = index;
  step_name = name;
  compensation_step_name = undo;
  timeout_seconds = 10;
  task_queue = "";
  max_attempts = 3;
}

abbrev pub saga_steps : List WorkflowDefinitionStep
saga_steps = step 1 "pay" "refund" ∷ step 2 "book" "release" ∷ step 3 "ship" "" ∷ []

abbrev pub execution : String → State → Option ℕ → WorkflowExecution
execution id state completed_at = record {
  id = id;
  workflow_definition_id = "d";
  workflow_name = "wf";
  workflow_type = saga;
  task_queue = "q";
  total_steps = 3;
  completed_steps = 0;
  current_step = 1;
  input = [];
  result = [];
  state = state;
  error = "";
  created_at = 0;
  scheduled_at = 0;
  updated_at = 0;
  completed_at = completed_at;
  deadline_at = none;
  compensation_total = 0;
  compensation_done = 0;
}

abbrev pub busy : WorkflowExecution
busy = execution "x" running none

abbrev pub over : WorkflowExecution
over = execution "z" completed (some 5)

abbrev pub task : Task
task = record {
  id = "t";
  workflow_execution_id = "x";
  step_index = 2;
  step_name = "book";
  task_queue = "q";
  input = 1 ∷ [];
  output = [];
  state = created;
  error = "";
  scheduled_at = 3;
  started_at = none;
  completed_at = none;
  locked_until = none;
  attempt = 0;
  max_attempts = 3;
  timeout_seconds = 10;
}

abbrev pub first_event : HistoryEvent
first_event = record {
  id = 1;
  workflow_execution_id = "x";
  step_index = none;
  step_name = none;
  event_type = workflow_started;
  payload = [];
  error = "";
  created_at = 0;
}

abbrev pub tables : Db
tables = record {
  namespaces = namespace ∷ [];
  definitions = definition ∷ [];
  steps = saga_steps;
  executions = busy ∷ over ∷ [];
  tasks = task ∷ [];
  compensation_tasks = [];
  history = first_event ∷ [];
  checkpoints = [];
  event_seq = 2;
  checkpoint_seq = 1;
}

-- The server at time 7, with what the coming statements meet.
abbrev pub server : List Bool → World
server faults = record {
  db = tables;
  tx = none;
  aborted = false;
  faults = faults;
  now = 7;
  env = env;
  uuids = 0;
  signals = new_signal_store;
  broker = new_task_broker;
}
