-- ===== src/Tests/Unwinding.antt =====
-- A saga whose third step fails after two have completed.
use antflow_server.Base.{ℕ, ◌≡◌, refl, none, some, List, [], ◌∷◌, String, str_eq}
use antflow_server.Domain.{
  HistoryEvent, WorkflowDefinitionStep, CompensationTask, step_completed, created,
}
use antflow_server.Store.World.{World}
use antflow_server.Store.History
use antflow_server.Store.Steps.{compensation_steps}
use antflow_server.System.{run}
use antflow_server.System.Unwinding.{steps_to_undo}
use antflow_server.Tests.{server, tables, step}

abbrev pub completed_event : ℕ → String → HistoryEvent
completed_event i name = record {
  id = i;
  workflow_execution_id = "x";
  step_index = some i;
  step_name = some name;
  event_type = step_completed;
  payload = i ∷ [];
  error = "";
  created_at = 6;
}

abbrev failing : World
failing = record (server []) {
  db = record tables { history = completed_event 1 "pay" ∷ completed_event 2 "book" ∷ [] };
}

abbrev undone : List WorkflowDefinitionStep
undone = step 2 "book" "release" ∷ step 1 "pay" "refund" ∷ []

abbrev refund : CompensationTask
refund = record {
  id = "c";
  workflow_execution_id = "x";
  step_index = 2;
  step_name = "book";
  compensation_step_name = "release";
  task_queue = "q";
  input = [];
  output = [];
  state = created;
  error = "";
  attempt = 0;
  max_attempts = 3;
  timeout_seconds = 10;
  scheduled_at = 7;
  started_at = none;
  completed_at = none;
  locked_until = none;
}

-- Of the three steps, two are undone: the second and then the first.
two_undone :
    let v = run failing [] in
    steps_to_undo (History.step_outputs "x" v.db.history) "d" 3 v.db.steps ≡ undone
unfolding run str_eq History.step_outputs compensation_steps
two_undone = refl
