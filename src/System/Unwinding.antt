-- ===== src/System/Unwinding.antt =====
-- usecase/saga.go: the order in which startCompensation and completeCompensationTask roll a saga back,
-- in any state of the tables that a run of the server leads to.
use antflow_server.Base.{ℕ, ◌≡◌, List, [], ◌∷◌, String, select}
use antflow_server.Domain.{WorkflowExecution, WorkflowDefinitionStep, CompensationTask, TaskOutput}
use antflow_server.Store.World.{World}
use antflow_server.Store.Executions
use antflow_server.Store.Steps.{compensation_steps, int_pred}
use antflow_server.Store.History
use antflow_server.Usecase.Saga.{has_output, next_compensation, schedule_next}
use antflow_server.Usecase.Unwinding.{head}

-- The steps of a rollback: those before the failed one that name a handler and have an output.
abbrev pub steps_to_undo :
    List TaskOutput → String → ℕ → List WorkflowDefinitionStep → List WorkflowDefinitionStep
steps_to_undo outputs def failed_at rows =
    select (has_output outputs) (compensation_steps def (int_pred failed_at) rows)

-- After the compensation of each step, `next_compensation` goes on with the step behind it.
abbrev pub Leads :
    WorkflowExecution
    → CompensationTask
    → List TaskOutput
    → World
    → List WorkflowDefinitionStep
    → Type 0
Leads x t outputs w [] = Unit {0}
Leads x t outputs w (y ∷ ys) =
    (next_compensation x (record t { step_index = y.step_index }) w
      ≡ schedule_next x outputs (head ys) w)
    × Leads x t outputs w ys
