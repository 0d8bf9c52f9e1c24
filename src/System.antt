-- ===== src/System.antt =====
-- The server as a whole: any sequence of calls of the service, each at its own time and with its
-- own failing statements. Calls run one at a time, each to its end.
pub mod Rows
pub mod Executions
pub mod Moves
pub mod Keys
pub mod Completing
pub mod RollingBack
pub mod Unwinding
pub mod History
pub mod Streaming
pub mod Results
use antflow_server.Base.{ℕ, Bool, false, Option, none, some, List, [], ◌∷◌, String}
use antflow_server.Domain.{Bytes}
use antflow_server.Store.World.{Db, World, M}
use antflow_server.Store.Frame.{Frame}
use antflow_server.Store.Frame.Rules.{Keeps, Follows}
use antflow_server.Usecase.Registration.{register_workflow}
use antflow_server.Usecase.Execution.{start_workflow, cancel_workflow}
use antflow_server.Usecase.Saga.{poll_compensation_task, complete_compensation_task}
use antflow_server.Usecase.Completion.{poll_task, complete_task}
use antflow_server.Usecase.Service.{
  expire_overdue_workflows, recover_workflows, heartbeat_task, heartbeat_compensation_task,
}
use antflow_server.Usecase.Frames.{
  register_workflow-Keeps, start_workflow-Keeps, cancel_workflow-Keeps,
  complete_compensation_task-Keeps,
}
use antflow_server.Usecase.Frames.Reporting.{
  poll_task-Keeps, complete_task-Keeps, poll_compensation_task-Keeps,
  expire_overdue_workflows-Keeps, recover_workflows-Keeps, heartbeat_task-Keeps,
  heartbeat_compensation_task-Keeps,
}

-- The methods of `WorkflowService` that change the database.
pub data Call : Type 0 where
  register : String → String → List String → List String → ℕ → List ℕ → Call
  start : String → String → Bytes → ℕ → Call
  cancel : String → Call
  poll : String → Call
  complete : String → Bytes → String → Call
  poll_compensation : String → Call
  complete_compensation : String → Bytes → String → Call
  expire recover : Call
  heartbeat heartbeat_compensation : String → Call

abbrev after : {A : Type 0} → M A → World → World
after m w = (m w).1

unfoldable pub serve : Call → World → World
serve (register name t steps comps timeout attempts) w =
    after (register_workflow name t steps comps timeout attempts) w
serve (start def queue input override) w = after (start_workflow def queue input override) w
serve (cancel id) w = after (cancel_workflow id) w
serve (poll queue) w = after (poll_task queue) w
serve (complete id result error) w = after (complete_task id result error) w
serve (poll_compensation queue) w = after (poll_compensation_task queue) w
serve (complete_compensation id result error) w =
    after (complete_compensation_task id result error) w
serve expire w = after expire_overdue_workflows w
serve recover w = after recover_workflows w
serve (heartbeat id) w = after (heartbeat_task id) w
serve (heartbeat_compensation id) w = after (heartbeat_compensation_task id) w

-- A call, the time at which it runs, and the statements that fail in it.
pub record Event : Type 0 where
  pub call : Call
  pub at : ℕ
  pub faults : List Bool

-- Before a call: no transaction is open.
abbrev pub arrive : Event → World → World
arrive e w = record w { tx = none; aborted = false; now = e.at; faults = e.faults }

unfoldable pub run : World → List Event → World
unfolding serve
run w [] = w
run w (e ∷ es) = run (serve e.call (arrive e w)) es

module _ (F : Frame) where
  serve-Rel : (c : Call) (w : World) → F.Rel w.db (serve c w).db
  unfolding serve
  serve-Rel (register name t steps comps timeout attempts) w =
      ((register_workflow-Keeps F name t steps comps timeout attempts).at w).base
  serve-Rel (start def queue input override) w =
      ((start_workflow-Keeps F def queue input override).at w).base
  serve-Rel (cancel id) w = ((cancel_workflow-Keeps F id).at w).base
  serve-Rel (poll queue) w = ((poll_task-Keeps F queue).at w).base
  serve-Rel (complete id result error) w = ((complete_task-Keeps F id result error).at w).base
  serve-Rel (poll_compensation queue) w = ((poll_compensation_task-Keeps F queue).at w).base
  serve-Rel (complete_compensation id result error) w =
      ((complete_compensation_task-Keeps F id result error).at w).base
  serve-Rel expire w = ((expire_overdue_workflows-Keeps F).at w).base
  serve-Rel recover w = ((recover_workflows-Keeps F).at w).base
  serve-Rel (heartbeat id) w = ((heartbeat_task-Keeps F id).at w).base
  serve-Rel (heartbeat_compensation id) w = ((heartbeat_compensation_task-Keeps F id).at w).base

  -- A relation that every statement respects holds between the tables before and after any run.
  pub run-Rel : (w : World) (es : List Event) → F.Rel w.db (run w es).db
  unfolding run
  run-Rel w [] = F.rel_refl w.db
  run-Rel w (e ∷ es) =
      F.rel_trans _ _ _ (serve-Rel e.call (arrive e w)) (run-Rel (serve e.call (arrive e w)) es)
