-- ===== src/System/Keys.antt =====
-- The keys of the tables in any run of the server, and what a rollback needs of them.
use antflow_server.Base.{List, [], ◌∷◌, String, str_eq_iff, AreDistinct}
use antflow_server.Domain.{WorkflowDefinitionStep}
use antflow_server.Store.World.{World}
use antflow_server.Store.Rollback.Apart.{HasUniqueSteps}
use antflow_server.Store.Keys.{HasKeys, step_key}
use antflow_server.Store.Keys.Kept.{keys_frame}
use antflow_server.System.{Event, run, run-Rel}

pub distinct-HasUniqueSteps :
    (def : String) (xs : List WorkflowDefinitionStep)
    → AreDistinct step_key xs
    → HasUniqueSteps def xs
distinct-HasUniqueSteps def [] h = tt
distinct-HasUniqueSteps def (x ∷ xs) h = (
  λ e. rw (← (str_eq_iff x.workflow_definition_id def).0 e) h.0,
  distinct-HasUniqueSteps def xs h.1,
)

-- In any run of the server, whichever calls are made and whichever statements fail, from tables that
-- keep their keys: each step belongs to a definition that is there, a definition has one step for
-- each index, which is what the order of a rollback rests on, and an execution has at most one task
-- and one compensation task for each step, all with ids of their own.
pub run-HasKeys :
    (w : World) (es : List Event)
    → HasKeys w.db
    → HasKeys (run w es).db × ((def : String) → HasUniqueSteps def (run w es).db.steps)
run-HasKeys w es h =
    let k = run-Rel keys_frame w es h in
    (k, λ def. distinct-HasUniqueSteps def (run w es).db.steps k.of_steps.steps)
