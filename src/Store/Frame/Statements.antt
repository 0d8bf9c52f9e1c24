-- ===== src/Store/Frame/Statements.antt =====
-- The statements on namespaces, definitions, steps and executions keep a frame.
pub mod Workers
use antflow_server.Base.{ℕ, Bool, true, false, ◌≡◌, refl, Option, none, some, String}
use antflow_server.Domain.{
  Namespace, WorkflowDefinition, WorkflowDefinitionStep, WorkflowExecution, Task, CompensationTask,
  Bytes, EventType, State, created, running, compensating, completed, failed, cancelled, scheduled,
}
use antflow_server.Domain.Moves.{Moves, allowed, given_up}
use antflow_server.Store.World.{Db, World, view, gets, ◌>>=◌, insert_if, stmt}
use antflow_server.Store.Frame.{
  Frame, CanMove, ExecutionChange, to_state, cursor, step_done, undo_done, undo_total, error_text,
  expire,
}
use antflow_server.Store.Frame.Rules.{
  Keeps, Follows, bind-Follows, Keeps-stmt_at, IsSafe, Keeps-bind, Keeps-stmt, Keeps-base_stmt,
  Keeps-gets, Keeps-or_throw, keeps_rules,
}
use antflow_server.Store.Namespaces
use antflow_server.Store.Definitions
use antflow_server.Store.Steps
use antflow_server.Store.Executions
use antflow_server.Store.Tasks
use antflow_server.Store.CompensationTasks
use antflow_server.Store.History
use antflow_server.Store.Checkpoints

failed-Moves :
    (s : State)
    → Executions.is_open s ≡ true
    → Executions.is_execution_state s ≡ true
    → Moves s failed
failed-Moves created o k = given_up
failed-Moves running o k = allowed refl
failed-Moves compensating o k = allowed refl
failed-Moves completed o k = absurd cc
failed-Moves failed o k = absurd cc
failed-Moves cancelled o k = absurd cc
failed-Moves scheduled o k = absurd cc

cancelled-Moves :
    (s : State)
    → Executions.is_open s ≡ true
    → Executions.is_execution_state s ≡ true
    → Moves s cancelled
cancelled-Moves created o k = allowed refl
cancelled-Moves running o k = allowed refl
cancelled-Moves compensating o k = allowed refl
cancelled-Moves completed o k = absurd cc
cancelled-Moves failed o k = absurd cc
cancelled-Moves cancelled o k = absurd cc
cancelled-Moves scheduled o k = absurd cc

module _ (F : Frame) where
  open F use {Rel}

  pub insert-IsSafe : (b : Bool) (d d' : Db) → (b ≡ true → Rel d d') → IsSafe F d (insert_if b d')
  insert-IsSafe true d d' h = h refl
  insert-IsSafe false d d' h = tt

  pub namespace-create : (x : Namespace) → Keeps F (Namespaces.create x)
  unfolding Namespaces.create
  namespace-create x = Keeps-stmt F _ λ d. insert-IsSafe _ d _ (F.on_namespace d x)

  pub namespace-get_by_id : (id : String) → Keeps F (Namespaces.get_by_id id)
  unfolding Namespaces.get_by_id
  namespace-get_by_id id = search keeps_rules

  pub namespace-get_by_name : (name : String) → Keeps F (Namespaces.get_by_name name)
  unfolding Namespaces.get_by_name
  namespace-get_by_name name = search keeps_rules

  pub definition-create : (x : WorkflowDefinition) → Keeps F (Definitions.create x)
  unfolding Definitions.create
  definition-create x = Keeps-stmt F _ λ d. insert-IsSafe _ d _ (F.on_definition d x)

  pub definition-deactivate : (id : String) → Keeps F (Definitions.deactivate id)
  unfolding Definitions.deactivate
  definition-deactivate id =
      Keeps-bind F _ _ (Keeps-stmt F _ λ d. F.on_deactivate d _) λ hit. search keeps_rules

  pub definition-get_by_id : (id : String) → Keeps F (Definitions.get_by_id id)
  unfolding Definitions.get_by_id
  definition-get_by_id id = search keeps_rules

  pub definition-get_by_name : (ns name : String) → Keeps F (Definitions.get_by_name ns name)
  unfolding Definitions.get_by_name
  definition-get_by_name ns name = search keeps_rules

  pub step-create : (x : WorkflowDefinitionStep) → Keeps F (Steps.create x)
  unfolding Steps.create
  step-create x = Keeps-stmt F _ λ d. insert-IsSafe _ d _ (F.on_step d x)

  pub step-get_all : (def : String) → Keeps F (Steps.get_steps_by_definition_id def)
  unfolding Steps.get_steps_by_definition_id
  step-get_all def = search keeps_rules

  pub step-get : (def : String) (i : ℕ) → Keeps F (Steps.get_by_definition_and_index def i)
  unfolding Steps.get_by_definition_and_index
  step-get def i = search keeps_rules

  pub step-get_compensation :
      (def : String) (i : Option ℕ) → Keeps F (Steps.get_compensation_steps def i)
  unfolding Steps.get_compensation_steps
  step-get_compensation def i = search keeps_rules

  pub execution-create : (x : WorkflowExecution) → Keeps F (Executions.create x)
  unfolding Executions.create
  execution-create x = Keeps-stmt F _ λ d. insert-IsSafe _ d _ (F.on_execution d x)

  pub execution-get : (id : String) → Keeps F (Executions.get_by_id id)
  unfolding Executions.get_by_id
  execution-get id = search keeps_rules

  change-Keeps :
      (p : WorkflowExecution → Bool) (f : WorkflowExecution → WorkflowExecution)
      → ((d : Db) → ExecutionChange d p f)
      → Keeps F (stmt (Executions.update_rows p f))
  change-Keeps p f c = Keeps-stmt F _ λ d. F.on_change d p f (c d)

  -- UpdateState keeps a frame where the row can move to the state.
  pub update_state-Follows :
      (id : String) (s : State) (w : World)
      → CanMove id s (view w)
      → Follows F w (Executions.update_state id s w).1
  unfolding Executions.update_state gets ◌>>=◌
  update_state-Follows id s w c =
      bind-Follows F w w (stmt _) _
        (Keeps-stmt_at F _ w (F.on_change (view w) _ _ (to_state id s w.now c)))
        λ hit. search keeps_rules

  pub execution-fail : (id : String) → Keeps F (Executions.update_state id failed)
  execution-fail id = record {
    at = λ w. update_state-Follows id failed w (λ x e o k. failed-Moves x.state o k);
  }

  pub execution-cancel : (id : String) → Keeps F (Executions.update_state id cancelled)
  execution-cancel id = record {
    at = λ w. update_state-Follows id cancelled w (λ x e o k. cancelled-Moves x.state o k);
  }

  pub execution-cursor : (id : String) (n : ℕ) → Keeps F (Executions.update_step_cursor id n)
  unfolding Executions.update_step_cursor
  execution-cursor id n =
      Keeps-bind F _ _ (Keeps-gets F _) λ now. change-Keeps _ _ (λ d. cursor id n now)

  pub execution-step_done : (id : String) → Keeps F (Executions.increment_completed_steps id)
  unfolding Executions.increment_completed_steps
  execution-step_done id = Keeps-bind F _ _ (Keeps-gets F _) λ now.
      Keeps-bind F _ _ (Keeps-stmt F _ λ d. F.on_change d _ _ (step_done id now))
        λ row. Keeps-or_throw F _ row

  pub execution-undo_done : (id : String) → Keeps F (Executions.increment_compensation_done id)
  unfolding Executions.increment_compensation_done
  execution-undo_done id = Keeps-bind F _ _ (Keeps-gets F _) λ now.
      Keeps-bind F _ _ (Keeps-stmt F _ λ d. F.on_change d _ _ (undo_done id now))
        λ row. Keeps-or_throw F _ row

  pub execution-undo_total :
      (id : String) (n : ℕ) → Keeps F (Executions.set_compensation_total id n)
  unfolding Executions.set_compensation_total
  execution-undo_total id n =
      Keeps-bind F _ _ (Keeps-gets F _) λ now. change-Keeps _ _ (λ d. undo_total id n now)

  pub execution-save_error : (id s : String) → Keeps F (Executions.save_error id s)
  unfolding Executions.save_error
  execution-save_error id s =
      Keeps-bind F _ _ (Keeps-gets F _) λ now. change-Keeps _ _ (λ d. error_text id s now)

  pub execution-expire : Keeps F Executions.expire_overdue
  unfolding Executions.expire_overdue
  execution-expire =
      Keeps-bind F _ _ (Keeps-gets F _)
        λ now. Keeps-base_stmt F _ λ d. F.on_change d _ _ (expire now)

  pub execution-get_active : Keeps F Executions.get_active_executions
  unfolding Executions.get_active_executions
  execution-get_active = search keeps_rules
