-- ===== src/Usecase/Frames.antt =====
-- Every method of the service keeps every frame: registering, starting, cancelling and rolling back.
pub mod Reporting
use antflow_server.Base.{
  ℕ, ◌≡◌, not, str_eq, if◌then◌else◌, ◌+◌, Option, none, some, List, [], ◌∷◌, String,
}
use antflow_server.Domain.{
  Namespace, WorkflowType, WorkflowDefinition, WorkflowDefinitionStep, WorkflowExecution, Task,
  CompensationTask, TaskOutput, Bytes, Result, ok, err, validate_transition, running, compensating,
  is_terminal,
}
use antflow_server.Store.World.{World, pure, lift, wrapping}
use antflow_server.Store.Inversion.{wrapping-ok}
use antflow_server.Store.Frame.{Frame}
use antflow_server.Store.Frame.Guarded.Keeping.{
  KeepsIf, KeepsIf-always, KeepsIf-attempt, KeepsIf-if, KeepsIf-bind, KeepsIf-then, KeepsIf-before,
  KeepsIf-move, create-HasState, get_by_id-HasState, stays_rules,
}
use antflow_server.Store.Frame.Rules.{Keeps, Keeps-bind, Keeps-bind_at, keeps_rules}
use antflow_server.Store.Frame.Statements.Workers.{statement_rules}
use antflow_server.Usecase.Registration.{
  tail, namespace_or_new, next_version, create_steps, register_body, register_workflow,
}
use antflow_server.Usecase.Execution.{
  schedule_all, schedule_first, start_body, start_workflow, cancel_body, cancel_workflow,
}
use antflow_server.Usecase.Saga.{
  start_compensation, schedule_compensation, rolled_back, start_first, retry_compensation_task,
  compensation_exhausted, compensation_task_failed, schedule_next, next_compensation,
  compensation_task_succeeded, complete_compensation_body, notify_after, complete_compensation_task,
  poll_compensation_task,
}
use antflow_server.Usecase.Completion.{
  retry_task, compensation_started_or, saga_step_failed, execution_failed, task_failed,
  combine_results, marshal_outputs, independent_step_done, chain_complete, chain_next,
  chain_step_done, task_succeeded, complete_task_body, complete_task, poll_task,
}
use antflow_server.Usecase.Service.{
  close_each, expire_overdue_workflows, recover, recover_each, recover_workflows, heartbeat_task,
  heartbeat_compensation_task,
}
use antflow_server.Usecase.Closing.{mark_completed-KeepsIf}

lift-ok : {A : Type 0} (r : Result A) (w : World) {a : A} → (lift r w).0 ≡ ok a → r ≡ ok a
unfolding lift
lift-ok r w h = h

lifted-ok :
    {A : Type 0} (s : String) (r : Result A) (w : World) {a : A}
    → (wrapping s (lift r) w).0 ≡ ok a
    → r ≡ ok a
lifted-ok s r w h = lift-ok r w (wrapping-ok s (lift r) w h).0

module _ (F : Frame) where
  pub namespace_or_new-Keeps :
      (name : String) (r : Result Namespace) → Keeps F (namespace_or_new name r)
  unfolding namespace_or_new
  namespace_or_new-Keeps name (ok ns) = search statement_rules
  namespace_or_new-Keeps name (err e) = search statement_rules depth 12

  pub next_version-Keeps : (r : Result WorkflowDefinition) → Keeps F (next_version r)
  unfolding next_version
  next_version-Keeps (ok x) = search statement_rules depth 12
  next_version-Keeps (err e) = search statement_rules depth 12

  create_steps-Keeps :
      (def : String) (timeout idx : ℕ) (names comps : List String) (attempts : List ℕ)
      → Keeps F (create_steps def timeout idx names comps attempts)
  unfolding create_steps
  create_steps-Keeps def timeout idx [] comps attempts = search statement_rules
  create_steps-Keeps def timeout idx (n ∷ ns) comps attempts =
      Keeps-bind F _ _ (search keeps_rules) λ id.
        Keeps-bind F _ _ (search statement_rules)
          λ u. create_steps-Keeps def timeout (idx + 1) ns (tail comps) (tail attempts)

  register_body-Keeps :
      (name : String) (t : WorkflowType) (steps comps : List String) (timeout : ℕ)
      (attempts : List ℕ)
      → Keeps F (register_body name t steps comps timeout attempts)
  unfolding register_body
  register_body-Keeps name t steps comps timeout attempts =
      search (statement_rules, namespace_or_new-Keeps, next_version-Keeps, create_steps-Keeps) depth
        30

  pub register_workflow-Keeps :
      (name t : String) (steps comps : List String) (timeout : ℕ) (attempts : List ℕ)
      → Keeps F (register_workflow name t steps comps timeout attempts)
  unfolding register_workflow
  register_workflow-Keeps name t [] comps timeout attempts = search statement_rules
  register_workflow-Keeps name t (s ∷ ss) comps timeout attempts =
      search (statement_rules, register_body-Keeps)

  schedule_all-Keeps :
      (id : String) (input : Bytes) (queue : String) (steps : List WorkflowDefinitionStep)
      → Keeps F (schedule_all id input queue steps)
  unfolding schedule_all
  schedule_all-Keeps id input queue [] = search statement_rules
  schedule_all-Keeps id input queue (s ∷ ss) =
      Keeps-bind F _ _ (search statement_rules depth 10)
        λ t. Keeps-bind F _ _ (search statement_rules) λ u. schedule_all-Keeps id input queue ss

  schedule_first-Keeps :
      (id : String) (input : Bytes) (queue : String) (steps : List WorkflowDefinitionStep)
      → Keeps F (schedule_first id input queue steps)
  unfolding schedule_first
  schedule_first-Keeps id input queue [] = search statement_rules
  schedule_first-Keeps id input queue (s ∷ ss) = search statement_rules depth 12

  start_body-Keeps :
      (def : WorkflowDefinition) (exec : WorkflowExecution) (queue : String) (input : Bytes)
      → Keeps F (start_body def exec queue input)
  unfolding start_body
  start_body-Keeps def exec queue input = Keeps-bind_at F _ _ (search statement_rules) λ w u e.
      (KeepsIf-then F exec.id exec.state _ _ (search statement_rules) (search stays_rules) λ u.
          KeepsIf-bind F _ _ (wrapping _ (lift (validate_transition exec.state running))) _
            (search keeps_rules) (search stays_rules)
            λ v u c.
              KeepsIf-before F _ _ _ _ (KeepsIf-move F _ _ running (lifted-ok _ _ v c))
                λ u. search (statement_rules, schedule_all-Keeps, schedule_first-Keeps) depth 30).at
        _ (create-HasState _ w exec e)

  pub start_workflow-Keeps :
      (def queue : String) (input : Bytes) (override : ℕ)
      → Keeps F (start_workflow def queue input override)
  unfolding start_workflow
  start_workflow-Keeps def queue input override =
      search (statement_rules, start_body-Keeps) depth 30

  pub cancel_workflow-Keeps : (id : String) → Keeps F (cancel_workflow id)
  unfolding cancel_workflow cancel_body
  cancel_workflow-Keeps id = search statement_rules depth 30

  rolled_back-Keeps : (id text : String) → Keeps F (rolled_back id text)
  unfolding rolled_back
  rolled_back-Keeps id text = search statement_rules depth 30

  schedule_compensation-Keeps :
      (s : String) (exec : WorkflowExecution) (step : WorkflowDefinitionStep)
      (outputs : List TaskOutput)
      → Keeps F (schedule_compensation s exec step outputs)
  unfolding schedule_compensation
  schedule_compensation-Keeps s exec step outputs = search statement_rules depth 30

  start_first-Keeps :
      (exec : WorkflowExecution) (outputs : List TaskOutput) (steps : List WorkflowDefinitionStep)
      → Keeps F (start_first exec outputs steps)
  unfolding start_first
  start_first-Keeps exec outputs [] = search statement_rules depth 30
  start_first-Keeps exec outputs (s ∷ ss) = search statement_rules depth 30

  pub start_compensation-KeepsIf :
      (exec : WorkflowExecution) (n : ℕ) → KeepsIf F exec.id exec.state (start_compensation exec n)
  unfolding start_compensation
  start_compensation-KeepsIf exec n =
      KeepsIf-bind F _ _ _ _ (search keeps_rules) (search stays_rules) λ v u c.
        KeepsIf-before F _ _ _ _ (KeepsIf-move F _ _ compensating (lift-ok _ v c))
          λ u. search (statement_rules, start_first-Keeps) depth 30

  compensation_task_failed-Keeps :
      (exec : WorkflowExecution) (t : CompensationTask) (e : String)
      → Keeps F (compensation_task_failed exec t e)
  unfolding compensation_task_failed retry_compensation_task compensation_exhausted
  compensation_task_failed-Keeps exec t e = search statement_rules depth 40

  schedule_next-Keeps :
      (exec : WorkflowExecution) (outputs : List TaskOutput) (o : Option WorkflowDefinitionStep)
      → Keeps F (schedule_next exec outputs o)
  unfolding schedule_next
  schedule_next-Keeps exec outputs none = search statement_rules depth 30
  schedule_next-Keeps exec outputs (some s) = search statement_rules depth 30

  compensation_task_succeeded-Keeps :
      (exec : WorkflowExecution) (t : CompensationTask) (b : Bytes)
      → Keeps F (compensation_task_succeeded exec t b)
  unfolding compensation_task_succeeded next_compensation
  compensation_task_succeeded-Keeps exec t b =
      search (statement_rules, schedule_next-Keeps) depth 40

  pub notify_after-Keeps : (queue : String) → Keeps F (notify_after queue)
  unfolding notify_after
  notify_after-Keeps queue = search statement_rules

  pub complete_compensation_task-Keeps :
      (id : String) (result : Bytes) (e : String) → Keeps F (complete_compensation_task id result e)
  unfolding complete_compensation_task complete_compensation_body
  complete_compensation_task-Keeps id result e =
      search
        (
          statement_rules, compensation_task_failed-Keeps, compensation_task_succeeded-Keeps,
          notify_after-Keeps,
        )
        depth 40
