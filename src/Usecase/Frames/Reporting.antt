-- ===== src/Usecase/Frames/Reporting.antt =====
-- The reports on tasks, the polls and the maintenance keep every frame.
use antflow_server.Base.{not, str_eq, if◌then◌else◌, List, [], ◌∷◌, String}
use antflow_server.Domain.{WorkflowExecution, Task, Bytes, Result, ok, err, is_terminal}
use antflow_server.Store.World.{pure}
use antflow_server.Store.Frame.{Frame}
use antflow_server.Store.Frame.Guarded.Keeping.{
  KeepsIf, KeepsIf-always, KeepsIf-attempt, KeepsIf-if, KeepsIf-then, KeepsIf-before,
  get_by_id-HasState, stays_rules,
}
use antflow_server.Store.Frame.Rules.{Keeps, Keeps-bind, Keeps-bind_at, keeps_rules}
use antflow_server.Store.Frame.Statements.Workers.{statement_rules}
use antflow_server.Usecase.Saga.{poll_compensation_task}
use antflow_server.Usecase.Completion.{
  retry_task, compensation_started_or, saga_step_failed, execution_failed, task_failed,
  combine_results, marshal_outputs, independent_step_done, chain_complete, chain_next,
  chain_step_done, task_succeeded, complete_task_body, complete_task, poll_task,
}
use antflow_server.Usecase.Service.{
  close_each, expire_overdue_workflows, recover, recover_each, recover_workflows, heartbeat_task,
  heartbeat_compensation_task,
}
use antflow_server.Usecase.Closing.{mark_completed-KeepsIf}
use antflow_server.Usecase.Frames.{notify_after-Keeps, start_compensation-KeepsIf}

module _ (F : Frame) where
  compensation_started_or-Keeps :
      (exec : WorkflowExecution) (r : Result (Unit {0})) → Keeps F (compensation_started_or exec r)
  unfolding compensation_started_or
  compensation_started_or-Keeps exec (ok u) = search statement_rules
  compensation_started_or-Keeps exec (err e) = search statement_rules depth 30

  saga_step_failed-KeepsIf :
      (exec : WorkflowExecution) (t : Task) (e : String)
      → KeepsIf F exec.id exec.state (saga_step_failed exec t e)
  unfolding saga_step_failed
  saga_step_failed-KeepsIf exec t e =
      KeepsIf-then F _ _ _ _ (search statement_rules) (search stays_rules) λ u.
        KeepsIf-before F _ _ _ _
          (KeepsIf-attempt F _ _ _ ((start_compensation-KeepsIf F) exec t.step_index))
          λ r. search (statement_rules, compensation_started_or-Keeps) depth 12

  task_failed-KeepsIf :
      (exec : WorkflowExecution) (t : Task) (e : String)
      → KeepsIf F exec.id exec.state (task_failed exec t e)
  unfolding task_failed retry_task execution_failed
  task_failed-KeepsIf exec t e =
      search (statement_rules, KeepsIf-if, KeepsIf-always, saga_step_failed-KeepsIf) depth 40

  combine_results-KeepsIf :
      (exec : WorkflowExecution) → KeepsIf F exec.id exec.state (combine_results exec)
  unfolding combine_results marshal_outputs
  combine_results-KeepsIf exec =
      KeepsIf-then F _ _ _ _ (search statement_rules) (search stays_rules) λ outputs.
        KeepsIf-then F _ _ _ _ (search keeps_rules) (search stays_rules depth 10) λ combined.
          KeepsIf-before F _ _ _ _ (mark_completed-KeepsIf F exec combined)
            λ u. search statement_rules

  independent-KeepsIf :
      (exec : WorkflowExecution) (t : Task) (b : Bytes)
      → KeepsIf F exec.id exec.state (independent_step_done exec t b)
  unfolding independent_step_done
  independent-KeepsIf exec t b =
      KeepsIf-then F _ _ _ _ (search statement_rules) (search stays_rules) λ u.
        KeepsIf-then F _ _ _ _ (search statement_rules) (search stays_rules) λ n.
          KeepsIf-before F _ _ _ _
            (search (keeps_rules, KeepsIf-if, KeepsIf-always, combine_results-KeepsIf))
            λ u. search statement_rules depth 12

  chain_complete-KeepsIf :
      (exec : WorkflowExecution) (t : Task) (b : Bytes)
      → KeepsIf F exec.id exec.state (chain_complete exec t b)
  unfolding chain_complete
  chain_complete-KeepsIf exec t b =
      KeepsIf-before F _ _ _ _ (mark_completed-KeepsIf F exec b)
        λ u. search statement_rules depth 12

  chain-KeepsIf :
      (exec : WorkflowExecution) (t : Task) (b : Bytes)
      → KeepsIf F exec.id exec.state (chain_step_done exec t b)
  unfolding chain_step_done chain_next
  chain-KeepsIf exec t b = KeepsIf-then F _ _ _ _ (search statement_rules) (search stays_rules) λ u.
      KeepsIf-then F _ _ _ _ (search statement_rules) (search stays_rules)
        λ v. search (statement_rules, KeepsIf-if, KeepsIf-always, chain_complete-KeepsIf) depth 40

  -- What a report does once the execution is read, in the state that was read.
  reported-KeepsIf :
      (exec : WorkflowExecution) (t : Task) (result : Bytes) (e : String)
      → KeepsIf F exec.id exec.state (
          if is_terminal exec.state
          then pure ""
          else if not (str_eq e "")
          then task_failed exec t e
          else task_succeeded exec t result)
  unfolding task_succeeded
  reported-KeepsIf exec t result e = search (
    keeps_rules, KeepsIf-if, KeepsIf-always, task_failed-KeepsIf, independent-KeepsIf,
    chain-KeepsIf,
  )

  complete_task_body-Keeps :
      (id : String) (result : Bytes) (e : String) → Keeps F (complete_task_body id result e)
  unfolding complete_task_body
  complete_task_body-Keeps id result e = Keeps-bind F _ _ (search statement_rules) λ u.
      Keeps-bind F _ _ (search statement_rules) λ t.
        Keeps-bind_at F _ _ (search statement_rules)
          λ w exec got. (reported-KeepsIf exec t result e).at _ (get_by_id-HasState _ _ w exec got)

  pub complete_task-Keeps :
      (id : String) (result : Bytes) (e : String) → Keeps F (complete_task id result e)
  unfolding complete_task
  complete_task-Keeps id result e =
      search (statement_rules, complete_task_body-Keeps, (notify_after-Keeps F))

  pub poll_task-Keeps : (queue : String) → Keeps F (poll_task queue)
  unfolding poll_task
  poll_task-Keeps queue = search statement_rules

  pub poll_compensation_task-Keeps : (queue : String) → Keeps F (poll_compensation_task queue)
  unfolding poll_compensation_task
  poll_compensation_task-Keeps queue = search statement_rules

  close_each-Keeps : (ids : List String) → Keeps F (close_each ids)
  unfolding close_each
  close_each-Keeps [] = search statement_rules
  close_each-Keeps (id ∷ ids) =
      Keeps-bind F _ _ (search statement_rules depth 30) λ u. close_each-Keeps ids

  pub expire_overdue_workflows-Keeps : Keeps F expire_overdue_workflows
  unfolding expire_overdue_workflows
  expire_overdue_workflows-Keeps = search (statement_rules, close_each-Keeps) depth 10

  recover-Keeps : (exec : WorkflowExecution) → Keeps F (recover exec)
  unfolding recover
  recover-Keeps exec = search statement_rules depth 30

  recover_each-Keeps : (execs : List WorkflowExecution) → Keeps F (recover_each execs)
  unfolding recover_each
  recover_each-Keeps [] = search statement_rules
  recover_each-Keeps (e ∷ es) =
      Keeps-bind F _ _ (search (keeps_rules, recover-Keeps)) λ u. recover_each-Keeps es

  pub recover_workflows-Keeps : Keeps F recover_workflows
  unfolding recover_workflows
  recover_workflows-Keeps = search (statement_rules, recover_each-Keeps) depth 10

  pub heartbeat_task-Keeps : (id : String) → Keeps F (heartbeat_task id)
  unfolding heartbeat_task
  heartbeat_task-Keeps id = search statement_rules

  pub heartbeat_compensation_task-Keeps : (id : String) → Keeps F (heartbeat_compensation_task id)
  unfolding heartbeat_compensation_task
  heartbeat_compensation_task-Keeps id = search statement_rules
