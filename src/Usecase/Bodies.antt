-- ===== src/Usecase/Bodies.antt =====
-- The bodies of the transactions of the service leave the committed tables alone.
use antflow_server.Base.{ℕ, ◌+◌, Option, none, some, List, [], ◌∷◌, String}
use antflow_server.Domain.{
  Namespace, WorkflowType, WorkflowDefinition, WorkflowDefinitionStep, WorkflowExecution, Task,
  CompensationTask, TaskOutput, Bytes, Result, ok, err,
}
use antflow_server.Store.Covered.{Covered, Covered-bind, covered_rules}
use antflow_server.Store.Covered.Statements.{body_rules}
use antflow_server.Usecase.Registration.{
  tail, namespace_or_new, next_version, create_steps, register_body,
}
use antflow_server.Usecase.Execution.{schedule_all, schedule_first, start_body, cancel_body}
use antflow_server.Usecase.Saga.{
  start_compensation, schedule_compensation, rolled_back, start_first, retry_compensation_task,
  compensation_exhausted, compensation_task_failed, schedule_next, next_compensation,
  compensation_task_succeeded, complete_compensation_body,
}
use antflow_server.Usecase.Completion.{
  retry_task, compensation_started_or, saga_step_failed, execution_failed, task_failed,
  mark_completed, marshal_outputs, combine_results, independent_step_done, chain_complete,
  chain_next, chain_step_done, task_succeeded, complete_task_body,
}

Covered-namespace_or_new :
    (name : String) (r : Result Namespace) → Covered (namespace_or_new name r)
unfolding namespace_or_new
Covered-namespace_or_new name (ok ns) = search body_rules
Covered-namespace_or_new name (err e) = search body_rules depth 12

Covered-next_version : (r : Result WorkflowDefinition) → Covered (next_version r)
unfolding next_version
Covered-next_version (ok x) = search body_rules depth 12
Covered-next_version (err e) = search body_rules depth 12

Covered-create_steps :
    (def : String) (timeout idx : ℕ) (names comps : List String) (attempts : List ℕ)
    → Covered (create_steps def timeout idx names comps attempts)
unfolding create_steps
Covered-create_steps def timeout idx [] comps attempts = search body_rules
Covered-create_steps def timeout idx (n ∷ ns) comps attempts =
    Covered-bind _ _ (search covered_rules) λ id.
      Covered-bind _ _ (search body_rules)
        λ u. Covered-create_steps def timeout (idx + 1) ns (tail comps) (tail attempts)

pub Covered-register_body :
    (name : String) (t : WorkflowType) (steps comps : List String) (timeout : ℕ) (attempts : List ℕ)
    → Covered (register_body name t steps comps timeout attempts)
unfolding register_body
Covered-register_body name t steps comps timeout attempts =
    search (body_rules, Covered-namespace_or_new, Covered-next_version, Covered-create_steps) depth
      30

Covered-schedule_all :
    (id : String) (input : Bytes) (queue : String) (steps : List WorkflowDefinitionStep)
    → Covered (schedule_all id input queue steps)
unfolding schedule_all
Covered-schedule_all id input queue [] = search body_rules
Covered-schedule_all id input queue (s ∷ ss) =
    Covered-bind _ _ (search body_rules depth 10)
      λ t. Covered-bind _ _ (search body_rules) λ u. Covered-schedule_all id input queue ss

Covered-schedule_first :
    (id : String) (input : Bytes) (queue : String) (steps : List WorkflowDefinitionStep)
    → Covered (schedule_first id input queue steps)
unfolding schedule_first
Covered-schedule_first id input queue [] = search body_rules
Covered-schedule_first id input queue (s ∷ ss) = search body_rules depth 12

pub Covered-start_body :
    (def : WorkflowDefinition) (exec : WorkflowExecution) (queue : String) (input : Bytes)
    → Covered (start_body def exec queue input)
unfolding start_body
Covered-start_body def exec queue input =
    search (body_rules, Covered-schedule_all, Covered-schedule_first) depth 30

pub Covered-cancel_body : (id : String) → Covered (cancel_body id)
unfolding cancel_body
Covered-cancel_body id = search body_rules depth 30

Covered-rolled_back : (id text : String) → Covered (rolled_back id text)
unfolding rolled_back
Covered-rolled_back id text = search body_rules depth 30

Covered-schedule_compensation :
    (s : String) (exec : WorkflowExecution) (step : WorkflowDefinitionStep)
    (outputs : List TaskOutput)
    → Covered (schedule_compensation s exec step outputs)
unfolding schedule_compensation
Covered-schedule_compensation s exec step outputs = search body_rules depth 30

Covered-start_first :
    (exec : WorkflowExecution) (outputs : List TaskOutput) (steps : List WorkflowDefinitionStep)
    → Covered (start_first exec outputs steps)
unfolding start_first
Covered-start_first exec outputs [] = search body_rules depth 30
Covered-start_first exec outputs (s ∷ ss) = search body_rules depth 30

Covered-start_compensation :
    (exec : WorkflowExecution) (n : ℕ) → Covered (start_compensation exec n)
unfolding start_compensation
Covered-start_compensation exec n = search (body_rules, Covered-start_first) depth 30

Covered-compensation_task_failed :
    (exec : WorkflowExecution) (t : CompensationTask) (e : String)
    → Covered (compensation_task_failed exec t e)
unfolding compensation_task_failed retry_compensation_task compensation_exhausted
Covered-compensation_task_failed exec t e = search body_rules depth 40

Covered-schedule_next :
    (exec : WorkflowExecution) (outputs : List TaskOutput) (o : Option WorkflowDefinitionStep)
    → Covered (schedule_next exec outputs o)
unfolding schedule_next
Covered-schedule_next exec outputs none = search body_rules depth 30
Covered-schedule_next exec outputs (some s) = search body_rules depth 30

Covered-compensation_task_succeeded :
    (exec : WorkflowExecution) (t : CompensationTask) (b : Bytes)
    → Covered (compensation_task_succeeded exec t b)
unfolding compensation_task_succeeded next_compensation
Covered-compensation_task_succeeded exec t b = search (body_rules, Covered-schedule_next) depth 40

pub Covered-complete_compensation_body :
    (id : String) (result : Bytes) (e : String) → Covered (complete_compensation_body id result e)
unfolding complete_compensation_body
Covered-complete_compensation_body id result e =
    search (body_rules, Covered-compensation_task_failed, Covered-compensation_task_succeeded) depth
      40

Covered-compensation_started_or :
    (exec : WorkflowExecution) (r : Result (Unit {0})) → Covered (compensation_started_or exec r)
unfolding compensation_started_or
Covered-compensation_started_or exec (ok u) = search body_rules
Covered-compensation_started_or exec (err e) = search body_rules depth 30

Covered-task_failed :
    (exec : WorkflowExecution) (t : Task) (e : String) → Covered (task_failed exec t e)
unfolding task_failed retry_task saga_step_failed execution_failed
Covered-task_failed exec t e =
    search (body_rules, Covered-start_compensation, Covered-compensation_started_or) depth 40

Covered-mark_completed : (exec : WorkflowExecution) (b : Bytes) → Covered (mark_completed exec b)
unfolding mark_completed
Covered-mark_completed exec b = search body_rules depth 30

Covered-combine_results : (exec : WorkflowExecution) → Covered (combine_results exec)
unfolding combine_results marshal_outputs
Covered-combine_results exec = search (body_rules, Covered-mark_completed) depth 30

Covered-independent :
    (exec : WorkflowExecution) (t : Task) (b : Bytes) → Covered (independent_step_done exec t b)
unfolding independent_step_done
Covered-independent exec t b = search (body_rules, Covered-combine_results) depth 40

Covered-chain :
    (exec : WorkflowExecution) (t : Task) (b : Bytes) → Covered (chain_step_done exec t b)
unfolding chain_step_done chain_complete chain_next
Covered-chain exec t b = search (body_rules, Covered-mark_completed) depth 40

pub Covered-complete_task_body :
    (id : String) (result : Bytes) (e : String) → Covered (complete_task_body id result e)
unfolding complete_task_body task_succeeded
Covered-complete_task_body id result e =
    search (body_rules, Covered-task_failed, Covered-independent, Covered-chain) depth 40
