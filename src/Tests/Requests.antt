-- ===== src/Tests/Requests.antt =====
-- The theorems on single requests, on the small server.
use antflow_server.Base.{
  ◌≡◌, ◌≢◌, ◌↔◌, refl, Bool, true, false, none, some, List, [], ◌∷◌, str_eq, exists, update, arith,
}
use antflow_server.Domain.{
  completed, running, chain, WorkflowExecution, Task, Bytes, Err, ok, err, is_not_found, db_error,
}
use antflow_server.Store.World.{
  Db, World, run_in_tx, poll_in_tx, ◌>>=◌, wrapping, gets, stmt, query, throw, pure, attempt,
  ignore, or_throw, lift, new_uuid, notify, base_query, base_stmt,
}
use antflow_server.Store.Covered.{SameTables}
use antflow_server.Store.Executions.{open_row}
use antflow_server.Store.Executions
use antflow_server.Store.Tasks.{find_and_lock_pending, locked, lock, earliest}
use antflow_server.Store.Tasks
use antflow_server.Store.CompensationTasks
use antflow_server.Store.Definitions
use antflow_server.Store.Namespaces
use antflow_server.Store.Steps
use antflow_server.Store.Polling.{poll-poll}
use antflow_server.Usecase.Execution.{
  start_workflow, start_body, schedule_first, build_task, cancel_workflow, cancel_body,
}
use antflow_server.Usecase.Completion.{complete_task, complete_task_body}
use antflow_server.Usecase.Saga.{complete_compensation_task, complete_compensation_body}
use antflow_server.Usecase.Registration.{
  register_workflow, parse_type, register_body, namespace_or_new, next_version,
}
use antflow_server.Usecase.Atomic.{
  complete_task_atomic, complete_compensation_task_atomic, start_workflow_atomic,
  cancel_workflow_atomic, register_workflow_atomic,
}
use antflow_server.Usecase.Cancelled.{cancel_workflow-ok}
use antflow_server.Domain.{cancelled}
use antflow_server.Store.World.{drain}
use antflow_server.Usecase.Starting.{start_workflow-deadline}
use antflow_server.Usecase.Execution.{new_execution, after_seconds, get_workflow_result}
use antflow_server.Store.Steps.{compensation_steps, int_pred, by_index, insert_step}
use antflow_server.Store.Executions.{execution_fits}
use antflow_server.Store.Tasks.{task_fits}
use antflow_server.Store.History
use antflow_server.System.{run}
use antflow_server.Handler.{
  internal, response, status, is_workflow_type, handle_cancel, handle_result,
}
use antflow_server.Handler.Statuses.{handle_cancel_closed, handle_result-run, is_workflow_type_iff}
use antflow_server.Tests.{server, busy, tables, task, definition}

z_closed : exists (open_row "z") tables.executions ≡ false
unfolding str_eq
z_closed = refl

z_named : str_eq "z" "" ≡ false
unfolding str_eq
z_named = refl

-- BEGIN and the UPDATE of the task go through, the SELECT after it fails.
abbrev late_fault : List Bool
late_fault = false ∷ false ∷ true ∷ []

complete_fails :
    (complete_task "t" [] "" (server late_fault)).0 ≡ err (Err.wrap "failed to find task" db_error)
unfolding complete_task run_in_tx ◌>>=◌ complete_task_body wrapping Tasks.update_completed
    Tasks.get_by_id gets stmt query
complete_fails = refl

complete_task_atomic_example : SameTables tables (complete_task "t" [] "" (server late_fault)).1.db
complete_task_atomic_example = complete_task_atomic "t" [] "" (server late_fault) complete_fails

undo_fails :
    (complete_compensation_task "c" [] "" (server late_fault)).0
    ≡ err (Err.wrap "failed to find compensation task" db_error)
unfolding complete_compensation_task run_in_tx ◌>>=◌ complete_compensation_body wrapping
    CompensationTasks.update_completed CompensationTasks.get_by_id gets stmt query
undo_fails = refl

complete_compensation_task_atomic_example :
    SameTables tables (complete_compensation_task "c" [] "" (server late_fault)).1.db
complete_compensation_task_atomic_example =
    complete_compensation_task_atomic "c" [] "" (server late_fault) undo_fails

cancel_fails :
    (cancel_workflow "x" (server late_fault)).0
    ≡ err (Err.wrap "failed to cancel pending tasks" db_error)
unfolding cancel_workflow run_in_tx ◌>>=◌ cancel_body wrapping Executions.update_state
    Tasks.cancel_by_execution gets stmt pure str_eq
cancel_fails = refl

cancel_workflow_atomic_example : SameTables tables (cancel_workflow "x" (server late_fault)).1.db
cancel_workflow_atomic_example = cancel_workflow_atomic "x" (server late_fault) cancel_fails

start_fails :
    (start_workflow "d" "q" [] 0 (server late_fault)).0
    ≡ err (Err.wrap "failed to create execution" db_error)
unfolding start_workflow run_in_tx ◌>>=◌ start_body wrapping Definitions.get_by_id base_query
    base_stmt or_throw Executions.create gets stmt pure new_uuid str_eq
start_fails = refl

start_workflow_atomic_example :
    SameTables tables (start_workflow "d" "q" [] 0 (server late_fault)).1.db
start_workflow_atomic_example = start_workflow_atomic "d" "q" [] 0 (server late_fault) start_fails

register_fails :
    (register_workflow "wf" "SAGA" ("a" ∷ []) [] 0 [] (server late_fault)).0
    ≡ err (Err.wrap "failed to check existing workflow definition" db_error)
unfolding register_workflow parse_type run_in_tx ◌>>=◌ register_body namespace_or_new next_version
    attempt Namespaces.get_by_name Definitions.get_by_name base_query base_stmt or_throw throw query
    stmt pure is_not_found str_eq
register_fails = refl

register_workflow_atomic_example :
    SameTables tables (register_workflow "wf" "SAGA" ("a" ∷ []) [] 0 [] (server late_fault)).1.db
register_workflow_atomic_example =
    register_workflow_atomic "wf" "SAGA" ("a" ∷ []) [] 0 [] (server late_fault) register_fails

-- A second task of the queue, which another worker is handed after the first.
abbrev second : Task
second = record task { id = "t2"; step_index = 3; scheduled_at = 5 }

abbrev two_tasks : World
two_tasks = let w = server [] in record w { db = record tables { tasks = task ∷ second ∷ [] } }

abbrev later_world : World
later_world = let w = (find_and_lock_pending "q" two_tasks).1 in record w { now = 12; faults = [] }

first_polled : (find_and_lock_pending "q" two_tasks).0 ≡ ok (some (locked 7 task))
unfolding find_and_lock_pending poll_in_tx ◌>>=◌ gets query stmt earliest lock pure str_eq
first_polled = refl

second_polled : (find_and_lock_pending "q" later_world).0 ≡ ok (some (locked 12 second))
unfolding find_and_lock_pending poll_in_tx ◌>>=◌ gets query stmt earliest lock pure str_eq
second_polled = refl

poll-poll_example : (locked 12 second).id ≢ (locked 7 task).id
poll-poll_example =
    poll-poll "q" "q" two_tasks later_world (locked 7 task) (locked 12 second) first_polled refl
      (omega arith) second_polled

-- The execution of the task, as a CHAIN.
abbrev in_chain : WorkflowExecution
in_chain = record busy { workflow_type = chain }

abbrev chain_tables : Db
chain_tables = record tables { executions = in_chain ∷ [] }

-- The server with a definition that was registered with a timeout, and the execution that it starts.
abbrev started : WorkflowExecution
started =
    let x = new_execution "u" (Definitions.scan_definition definition) "q" (1 ∷ []) 60 7 in
    record x { state = running }

started_ok : (start_workflow "d" "q" (1 ∷ []) 60 (server [])).0 ≡ ok started
unfolding start_workflow run_in_tx ◌>>=◌ start_body schedule_first build_task wrapping ignore
    attempt lift Definitions.get_by_id base_query base_stmt or_throw Executions.create
    Executions.update_state execution_fits History.append Steps.get_steps_by_definition_id by_index
    insert_step Tasks.create task_fits gets stmt pure new_uuid after_seconds notify str_eq
started_ok = refl

start_workflow-deadline_example : (started.state ≡ running) × (started.deadline_at ≡ some 67)
start_workflow-deadline_example =
    start_workflow-deadline "d" "q" (1 ∷ []) 60 (server []) started (omega arith) started_ok

handle_cancel_closed_example :
    ((handle_cancel "z" (server [])).0 ≡ status internal)
    × ((handle_cancel "z" (server [])).1.db.executions ≡ tables.executions)
handle_cancel_closed_example = handle_cancel_closed "z" (server []) z_named z_closed refl

over_answer :
    (handle_result "z" (server [])).0
    ≡ response (record { state = completed; result = []; error = "" })
unfolding handle_result get_workflow_result Executions.get_by_id ◌>>=◌ query stmt or_throw pure
    str_eq
over_answer = refl

handle_result-run_example : ◌≡◌ {A = Bytes} [] []
unfolding run
handle_result-run_example =
    handle_result-run (server []) (server []) [] "z"
      (record { state = completed; result = []; error = "" }) (refl, (refl, tt)) refl over_answer

is_workflow_type_iff_example : (is_workflow_type "SAGA" ≡ true) ↔ (parse_type "SAGA" ≢ none)
is_workflow_type_iff_example = is_workflow_type_iff "SAGA"

cancelled_ok : (cancel_workflow "x" (server [])).0 ≡ ok tt
unfolding cancel_workflow run_in_tx ◌>>=◌ cancel_body wrapping Executions.update_state
    Tasks.cancel_by_execution CompensationTasks.cancel_by_execution History.append gets stmt pure
    drain str_eq
cancelled_ok = refl

cancel_workflow-ok_example :
    let d = (cancel_workflow "x" (server [])).1.db in
    (exists (open_row "x") tables.executions ≡ true)
    × (d.executions ≡ update (open_row "x") (Executions.set_state cancelled 7) tables.executions)
    × (exists (Tasks.pending_of "x") d.tasks ≡ false)
    × (exists (CompensationTasks.pending_of "x") d.compensation_tasks ≡ false)
cancel_workflow-ok_example = cancel_workflow-ok "x" (server []) cancelled_ok
