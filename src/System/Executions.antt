-- ===== src/System/Executions.antt =====
-- What any run of the server keeps of a row of `workflow_execution`, and when its end is settled.
use antflow_server.Base.{◌≤◌, Bool, true, ◌≡◌, ◌∙◌, ◌⊎◌, some, List, String, arith, find}
use antflow_server.Domain.{WorkflowExecution, State, completed, failed, cancelled}
use antflow_server.Store.World.{Db, World}
use antflow_server.Store.Executions.{has_id}
use antflow_server.Store.Frame.{
  ExecutionChange, to_state, cursor, step_done, undo_done, undo_total, error_text, expire,
}
use antflow_server.System.{Event, run}
use antflow_server.System.Rows.{RowFrame, run-row}

-- The three states that end an execution.
abbrev pub IsFinal : State → Type 0
IsFinal s = (s ≡ completed) ⊎ (s ≡ failed) ⊎ (s ≡ cancelled)

-- What stays of a row, and what only grows.
pub record Evolves (x y : WorkflowExecution) : Type 0 where
  pub id : y.id ≡ x.id
  pub workflow_definition_id : y.workflow_definition_id ≡ x.workflow_definition_id
  pub workflow_name : y.workflow_name ≡ x.workflow_name
  pub workflow_type : y.workflow_type ≡ x.workflow_type
  pub task_queue : y.task_queue ≡ x.task_queue
  pub total_steps : y.total_steps ≡ x.total_steps
  pub input : y.input ≡ x.input
  pub deadline_at : y.deadline_at ≡ x.deadline_at
  pub completed_steps : x.completed_steps ≤ y.completed_steps
  pub compensation_done : x.compensation_done ≤ y.compensation_done

Evolves-refl : (x : WorkflowExecution) → Evolves x x
Evolves-refl x = ground arith

Evolves-trans : (x y z : WorkflowExecution) → Evolves x y → Evolves y z → Evolves x z
Evolves-trans x y z p q = ground arith

Evolves-change :
    (p : WorkflowExecution → Bool) (f : WorkflowExecution → WorkflowExecution)
    → {d : Db} → ExecutionChange d p f
    → (x : WorkflowExecution) → p x ≡ true
    → Evolves x (f x)
Evolves-change _ _ (to_state i s now c) x h = ground arith
Evolves-change _ _ (cursor i n now) x h = ground arith
Evolves-change _ _ (step_done i now) x h = ground arith
Evolves-change _ _ (undo_done i now) x h = ground arith
Evolves-change _ _ (undo_total i n now) x h = ground arith
Evolves-change _ _ (error_text i s now) x h = ground arith
Evolves-change _ _ (expire now) x h = ground arith

abbrev evolves_frame : RowFrame Evolves
evolves_frame = record {
  order = record { row_refl = Evolves-refl; row_trans = Evolves-trans; row_id = λ x y h. h.id };
  row_change = Evolves-change;
}

-- In any run of the server an execution keeps its identity: its row is never removed, its
-- definition, name, type, queue, number of steps, input and deadline stay, and its two counters
-- never fall. This holds whichever calls are made, at whatever times, and whichever statements fail.
pub run-Evolves :
    (w : World) (es : List Event) (id : String) (x : WorkflowExecution)
    → find (has_id id) w.db.executions ≡ some x
    → (y : WorkflowExecution) × (find (has_id id) (run w es).db.executions ≡ some y) × Evolves x y
run-Evolves w es id x e = run-row evolves_frame w es id x e

-- The end of an execution is not undone, nor is its time or its result.
pub record Settled (x y : WorkflowExecution) : Type 0 where
  pub id : y.id ≡ x.id
  pub state : IsFinal x.state → y.state ≡ x.state
  pub completed_at : IsFinal x.state → y.completed_at ≡ x.completed_at
  pub current_step : IsFinal x.state → y.current_step ≡ x.current_step
  pub result : y.result ≡ x.result

Settled-refl : (x : WorkflowExecution) → Settled x x
Settled-refl x = ground arith

Settled-trans : (x y z : WorkflowExecution) → Settled x y → Settled y z → Settled x z
Settled-trans x y z p q = record {
  id = q.id ∙ p.id;
  state = λ h. q.state (rw (p.state h) h) ∙ p.state h;
  completed_at = λ h. q.completed_at (rw (p.state h) h) ∙ p.completed_at h;
  current_step = λ h. q.current_step (rw (p.state h) h) ∙ p.current_step h;
  result = q.result ∙ p.result;
}

Settled-change :
    (p : WorkflowExecution → Bool) (f : WorkflowExecution → WorkflowExecution)
    → {d : Db} → ExecutionChange d p f
    → (x : WorkflowExecution) → p x ≡ true
    → Settled x (f x)
Settled-change _ _ (to_state i s now c) x h = ground arith
Settled-change _ _ (cursor i n now) x h = ground arith
Settled-change _ _ (step_done i now) x h = ground arith
Settled-change _ _ (undo_done i now) x h = ground arith
Settled-change _ _ (undo_total i n now) x h = ground arith
Settled-change _ _ (error_text i s now) x h = ground arith
Settled-change _ _ (expire now) x h = ground arith

abbrev settled_frame : RowFrame Settled
settled_frame = record {
  order = record { row_refl = Settled-refl; row_trans = Settled-trans; row_id = λ x y h. h.id };
  row_change = Settled-change;
}

-- Once an execution is COMPLETED, FAILED or CANCELLED, no run of the server changes its state, its
-- completion time or its cursor, whichever calls are made and whichever statements fail.
pub run-final :
    (w : World) (es : List Event) (id : String) (x : WorkflowExecution)
    → find (has_id id) w.db.executions ≡ some x
    → IsFinal x.state
    → (y : WorkflowExecution) × (find (has_id id) (run w es).db.executions ≡ some y)
      × (y.state ≡ x.state)
      × (y.completed_at ≡ x.completed_at)
      × (y.current_step ≡ x.current_step)
run-final w es id x e h =
    let (y, f, s) = run-row settled_frame w es id x e in
    (y, f, s.state h, s.completed_at h, s.current_step h)
