-- ===== src/System/Completing.antt =====
-- A workflow of type CHAIN, or a saga whose steps all succeed, under workers that report success.
use antflow_server.Base.{
  ℕ, ◌+◌, ◌<◌, ◌≤◌, true, false, ◌≡◌, refl, sym, ◌∙◌, ap, subst, Option, none, some, List, [], ◌∷◌,
  length, String, exists, find, find-select, ltb, str_eq_refl, arith,
}
use antflow_server.Domain.{
  WorkflowExecution, Task, WorkflowDefinitionStep, Bytes, is_null, completed,
}
use antflow_server.Store.World.{Db, World}
use antflow_server.Store.Calm.{outside}
use antflow_server.Store.Tasks
use antflow_server.Store.Executions.{has_id, set_state}
use antflow_server.Store.Steps.{of_index}
use antflow_server.Usecase.Completion.{complete_task}
use antflow_server.Usecase.Progress.{Stands, of_execution, cursor_at}
use antflow_server.Usecase.Advancing.{
  Fresh, IsInjective, last_step-calm, next_step-calm, later-Fresh,
}
use antflow_server.System.{Event, Call, run, serve}

-- A worker reports that the task of the execution has succeeded.
abbrev success : World → Bytes → Task → Event
success w output t = record { call = Call.complete t.id output ""; at = w.now; faults = [] }

abbrev report_on : Option Task → Bytes → World → World
report_on none output w = w
report_on (some t) output w = run w (success w output t ∷ [])

-- Of the task of the execution that is found first.
unfoldable pub report : String → Bytes → World → World
report id output w = report_on (find (of_execution id) w.db.tasks) output w

-- One report after another, each of the task that is there then.
unfoldable pub work : String → List Bytes → World → World
unfolding report
work id [] w = w
work id (output ∷ outputs) w = work id outputs (report id output w)

-- The definition has every step up to the last, each with attempts.
abbrev pub HasSteps : String → ℕ → List WorkflowDefinitionStep → Type 0
HasSteps def n steps =
    (i : ℕ)
    → i < n
    → (s : WorkflowDefinitionStep) × (find (of_index def (i + 1)) steps ≡ some s)
      × (ltb 0 s.max_attempts ≡ true)

reported_world :
    (x : WorkflowExecution) (t : Task) (output : Bytes) (w : World)
    → Stands x t w.db
    → report x.id output w ≡ (complete_task t.id output "" (outside w.db w)).1
unfolding report run serve
reported_world x t output w s =
    let f : find (of_execution x.id) w.db.tasks ≡ some t =
      find-select (of_execution x.id) w.db.tasks
      ∙ (rw s.alone (rw s.owner (rw (str_eq_refl x.id) refl))) in
    rw f refl

reported_last :
    (x : WorkflowExecution) (t : Task) (output : Bytes) (w : World)
    → Stands x t w.db
    → is_null output ≡ false
    → t.step_index ≡ x.total_steps
    → find (has_id x.id) (report x.id output w).db.executions ≡ some (set_state completed w.now x)
reported_last x t output w s given e =
    let (d, v, k, f) = last_step-calm x t output w.db w s given (let q = e in ground arith) in
    rw (reported_world x t output w s ∙ ap (λ r. r.1) k) f

-- The uuids to come stay fresh.
next-Fresh :
    (w v : World) (d : Db) (ts : List Task)
    → v.env ≡ w.env
    → v.uuids ≡ w.uuids + 1
    → d.tasks ≡ ts
    → ((n : ℕ) → w.uuids + 1 ≤ n → exists (Tasks.has_id (w.env.new_uuid n)) ts ≡ false)
    → Fresh (outside d v) d.tasks
next-Fresh w v d ts e u t f n l = rw e (rw t (f n (rw u at l)))

abbrev Ends : String → List Bytes → World → Type 0
Ends id outputs w =
    (y : WorkflowExecution) × (find (has_id id) (work id outputs w).db.executions ≡ some y)
    × (y.state ≡ completed)

-- A chain runs to its end. Let an execution be RUNNING, of type CHAIN (or a saga), with one task, of
-- a step that is not after the last, and let its definition have the steps from there on. If a
-- worker reports success on its task, whichever that is then, once for each step that is left, and
-- the database answers, then the execution is COMPLETED: no report is lost, fails or stops it. Each
-- report has an output, as that of a step is the input of the next, which is NOT NULL; the uuids are
-- new ones.
pub work-completed :
    (x : WorkflowExecution) (t : Task) (output : Bytes) (outputs : List Bytes) (w : World)
    → Stands x t w.db
    → t.step_index + length outputs ≡ x.total_steps
    → HasSteps x.workflow_definition_id x.total_steps w.db.steps
    → IsInjective w.env.new_uuid
    → Fresh w w.db.tasks
    → exists is_null (output ∷ outputs) ≡ false
    → (y : WorkflowExecution) × (find (has_id x.id) (work x.id (output ∷ outputs) w).db.executions
        ≡ some y)
      × (y.state ≡ completed)
unfolding work
work-completed x t output [] w s n steps i f g =
    (_, reported_last x t output w s (ground (arith, g)) (omega (arith, n)), refl)
work-completed x t output (next ∷ outputs) w s n steps i f g =
    let (step, found, m) = steps t.step_index (omega (arith, n)) in
    let (d, v, k, s', ts, ss, env, ids) =
      next_step-calm x t output w.db w step s f (ground (arith, g)) (let q = n in ground arith)
        found m in
    let here : report x.id output w ≡ outside d v =
      reported_world x t output w s ∙ ap (λ r. r.1) k in
    subst (Ends x.id (next ∷ outputs)) (sym here) (
      work-completed (cursor_at x (t.step_index + 1) w.now) _ next outputs (outside d v) s'
        (omega (arith, n)) (rw ss steps) (rw env i)
        (next-Fresh w v d _ env ids ts (later-Fresh x t output w.db w step i f))
        (ground (arith, g)))
