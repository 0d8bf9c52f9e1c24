-- ===== src/System/Results.antt =====
-- The column `result` of `workflow_execution`: what any run of the server stores in it.
use antflow_server.Base.{Bool, ◌≡◌, refl, List, [], ◌∷◌, ◌++◌, arith, update}
use antflow_server.Domain.{WorkflowExecution}
use antflow_server.Store.World.{Db, World}
use antflow_server.Store.Executions.{execution_row}
use antflow_server.Store.Frame.{
  Frame, ExecutionChange, to_state, cursor, step_done, undo_done, undo_total, error_text, expire,
}
use antflow_server.System.{Event, run, run-Rel}

-- No row holds a result.
abbrev pub NoResults : List WorkflowExecution → Type 0
NoResults [] = Unit {0}
NoResults (x ∷ xs) = (x.result ≡ []) × NoResults xs

NoResults-append :
    (xs : List WorkflowExecution) (x : WorkflowExecution)
    → x.result ≡ []
    → NoResults xs
    → NoResults (xs ++ x ∷ [])
NoResults-append [] x e h = (e, tt)
NoResults-append (y ∷ xs) x e h = (h.0, NoResults-append xs x e h.1)

NoResults-update :
    (p : WorkflowExecution → Bool) (f : WorkflowExecution → WorkflowExecution)
    → ((x : WorkflowExecution) → (f x).result ≡ x.result)
    → (xs : List WorkflowExecution) → NoResults xs
    → NoResults (update p f xs)
NoResults-update p f e [] h = tt
NoResults-update p f e (x ∷ xs) h = (ground (arith, e x), NoResults-update p f e xs h.1)

change-result :
    (p : WorkflowExecution → Bool) (f : WorkflowExecution → WorkflowExecution)
    → {d : Db} → ExecutionChange d p f
    → (x : WorkflowExecution) → (f x).result ≡ x.result
change-result _ _ (to_state i s now c) x = ground arith
change-result _ _ (cursor i n now) x = refl
change-result _ _ (step_done i now) x = refl
change-result _ _ (undo_done i now) x = refl
change-result _ _ (undo_total i n now) x = refl
change-result _ _ (error_text i s now) x = refl
change-result _ _ (expire now) x = refl

abbrev no_results : Frame
no_results = record {
  Rel = λ d d'. NoResults d.executions → NoResults d'.executions;
  rel_refl = λ d h. h;
  rel_trans = λ a b c p q h. q (p h);
  on_sequence = λ d n k h. h;
  on_checkpoints = λ d cs n h. h;
  on_namespace = λ d x k h. h;
  on_definition = λ d x k h. h;
  on_deactivate = λ d p h. h;
  on_step = λ d x k h. h;
  on_execution = λ d x k h. NoResults-append d.executions (execution_row x) refl h;
  on_change = λ d p f c h. NoResults-update p f (change-result p f c) d.executions h;
  on_task = λ d x k h. h;
  on_task_update = λ d p f k h. h;
  on_task_delete = λ d p h. h;
  on_compensation = λ d x k h. h;
  on_compensation_update = λ d p f k h. h;
  on_compensation_delete = λ d p h. h;
  on_event = λ d row k h. h;
}

-- The result of a workflow is never stored: from tables in which no execution has a result, no run
-- of the server, completions included, reaches tables in which one has. SaveResult is called, but
-- only once the row is COMPLETED, and its UPDATE spares terminal rows.
pub run-no_result :
    (w : World) (es : List Event) → NoResults w.db.executions → NoResults (run w es).db.executions
run-no_result w es h = run-Rel no_results w es h
