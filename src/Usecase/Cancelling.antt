-- ===== src/Usecase/Cancelling.antt =====
-- usecase/execution.go: CancelWorkflow of an execution that is over, or was never there.
use antflow_server.Base.{true, false, ◌≡◌, refl, [], String, exists}
use antflow_server.Domain.{Err, is_conflict, is_not_found, is_invalid_state_transition, err}
use antflow_server.Store.World.{World, run_in_tx, ◌>>=◌, wrapping, gets, stmt, throw}
use antflow_server.Store.Executions.{open_row, update_rows, set_state}
use antflow_server.Store.Executions
use antflow_server.Usecase.Execution.{cancel_workflow, cancel_body}

-- CancelWorkflow of an execution that has ended, or that there is not, fails with a wrapped
-- ErrConflict and leaves the executions as they were: never with the ErrNotFound or ErrInvalidStateTransition that
-- its handler turns into a status, if no statement fails otherwise.
pub cancel_workflow_closed :
    (id : String) (w : World)
    → exists (open_row id) w.db.executions ≡ false
    → w.faults ≡ []
    → let r = cancel_workflow id w in
      (e : Err) × (r.0 ≡ err e)
      × (is_conflict e ≡ true)
      × (is_not_found e ≡ false)
      × (is_invalid_state_transition e ≡ false)
      × (r.1.db.executions ≡ w.db.executions)
unfolding cancel_workflow run_in_tx cancel_body ◌>>=◌ wrapping Executions.update_state gets stmt
    throw is_conflict is_not_found is_invalid_state_transition
cancel_workflow_closed id w h f = rw f (rw h (_, refl, refl, refl, refl, refl))
