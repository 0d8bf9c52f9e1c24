-- ===== src/Usecase/Undoing/Reports.antt =====
-- usecase/saga.go: a report of success in a rollback, up to the choice of what follows.
pub mod Following
use antflow_server.Base.{
  ℕ, ◌+◌, ◌<◌, Bool, true, false, not, ◌≡◌, refl, sym, ◌∙◌, ap, subst, ◌⊎◌, none, some, List, [],
  ◌∷◌, ◌++◌, String, str_eq, str_eq_refl, exists, exists-update_same, exists-delete, exists-select,
  find, find-exists, find-exists_other, find-updated, find-update, find-new, select, select-append,
  select-update, select-delete, update, delete, leb, Bool-cases, Option-cases, inl, inr, arith,
  if◌then◌else◌,
}
use mathlib.Core.Option
use antflow_server.Domain.{
  WorkflowExecution, CompensationTask, WorkflowDefinitionStep, HistoryEvent, TaskOutput, Bytes,
  compensating, failed, is_terminal, ok, compensation_completed, saga_rolled_back, workflow_failed,
  step_scheduled,
}
use antflow_server.Store.World.{Db, World, pure, gets, new_uuid, drain, commit_db}
use antflow_server.Store.Calm.{
  inside, outside, bind-calm, wrapping-calm, ignore-calm, then-calm, else-calm, stmt-calm,
  run_in_tx-calm,
}
use antflow_server.Store.Calm.Statements.{
  logged, append-calm, update_state-calm, get_execution-calm, get_compensation-calm,
  delete_compensation-calm, undo_done-calm, compensation_steps-calm, outputs-calm,
}
use antflow_server.Store.Executions.{has_id, open_row, set_state}
use antflow_server.Store.CompensationTasks
use antflow_server.Store.Steps.{int_pred}
use antflow_server.Store.Steps
use antflow_server.Store.History
use antflow_server.Signals
use antflow_server.Usecase.Advancing.{notified}
use antflow_server.Usecase.Saga.{
  complete_compensation_task, complete_compensation_body, compensation_task_succeeded,
  next_compensation, schedule_next, rolled_back, schedule_compensation, compensation_of,
  output_by_step, has_output,
}
use antflow_server.Usecase.Undoing.{
  Undoes, next_undo, of_execution, rolled_back-calm, schedule_compensation-calm,
}

report-calm :
    (t : CompensationTask) (b : Bytes) (d : Db) (w : World)
    → CompensationTasks.update_completed t.id b "" (inside d w) ≡ (
      ok (exists (CompensationTasks.has_id t.id) d.compensation_tasks),
      inside
          (record d {
            compensation_tasks =
                update
                  (CompensationTasks.has_id t.id)
                  (CompensationTasks.complete_row b "" w.now)
                  d.compensation_tasks;
          })
          w,
    )
unfolding CompensationTasks.update_completed gets
report-calm t b d w = bind-calm _ _ _ refl (stmt-calm _ d w refl)

-- The execution with one more compensation done.
abbrev pub counted : WorkflowExecution → ℕ → WorkflowExecution
counted x now = record x { compensation_done = x.compensation_done + 1; updated_at = now }

module _ (x : WorkflowExecution) (t : CompensationTask) (b : Bytes) (d : Db) (w : World) where
  abbrev pub done : CompensationTask
  done = CompensationTasks.complete_row b "" w.now t

  -- The compensation tasks without the one that is done.
  abbrev pub others : List CompensationTask
  others = delete (CompensationTasks.has_id t.id) (
      update (CompensationTasks.has_id t.id) (CompensationTasks.complete_row b "" w.now)
        d.compensation_tasks)

  -- The tables once the report is counted.
  abbrev pub undone : Db
  undone =
      record (logged x.id (some t.step_index) (some t.step_name) compensation_completed b "" w.now
        d) {
          executions =
              update (has_id x.id)
                (λ r. record r { compensation_done = r.compensation_done + 1; updated_at = w.now })
                d.executions;
          compensation_tasks = others;
        }

  pub counted_row :
      find (has_id x.id) d.executions ≡ some x
      → find (has_id x.id) undone.executions ≡ some (counted x w.now)
  counted_row h =
      find-updated (has_id x.id) (has_id x.id)
        (λ r. record r { compensation_done = r.compensation_done + 1; updated_at = w.now })
        d.executions (λ z. refl) h
      ∙ (rw (str_eq_refl x.id) refl)

  -- Up to the choice between the end of the rollback and its next step.
  pub body-calm :
      {q : String × Bool} {v : World}
      → Undoes x t d
      → (if leb x.compensation_total (x.compensation_done + 1)
            then schedule_next x [] none
            else next_compensation (counted x w.now) done)
          (inside undone (outside d w))
        ≡ (ok q, v)
      → complete_compensation_body t.id b "" (inside d (outside d w)) ≡ (ok q, v)
  unfolding complete_compensation_body compensation_task_succeeded
  body-calm s h =
      let v = outside d w in
      let it = CompensationTasks.has_id t.id in
      let g = CompensationTasks.complete_row b "" w.now in
      let d1 = record d { compensation_tasks = update it g d.compensation_tasks } in
      let d2 =
        logged x.id (some t.step_index) (some t.step_name) compensation_completed b "" w.now d1 in
      let d3 = record d2 { executions = undone.executions } in
      bind-calm _ _ _ (wrapping-calm _ _ _ (report-calm t b d v)) (
        bind-calm _ _ _
          (wrapping-calm _ _ _ (
            get_compensation-calm t.id d1 v
              (find-update it g d.compensation_tasks (λ z. refl) ∙ ap (Option.map g) s.task)))
          (bind-calm _ _ _
            (wrapping-calm _ _ _ (
              get_execution-calm t.workflow_execution_id d1 v
                (subst (λ i. find (has_id i) d.executions ≡ some x) (sym s.owner) s.row)))
            (else-calm (is_terminal x.state) _ _ _ (rw s.is_undoing refl) (
              else-calm (not (str_eq "" "")) _ _ _ (rw (str_eq_refl "") refl) (
                bind-calm _ _ _
                  (wrapping-calm _ _ _ (
                    append-calm x.id (some t.step_index) (some t.step_name) compensation_completed b
                      "" d1 v (find-exists (has_id x.id) d.executions s.row)))
                  (bind-calm _ _ _ (wrapping-calm _ _ _ (undo_done-calm x.id d2 v s.row)) (
                    bind-calm _ _ _ (ignore-calm _ _ (delete_compensation-calm t.id d3 v)) (
                      bind-calm _ _ _
                        (wrapping-calm _ _ _ (get_execution-calm x.id undone v (counted_row s.row)))
                        h))))))))
