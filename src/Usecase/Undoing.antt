-- ===== src/Usecase/Undoing.antt =====
-- usecase/saga.go: what CompleteCompensationTask does in a rollback whose handlers succeed, on a
-- database that answers.
pub mod Reports
use antflow_server.Base.{
  ℕ, ◌+◌, ◌<◌, Bool, true, false, not, ◌≡◌, refl, sym, ◌∙◌, ap, subst, ◌⊎◌, none, some, List, [],
  ◌∷◌, ◌++◌, String, str_eq, str_eq_refl, exists, exists-update_same, exists-delete, exists-select,
  find, find-exists, find-exists_other, find-updated, find-update, find-new, select, select-append,
  select-update, select-delete, update, delete, leb, Bool-cases, Option-cases, inl, inr, arith,
  if◌then◌else◌,
}
use mathlib.Core.Option
use antflow_server.Domain.{
  WorkflowExecution, CompensationTask, WorkflowDefinitionStep, HistoryEvent, TaskOutput, Bytes,
  compensating, failed, is_terminal, ok, compensation_completed, saga_rolled_back, workflow_failed,
  step_scheduled,
}
use antflow_server.Store.World.{Db, World, pure, gets, new_uuid, drain, commit_db}
use antflow_server.Store.Calm.{
  inside, outside, bind-calm, wrapping-calm, ignore-calm, then-calm, else-calm, stmt-calm,
  run_in_tx-calm,
}
use antflow_server.Store.Calm.Statements.{
  logged, append-calm, update_state-calm, get_execution-calm, get_compensation-calm,
  delete_compensation-calm, undo_done-calm, compensation_steps-calm, outputs-calm,
}
use antflow_server.Store.Executions.{has_id, open_row, set_state}
use antflow_server.Store.CompensationTasks
use antflow_server.Store.Steps.{int_pred}
use antflow_server.Store.Steps
use antflow_server.Store.History
use antflow_server.Signals
use antflow_server.Usecase.Advancing.{notified}
use antflow_server.Usecase.Saga.{
  complete_compensation_task, complete_compensation_body, compensation_task_succeeded,
  next_compensation, schedule_next, rolled_back, schedule_compensation, compensation_of,
  output_by_step, has_output,
}

-- The compensation tasks of an execution.
abbrev pub of_execution : String → CompensationTask → Bool
of_execution id t = str_eq t.workflow_execution_id id

-- The execution compensates, and `t` is its one compensation task.
pub record Undoes (x : WorkflowExecution) (t : CompensationTask) (d : Db) : Type 0 where
  pub row : find (has_id x.id) d.executions ≡ some x
  pub is_undoing : x.state ≡ compensating
  pub owner : t.workflow_execution_id ≡ x.id
  pub task : find (CompensationTasks.has_id t.id) d.compensation_tasks ≡ some t
  pub alone : select (of_execution x.id) d.compensation_tasks ≡ t ∷ []

-- The end of a rollback: the execution is FAILED.
pub rolled_back-calm :
    (x : WorkflowExecution) (text : String) (d : Db) (w : World)
    → find (has_id x.id) d.executions ≡ some x
    → x.state ≡ compensating
    → (e : Db) × (v : World) × (rolled_back x.id text (inside d w) ≡ (ok tt, inside e v))
      × (find (has_id x.id) e.executions ≡ some (set_state failed w.now x))
unfolding rolled_back drain
rolled_back-calm x text d w row u =
    let d1 = record d {
      executions = update (open_row x.id) (set_state failed w.now) d.executions;
    } in
    let mine : open_row x.id x ≡ true = rw (str_eq_refl x.id) (rw u refl) in
    let opened = find-exists_other (has_id x.id) (open_row x.id) d.executions row mine in
    let row1 : find (has_id x.id) d1.executions ≡ some (set_state failed w.now x) =
      find-updated (has_id x.id) (open_row x.id) (set_state failed w.now) d.executions (λ z. refl)
        row
      ∙ (rw mine refl) in
    let there = find-exists (has_id x.id) d1.executions row1 in
    (
      _,
      record w { signals = Signals.drain x.id w.signals },
      bind-calm _ _ _ (update_state-calm x.id failed d w opened) (
          bind-calm _ _ _
            (wrapping-calm _ _ _ (append-calm x.id none none saga_rolled_back [] "" d1 w there))
            (bind-calm _ _ _
              (wrapping-calm _ _ _ (append-calm x.id none none workflow_failed [] text _ w there))
              refl)),
      row1,
    )

-- The compensation task that is made for a step.
abbrev pub next_undo :
    WorkflowExecution → WorkflowDefinitionStep → List TaskOutput → World → CompensationTask
next_undo x step outputs w =
    compensation_of (w.env.new_uuid w.uuids) x step
      (Option.get_or (output_by_step outputs step.step_index) []) w.now

pub schedule_compensation-calm :
    (problem : String) (x : WorkflowExecution) (step : WorkflowDefinitionStep)
    (outputs : List TaskOutput) (d : Db) (w : World)
    → exists (has_id x.id) d.executions ≡ true
    → CompensationTasks.compensation_task_fits (next_undo x step outputs w) d ≡ true
    → let n = next_undo x step outputs w in
      (h : List HistoryEvent) × (i : ℕ) × (schedule_compensation problem x step outputs (inside d w)
        ≡ (
          ok n.task_queue,
          inside
              (record d {
                compensation_tasks =
                    d.compensation_tasks ++ CompensationTasks.compensation_task_row n ∷ [];
                history = h;
                event_seq = i;
              })
              (record w { uuids = w.uuids + 1 }),
        ))
unfolding schedule_compensation gets new_uuid pure CompensationTasks.create
schedule_compensation-calm problem x step outputs d w there fits =
    let n = next_undo x step outputs w in
    let v = record w { uuids = w.uuids + 1 } in
    let d1 = record d {
      compensation_tasks = d.compensation_tasks ++ CompensationTasks.compensation_task_row n ∷ [];
    } in
    (
      _,
      _,
      bind-calm _ _ _ refl (
          bind-calm _ _ _ refl (
            bind-calm _ _ _ (wrapping-calm _ _ _ (stmt-calm _ d v {e = d1} (rw fits refl))) (
              bind-calm _ _ _
                (wrapping-calm _ _ _ (
                  append-calm x.id (some n.step_index) (some n.step_name) step_scheduled [] "" d1 v
                    there))
                refl))),
    )
