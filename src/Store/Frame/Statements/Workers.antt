-- ===== src/Store/Frame/Statements/Workers.antt =====
-- The statements on the tables that workers report to keep a frame, and the rules for all statements.
use antflow_server.Base.{ℕ, Bool, ◌≡◌, refl, Option, none, some, String}
use antflow_server.Domain.{Task, CompensationTask, Bytes, EventType}
use antflow_server.Store.World.{stmt}
use antflow_server.Store.Frame.{Frame}
use antflow_server.Store.Frame.Rules.{
  Keeps, Follows, bind-Follows, Keeps-stmt_at, IsSafe, Keeps-bind, Keeps-stmt, Keeps-base_stmt,
  Keeps-gets, Keeps-or_throw, keeps_rules,
}
use antflow_server.Store.Tasks
use antflow_server.Store.CompensationTasks
use antflow_server.Store.History
use antflow_server.Store.Checkpoints
use antflow_server.Store.Frame.Statements.{
  definition-create, definition-deactivate, definition-get_by_id, definition-get_by_name,
  execution-cancel, execution-create, execution-cursor, execution-expire, execution-fail,
  execution-get, execution-get_active, execution-save_error, execution-step_done,
  execution-undo_done, execution-undo_total, insert-IsSafe, namespace-create, namespace-get_by_name,
  step-create, step-get, step-get_all, step-get_compensation,
}

module _ (F : Frame) where
  pub task-create : (x : Task) → Keeps F (Tasks.create x)
  unfolding Tasks.create
  task-create x = Keeps-stmt F _ λ d. insert-IsSafe F _ d _ (F.on_task d x)

  pub task-get : (id : String) → Keeps F (Tasks.get_by_id id)
  unfolding Tasks.get_by_id
  task-get id = search keeps_rules

  task-lock : (o : Option Task) → Keeps F (Tasks.lock o)
  unfolding Tasks.lock
  task-lock none = search keeps_rules
  task-lock (some t) = Keeps-bind F _ _ (Keeps-gets F _) λ now.
      Keeps-bind F _ _
        (Keeps-stmt F _ λ d.
          F.on_task_update d _ _
            (record { same_id = λ r. refl; same_execution = λ r. refl; same_index = λ r. refl }))
        λ u. search keeps_rules

  pub task-poll : (queue : String) → Keeps F (Tasks.find_and_lock_pending queue)
  unfolding Tasks.find_and_lock_pending
  task-poll queue = search (keeps_rules, task-lock)

  task-update :
      (p : Task → Bool) (f : Task → Task)
      → ((r : Task) → (f r).id ≡ r.id)
      → ((r : Task) → (f r).workflow_execution_id ≡ r.workflow_execution_id)
      → ((r : Task) → (f r).step_index ≡ r.step_index)
      → Keeps F (stmt (Tasks.update_rows p f))
  task-update p f a b c =
      Keeps-stmt F _
        λ d. F.on_task_update d p f (record { same_id = a; same_execution = b; same_index = c })

  pub task-update_completed :
      (id : String) (output : Bytes) (e : String) → Keeps F (Tasks.update_completed id output e)
  unfolding Tasks.update_completed
  task-update_completed id output e =
      Keeps-bind F _ _ (Keeps-gets F _) λ now. task-update _ _ (λ r. refl) (λ r. refl) (λ r. refl)

  pub task-delete : (id : String) → Keeps F (Tasks.delete_by_id id)
  unfolding Tasks.delete_by_id
  task-delete id = Keeps-stmt F _ λ d. F.on_task_delete d _

  pub task-cancel : (id : String) → Keeps F (Tasks.cancel_by_execution id)
  unfolding Tasks.cancel_by_execution
  task-cancel id = task-update _ _ (λ r. refl) (λ r. refl) (λ r. refl)

  pub task-has_active : (id : String) → Keeps F (Tasks.has_active_tasks id)
  unfolding Tasks.has_active_tasks
  task-has_active id = search keeps_rules

  pub task-renew : (id : String) → Keeps F (Tasks.renew_lock id)
  unfolding Tasks.renew_lock
  task-renew id = Keeps-bind F _ _ (Keeps-gets F _) λ now.
      Keeps-bind F _ _ (task-update _ _ (λ r. refl) (λ r. refl) (λ r. refl))
        λ hit. search keeps_rules

  pub compensation-create : (x : CompensationTask) → Keeps F (CompensationTasks.create x)
  unfolding CompensationTasks.create
  compensation-create x = Keeps-stmt F _ λ d. insert-IsSafe F _ d _ (F.on_compensation d x)

  pub compensation-get : (id : String) → Keeps F (CompensationTasks.get_by_id id)
  unfolding CompensationTasks.get_by_id
  compensation-get id = search keeps_rules

  compensation-update :
      (p : CompensationTask → Bool) (f : CompensationTask → CompensationTask)
      → ((r : CompensationTask) → (f r).id ≡ r.id)
      → ((r : CompensationTask) → (f r).workflow_execution_id ≡ r.workflow_execution_id)
      → ((r : CompensationTask) → (f r).step_index ≡ r.step_index)
      → Keeps F (stmt (CompensationTasks.update_rows p f))
  compensation-update p f a b c = Keeps-stmt F _ λ d.
      F.on_compensation_update d p f (record { same_id = a; same_execution = b; same_index = c })

  compensation-lock : (o : Option CompensationTask) → Keeps F (CompensationTasks.lock o)
  unfolding CompensationTasks.lock
  compensation-lock none = search keeps_rules
  compensation-lock (some t) = Keeps-bind F _ _ (Keeps-gets F _) λ now.
      Keeps-bind F _ _
        (Keeps-stmt F _ λ d.
          F.on_compensation_update d _ _
            (record { same_id = λ r. refl; same_execution = λ r. refl; same_index = λ r. refl }))
        λ u. search keeps_rules

  pub compensation-poll : (queue : String) → Keeps F (CompensationTasks.find_and_lock_pending queue)
  unfolding CompensationTasks.find_and_lock_pending
  compensation-poll queue = search (keeps_rules, compensation-lock)

  pub compensation-update_completed :
      (id : String) (output : Bytes) (e : String)
      → Keeps F (CompensationTasks.update_completed id output e)
  unfolding CompensationTasks.update_completed
  compensation-update_completed id output e =
      Keeps-bind F _ _ (Keeps-gets F _)
        λ now. compensation-update _ _ (λ r. refl) (λ r. refl) (λ r. refl)

  pub compensation-delete : (id : String) → Keeps F (CompensationTasks.delete_by_id id)
  unfolding CompensationTasks.delete_by_id
  compensation-delete id = Keeps-stmt F _ λ d. F.on_compensation_delete d _

  pub compensation-cancel : (id : String) → Keeps F (CompensationTasks.cancel_by_execution id)
  unfolding CompensationTasks.cancel_by_execution
  compensation-cancel id = compensation-update _ _ (λ r. refl) (λ r. refl) (λ r. refl)

  pub compensation-renew : (id : String) → Keeps F (CompensationTasks.renew_lock id)
  unfolding CompensationTasks.renew_lock
  compensation-renew id = Keeps-bind F _ _ (Keeps-gets F _) λ now.
      Keeps-bind F _ _ (compensation-update _ _ (λ r. refl) (λ r. refl) (λ r. refl))
        λ hit. search keeps_rules

  pub history-append :
      (id : String) (i : Option ℕ) (n : Option String) (e : EventType) (p : Bytes) (s : String)
      → Keeps F (History.append id i n e p s)
  unfolding History.append
  history-append id i n e p s = Keeps-bind F _ _ (Keeps-gets F _) λ now.
      Keeps-stmt F _
        λ d. insert-IsSafe F _ d _ λ h. F.on_event d (History.history_row id i n e p s now) refl

  pub history-outputs : (id : String) → Keeps F (History.get_step_outputs id)
  unfolding History.get_step_outputs
  history-outputs id = search keeps_rules

  pub history-after :
      (id : String) (after : Option ℕ) → Keeps F (History.get_by_execution_after id after)
  unfolding History.get_by_execution_after
  history-after id after = search keeps_rules

  pub checkpoint-save : (id : String) (i : ℕ) (b : Bytes) → Keeps F (Checkpoints.save id i b)
  unfolding Checkpoints.save
  checkpoint-save id i b =
      Keeps-bind F _ _ (Keeps-gets F _)
        λ now. Keeps-base_stmt F _ λ d. insert-IsSafe F _ d _ λ h. F.on_checkpoints d _ _

  pub checkpoint-get : (id : String) (i : ℕ) → Keeps F (Checkpoints.get_latest id i)
  unfolding Checkpoints.get_latest
  checkpoint-get id i = search keeps_rules

pub ruleset statement_rules = (
  keeps_rules, namespace-create, namespace-get_by_name, definition-create, definition-deactivate,
  definition-get_by_id, definition-get_by_name, step-create, step-get_all, step-get,
  step-get_compensation, execution-create, execution-get, execution-fail, execution-cancel,
  execution-cursor, execution-step_done, execution-undo_done, execution-undo_total,
  execution-save_error, execution-expire, execution-get_active, task-create, task-get, task-poll,
  task-update_completed, task-delete, task-cancel, task-has_active, task-renew, compensation-create,
  compensation-get, compensation-poll, compensation-update_completed, compensation-delete,
  compensation-cancel, compensation-renew, history-append, history-outputs, history-after,
  checkpoint-save, checkpoint-get,
)
