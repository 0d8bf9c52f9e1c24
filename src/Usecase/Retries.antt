-- ===== src/Usecase/Retries.antt =====
-- usecase/task.go and the poll together: how often a task is handed out before it has failed for good.
use antflow_server.Base.{ℕ, zero, suc, ◌+◌, false, ◌≡◌, Option, none, some, [], ◌∷◌, String, find}
use antflow_server.Domain.{WorkflowExecution, Task, is_null, is_saga, running, Result}
use antflow_server.Store.World.{Db, World, view, new_uuid}
use antflow_server.Store.Calm.{inside}
use antflow_server.Store.Executions.{has_id}
use antflow_server.Store.Executions
use antflow_server.Store.Tasks.{lock_row, same_step}
use antflow_server.Store.Tasks
use antflow_server.Signals
use antflow_server.Usecase.Completion.{retry_of, task_failed}

abbrev one_and : Option Task → (Task → ℕ) → ℕ
one_and none rest = 1
one_and (some u) rest = suc (rest u)

-- How often a worker is handed a task or a retry of it if every run fails, with no other task in the
-- table and no statement that fails: each poll locks the row, `task_failed` follows, and the retry
-- is polled when it is due, if there is one.
unfoldable pub handouts : ℕ → WorkflowExecution → String → Db → World → Task → ℕ
unfolding task_failed
handouts zero exec error d w t = 0
handouts (suc fuel) exec error d w t =
    let run = lock_row w.now (w.now + t.timeout_seconds) t in
    let v = (task_failed exec run error (inside (record d { tasks = run ∷ [] }) w)).1 in
    one_and (find (same_step exec.id t.step_index) (view v).tasks)
      (λ u. handouts fuel exec error (view v) (record v { now = u.scheduled_at }) u)

-- The execution runs and is no saga; the task is one of its own, and was given an input.
record Runs (x : WorkflowExecution) (t : Task) (d : Db) : Type 0 where
  row : find (has_id x.id) d.executions ≡ some x
  is_running : x.state ≡ running
  alone : is_saga x.workflow_type ≡ false
  given : is_null t.input ≡ false

abbrev again : WorkflowExecution → Task → World → Task
again x run w = Tasks.task_row (retry_of (w.env.new_uuid w.uuids) run x.id w.now)

abbrev counted : ℕ → WorkflowExecution → String → Task → Result String × World → ℕ
counted fuel x error t r =
    one_and (find (same_step x.id t.step_index) (view r.1).tasks)
      (λ u. handouts fuel x error (view r.1) (record r.1 { now = u.scheduled_at }) u)
