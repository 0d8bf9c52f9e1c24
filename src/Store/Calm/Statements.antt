-- ===== src/Store/Calm/Statements.antt =====
-- What the statements of the repositories do on a database that answers.
use antflow_server.Base.{
  ℕ, ◌+◌, true, false, ◌≡◌, refl, Option, some, [], ◌∷◌, ◌++◌, String, exists, find, update, delete,
}
use antflow_server.Domain.{
  WorkflowExecution, Task, WorkflowDefinitionStep, CompensationTask, Bytes, EventType, State,
  is_null, ok,
}
use antflow_server.Store.World.{Db, World, gets, pure, base_query, base_stmt}
use antflow_server.Store.Calm.{
  inside, bind-calm, or_throw-calm, stmt-calm, query-calm, base_stmt-calm,
}
use antflow_server.Store.Executions.{has_id, open_row, set_state}
use antflow_server.Store.Executions
use antflow_server.Store.Tasks
use antflow_server.Store.CompensationTasks
use antflow_server.Store.Steps
use antflow_server.Store.History
use antflow_server.Store.Checkpoints

-- The tables after an event.
abbrev pub logged : String → Option ℕ → Option String → EventType → Bytes → String → ℕ → Db → Db
logged id i n e p s now d = record d {
  history = d.history ++ History.history_row id i n e p s now d.event_seq ∷ [];
  event_seq = d.event_seq + 1;
}

pub append-calm :
    (id : String) (i : Option ℕ) (n : Option String) (e : EventType) (p : Bytes) (s : String)
    (d : Db) (w : World)
    → exists (has_id id) d.executions ≡ true
    → History.append id i n e p s (inside d w) ≡ (ok tt, inside (logged id i n e p s w.now d) w)
unfolding History.append gets
append-calm id i n e p s d w h = bind-calm _ _ _ refl (stmt-calm _ d w (rw h refl))

pub update_state-calm :
    (id : String) (s : State) (d : Db) (w : World)
    → exists (open_row id) d.executions ≡ true
    → Executions.update_state id s (inside d w) ≡ (
      ok tt,
      inside (record d { executions = update (open_row id) (set_state s w.now) d.executions }) w,
    )
unfolding Executions.update_state gets pure
update_state-calm id s d w h =
    bind-calm _ _ _ refl (bind-calm _ _ _ (stmt-calm _ d w refl) (rw h refl))

pub save_result-calm :
    (id : String) (b : Bytes) (d : Db) (w : World)
    → Executions.save_result id b (inside d w) ≡ (
      ok (exists (open_row id) d.executions),
      inside
          (record d {
            executions =
                update
                  (open_row id)
                  (λ r. record r { result = b; updated_at = w.now })
                  d.executions;
          })
          w,
    )
unfolding Executions.save_result gets
save_result-calm id b d w = bind-calm _ _ _ refl (stmt-calm _ d w refl)

pub delete-calm :
    (id : String) (d : Db) (w : World)
    → Tasks.delete_by_id id (inside d w)
      ≡ (ok tt, inside (record d { tasks = delete (Tasks.has_id id) d.tasks }) w)
unfolding Tasks.delete_by_id
delete-calm id d w = stmt-calm _ d w refl

pub checkpoint-calm :
    (id : String) (i : ℕ) (b : Bytes) (d : Db) (w : World)
    → exists (has_id id) w.db.executions ≡ true
    → is_null b ≡ false
    → Checkpoints.save id i b (inside d w)
      ≡ (ok tt, inside d (record w { db = Checkpoints.save_row id i b w.now w.db }))
unfolding Checkpoints.save Checkpoints.has_execution gets
checkpoint-calm id i b d w h n = bind-calm _ _ _ refl (base_stmt-calm _ d w (rw (h, n) refl))

pub get_execution-calm :
    (id : String) (d : Db) (w : World) {x : WorkflowExecution}
    → find (has_id id) d.executions ≡ some x
    → Executions.get_by_id id (inside d w) ≡ (ok x, inside d w)
unfolding Executions.get_by_id
get_execution-calm id d w h = bind-calm _ _ _ (query-calm _ d w) (or_throw-calm _ _ _ h)

pub get_task-calm :
    (id : String) (d : Db) (w : World) {t : Task}
    → find (Tasks.has_id id) d.tasks ≡ some t
    → Tasks.get_by_id id (inside d w) ≡ (ok t, inside d w)
unfolding Tasks.get_by_id
get_task-calm id d w h = bind-calm _ _ _ (query-calm _ d w) (or_throw-calm _ _ _ h)

pub get_step-calm :
    (def : String) (i : ℕ) (d : Db) (w : World) {s : WorkflowDefinitionStep}
    → find (Steps.of_index def i) d.steps ≡ some s
    → Steps.get_by_definition_and_index def i (inside d w) ≡ (ok s, inside d w)
unfolding Steps.get_by_definition_and_index
get_step-calm def i d w h = bind-calm _ _ _ (query-calm _ d w) (or_throw-calm _ _ _ h)

-- What the SELECTs on the pool read is what is committed.
pub compensation_steps-calm :
    (def : String) (up_to : Option ℕ) (d : Db) (w : World)
    → Steps.get_compensation_steps def up_to (inside d w)
      ≡ (ok (Steps.compensation_steps def up_to w.db.steps), inside d w)
unfolding Steps.get_compensation_steps base_query base_stmt
compensation_steps-calm def up_to d w = refl

pub outputs-calm :
    (id : String) (d : Db) (w : World)
    → History.get_step_outputs id (inside d w)
      ≡ (ok (History.step_outputs id d.history), inside d w)
unfolding History.get_step_outputs
outputs-calm id d w = query-calm _ d w

pub get_compensation-calm :
    (id : String) (d : Db) (w : World) {t : CompensationTask}
    → find (CompensationTasks.has_id id) d.compensation_tasks ≡ some t
    → CompensationTasks.get_by_id id (inside d w) ≡ (ok t, inside d w)
unfolding CompensationTasks.get_by_id
get_compensation-calm id d w h = bind-calm _ _ _ (query-calm _ d w) (or_throw-calm _ _ _ h)

pub delete_compensation-calm :
    (id : String) (d : Db) (w : World)
    → CompensationTasks.delete_by_id id (inside d w) ≡ (
      ok tt,
      inside
          (record d {
            compensation_tasks = delete (CompensationTasks.has_id id) d.compensation_tasks;
          })
          w,
    )
unfolding CompensationTasks.delete_by_id
delete_compensation-calm id d w = stmt-calm _ d w refl

pub undo_done-calm :
    (id : String) (d : Db) (w : World) {x : WorkflowExecution}
    → find (has_id id) d.executions ≡ some x
    → Executions.increment_compensation_done id (inside d w) ≡ (
      ok (x.compensation_done + 1),
      inside
          (record d {
            executions =
                update
                  (has_id id)
                  (λ r. record r {
                    compensation_done = r.compensation_done + 1;
                    updated_at = w.now;
                  })
                  d.executions;
          })
          w,
    )
unfolding Executions.increment_compensation_done gets
undo_done-calm id d w h =
    bind-calm _ _ _ refl (bind-calm _ _ _ (stmt-calm _ d w (rw h refl)) (or_throw-calm _ _ _ refl))
