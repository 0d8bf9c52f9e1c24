-- ===== src/Usecase/Progress.antt =====
-- usecase/task.go: what CompleteTask does to a CHAIN, or to a saga whose steps succeed, on a database
-- that answers.
use antflow_server.Base.{
  ℕ, ◌+◌, Bool, true, false, not, ◌≡◌, refl, sym, ◌∙◌, ap, subst, none, some, List, [], ◌∷◌, ◌++◌,
  String, str_eq, str_eq_refl, exists, find, find-exists, find-exists_other, find-updated,
  find-update, select, update, delete, ltb, arith, if◌then◌else◌,
}
use mathlib.Core.Option
use antflow_server.Domain.{
  WorkflowExecution, Task, WorkflowDefinitionStep, HistoryEvent, Bytes, is_null, State, running,
  completed, is_independent, is_terminal, ok, validate_transition, step_completed,
  workflow_completed, step_scheduled,
}
use antflow_server.Store.World.{Db, World, pure, lift, gets, drain, new_uuid}
use antflow_server.Store.Calm.{
  inside, outside, bind-calm, else-calm, wrapping-calm, ignore-calm, stmt-calm,
}
use antflow_server.Store.Calm.Statements.{
  logged, append-calm, update_state-calm, save_result-calm, delete-calm, checkpoint-calm,
  get_execution-calm, get_task-calm, get_step-calm,
}
use antflow_server.Store.Executions.{has_id, open_row, set_state, is_open}
use antflow_server.Store.Executions
use antflow_server.Store.Tasks
use antflow_server.Store.Steps
use antflow_server.Store.Checkpoints
use antflow_server.Signals
use antflow_server.Usecase.Execution.{task_of_step}
use antflow_server.Usecase.Completion.{
  complete_task_body, task_succeeded, chain_step_done, chain_complete, chain_next, mark_completed,
}

-- The tasks of an execution.
abbrev pub of_execution : String → Task → Bool
of_execution id t = str_eq t.workflow_execution_id id

-- The execution is running and in order, and `t` is its one task.
pub record Stands (x : WorkflowExecution) (t : Task) (d : Db) : Type 0 where
  pub row : find (has_id x.id) d.executions ≡ some x
  pub is_running : x.state ≡ running
  pub in_order : is_independent x.workflow_type ≡ false
  pub owner : t.workflow_execution_id ≡ x.id
  pub task : find (Tasks.has_id t.id) d.tasks ≡ some t
  pub alone : select (of_execution x.id) d.tasks ≡ t ∷ []

-- The tables after a report, and after its event.
abbrev pub reported : Task → Bytes → ℕ → Db → Db
reported t b now d = record d {
  tasks = update (Tasks.has_id t.id) (Tasks.complete_row b "" now) d.tasks;
}

abbrev pub stepped : WorkflowExecution → Task → Bytes → ℕ → Db → Db
stepped x t b now d =
    logged x.id (some t.step_index) (some t.step_name) step_completed b "" now (reported t b now d)

report-calm :
    (t : Task) (b : Bytes) (d : Db) (w : World)
    → Tasks.update_completed t.id b "" (inside d w)
      ≡ (ok (exists (Tasks.has_id t.id) d.tasks), inside (reported t b w.now d) w)
unfolding Tasks.update_completed gets
report-calm t b d w = bind-calm _ _ _ refl (stmt-calm _ d w refl)

module _ (x : WorkflowExecution) (t : Task) (b : Bytes) (d : Db) (w : World) where
  -- Up to the choice between the last step and the next one.
  pub body-calm :
      {q : String} {v : World}
      → Stands x t d
      → is_null b ≡ false
      → (if ltb x.total_steps (t.step_index + 1)
            then chain_complete x (Tasks.complete_row b "" w.now t) b
            else chain_next x (Tasks.complete_row b "" w.now t) b)
          (inside
            (stepped x t b w.now d)
            (record (outside d w) { db = Checkpoints.save_row x.id t.step_index b w.now d }))
        ≡ (ok q, v)
      → complete_task_body t.id b "" (inside d (outside d w)) ≡ (ok q, v)
  unfolding complete_task_body task_succeeded chain_step_done
  body-calm s n h =
      let v = outside d w in
      let u = record v { db = Checkpoints.save_row x.id t.step_index b w.now d } in
      let d1 = reported t b w.now d in
      let there = find-exists (has_id x.id) d.executions s.row in
      bind-calm _ _ _ (wrapping-calm _ _ _ (report-calm t b d v)) (
        bind-calm _ _ _
          (wrapping-calm _ _ _ (
            get_task-calm t.id d1 v (
              find-update (Tasks.has_id t.id) (Tasks.complete_row b "" w.now) d.tasks (λ z. refl)
              ∙ ap (Option.map (Tasks.complete_row b "" w.now)) s.task)))
          (bind-calm _ _ _
            (wrapping-calm _ _ _ (
              get_execution-calm t.workflow_execution_id d1 v
                (subst (λ i. find (has_id i) d.executions ≡ some x) (sym s.owner) s.row)))
            (else-calm (is_terminal x.state) _ _ _ (rw s.is_running refl) (
              else-calm (not (str_eq "" "")) _ _ _ (rw (str_eq_refl "") refl) (
                else-calm (is_independent x.workflow_type) _ _ _ s.in_order (
                  bind-calm _ _ _
                    (wrapping-calm _ _ _ (checkpoint-calm x.id t.step_index b d1 v there n))
                    (bind-calm _ _ _
                      (ignore-calm _ _ (
                        append-calm x.id (some t.step_index) (some t.step_name) step_completed b ""
                          d1 u there))
                      h)))))))

-- ValidateTransition lets a running execution complete.
may_complete :
    (x : WorkflowExecution) (w : World)
    → x.state ≡ running
    → lift (validate_transition x.state completed) w ≡ (ok tt, w)
unfolding lift
may_complete x w r = rw r refl

same_id :
    (s : State) (now : ℕ) (id : String) (z : WorkflowExecution)
    → has_id id (set_state s now z) ≡ has_id id z
same_id s now id z = ground arith

-- The last step: the execution is COMPLETED.
pub chain_complete-calm :
    (x : WorkflowExecution) (t : Task) (b : Bytes) (d : Db) (w : World)
    → find (has_id x.id) d.executions ≡ some x
    → x.state ≡ running
    → (e : Db) × (v : World) × (chain_complete x t b (inside d w) ≡ (ok "", inside e v))
      × (find (has_id x.id) e.executions ≡ some (set_state completed w.now x))
unfolding chain_complete mark_completed pure drain
chain_complete-calm x t b d w row r =
    let done = set_state completed w.now in
    let d1 = record d { executions = update (open_row x.id) done d.executions } in
    let save : WorkflowExecution → WorkflowExecution =
      λ r. record r { result = b; updated_at = w.now } in
    let d2 = record d1 { executions = update (open_row x.id) save d1.executions } in
    let mine : open_row x.id x ≡ true = rw (str_eq_refl x.id) (rw r refl) in
    let opened : exists (open_row x.id) d.executions ≡ true =
      find-exists_other (has_id x.id) (open_row x.id) d.executions row mine in
    let row1 : find (has_id x.id) d1.executions ≡ some (done x) =
      find-updated (has_id x.id) (open_row x.id) done d.executions (same_id completed w.now x.id)
        row
      ∙ (rw mine refl) in
    let row2 : find (has_id x.id) d2.executions ≡ some (done x) =
      find-updated (has_id x.id) (open_row x.id) save d1.executions (λ z. refl) row1
      ∙ (rw (str_eq_refl x.id) refl) in
    (
      _,
      record w { signals = Signals.drain x.id w.signals },
      bind-calm _ _ _
          (bind-calm _ _ _ (wrapping-calm _ _ _ (may_complete x (inside d w) r)) (
            bind-calm _ _ _ (wrapping-calm _ _ _ (update_state-calm x.id completed d w opened)) (
              bind-calm _ _ _ (wrapping-calm _ _ _ (save_result-calm x.id b d1 w)) (
                ignore-calm _ _ (
                  append-calm x.id none none workflow_completed b "" d2 w
                    (find-exists (has_id x.id) d2.executions row2))))))
          (bind-calm _ _ _ (ignore-calm _ _ (delete-calm t.id _ w)) (bind-calm _ _ _ refl refl)),
      row2,
    )

-- The next step: its task takes the place of the one that is done.
abbrev pub cursor_at : WorkflowExecution → ℕ → ℕ → WorkflowExecution
cursor_at x n now = record x { current_step = n; updated_at = now }

abbrev pub next_task : WorkflowExecution → Task → Bytes → WorkflowDefinitionStep → World → Task
next_task x t b step w =
    record (task_of_step (w.env.new_uuid w.uuids) x.id step b x.task_queue w.now) {
      step_index = t.step_index + 1;
    }

abbrev pub moved_on : WorkflowExecution → Task → Task → ℕ → Db → Db
moved_on x t n now d = record d {
  executions =
      update (open_row x.id) (λ r. record r { current_step = n.step_index; updated_at = now })
        d.executions;
  tasks = delete (Tasks.has_id t.id) (d.tasks ++ Tasks.task_row n ∷ []);
}

pub chain_next-calm :
    (x : WorkflowExecution) (t : Task) (b : Bytes) (step : WorkflowDefinitionStep) (d : Db)
    (w : World)
    → find (has_id x.id) d.executions ≡ some x
    → find (Steps.of_index x.workflow_definition_id (t.step_index + 1)) d.steps ≡ some step
    → Tasks.task_fits (next_task x t b step w) d ≡ true
    → let n = next_task x t b step w in
      (h : List HistoryEvent) × (i : ℕ) × (chain_next x t b (inside d w) ≡ (
        ok n.task_queue,
        inside
            (record (moved_on x t n w.now d) { history = h; event_seq = i })
            (record w { uuids = w.uuids + 1 }),
      ))
unfolding chain_next pure gets new_uuid Tasks.create Executions.update_step_cursor
chain_next-calm x t b step d w row s fits =
    let n = next_task x t b step w in
    let v = record w { uuids = w.uuids + 1 } in
    let d1 = record d { tasks = d.tasks ++ Tasks.task_row n ∷ [] } in
    let f : WorkflowExecution → WorkflowExecution =
      λ r. record r { current_step = t.step_index + 1; updated_at = w.now } in
    let d2 = record d1 { executions = update (open_row x.id) f d1.executions } in
    let there : exists (has_id x.id) d2.executions ≡ true =
      find-exists (has_id x.id) d2.executions
        (find-updated (has_id x.id) (open_row x.id) f d.executions (λ z. refl) row) in
    (
      _,
      _,
      bind-calm _ _ _ (wrapping-calm _ _ _ (get_step-calm _ _ d w s)) (
          bind-calm _ _ _ refl (
            bind-calm _ _ _ refl (
              bind-calm _ _ _ (wrapping-calm _ _ _ (stmt-calm _ d v {e = d1} (rw fits refl))) (
                bind-calm _ _ _
                  (wrapping-calm _ _ _ (bind-calm _ _ _ refl (stmt-calm _ d1 v {e = d2} refl)))
                  (bind-calm _ _ _
                    (ignore-calm _ _ (append-calm x.id _ _ step_scheduled [] "" d2 v there))
                    (bind-calm _ _ _ (ignore-calm _ _ (delete-calm t.id _ v)) refl)))))),
    )
