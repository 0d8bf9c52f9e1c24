-- ===== src/Usecase/Advancing.antt =====
-- usecase/task.go: a report of success in a CHAIN, from the tables before to those after.
use antflow_server.Base.{
  ℕ, ◌+◌, ◌≤◌, true, false, ◌≡◌, refl, sym, ◌∙◌, ap, some, List, [], ◌∷◌, ◌++◌, String, str_eq,
  str_eq_iff, str_eq_comm, str_eq_refl, exists, exists-update_same, exists-delete, exists-snoc,
  find, find-exists, find-exists_other, find-updated, find-new, find-spared, exists-select,
  select-append, select-update, select-delete, update, delete, ltb, arith, Bool-cases, inl, inr,
}
use antflow_server.Domain.{
  WorkflowExecution, Task, WorkflowDefinitionStep, Bytes, is_null, completed, ok,
}
use antflow_server.Broker
use antflow_server.Store.World.{Db, World, commit_db, pure, notify}
use antflow_server.Store.Calm.{outside, bind-calm, then-calm, else-calm, run_in_tx-calm}
use antflow_server.Store.Executions.{has_id, open_row, set_state}
use antflow_server.Store.Tasks
use antflow_server.Store.Steps
use antflow_server.Store.Checkpoints
use antflow_server.Usecase.Saga.{notify_after}
use antflow_server.Usecase.Completion.{complete_task}
use antflow_server.Usecase.Progress.{
  Stands, of_execution, stepped, cursor_at, next_task, moved_on, body-calm, chain_complete-calm,
  chain_next-calm,
}

-- The uuids to come: none of them is the id of a task.
abbrev pub Fresh : World → List Task → Type 0
Fresh w ts = (n : ℕ) → w.uuids ≤ n → exists (Tasks.has_id (w.env.new_uuid n)) ts ≡ false

abbrev pub IsInjective : (ℕ → String) → Type 0
IsInjective f = (m n : ℕ) → f m ≡ f n → m ≡ n

pub notified :
    (queue : String) (d : Db) (w : World)
    → (v : World) × (notify_after queue (outside d w) ≡ (ok tt, outside d v))
      × (v.env ≡ w.env)
      × (v.uuids ≡ w.uuids)
unfolding notify_after notify pure
notified queue d w = elim (Bool-cases (str_eq queue "")) [
  | inl e ↦ rw e (w, refl, refl, refl)
  | inr e ↦ rw e (record w { broker = Broker.notify queue w.broker }, refl, refl, refl)
]

abbrev pub saved : WorkflowExecution → Task → Bytes → Db → World → World
saved x t b d w = record (outside d w) { db = Checkpoints.save_row x.id t.step_index b w.now d }

module _ (x : WorkflowExecution) (t : Task) (b : Bytes) (d : Db) (w : World) where
  abbrev pub done : Task
  done = Tasks.complete_row b "" w.now t

  -- The report of the last step.
  pub last_step-calm :
      Stands x t d
      → is_null b ≡ false
      → ltb x.total_steps (t.step_index + 1) ≡ true
      → (e : Db) × (v : World) × (complete_task t.id b "" (outside d w) ≡ (ok tt, outside e v))
        × (find (has_id x.id) e.executions ≡ some (set_state completed w.now x))
  unfolding complete_task Checkpoints.save_row
  last_step-calm s given last =
      let (e, v, h, f) =
        chain_complete-calm x done b (stepped x t b w.now d) (saved x t b d w) s.row s.is_running in
      let k = run_in_tx-calm _ d e w v (
        body-calm x t b d w s given
          (then-calm (ltb x.total_steps (t.step_index + 1)) _ _ _ last h)) in
      let (u, n, _, _) = notified "" (commit_db e v.db) v in
      (commit_db e v.db, u, bind-calm _ _ _ k n, f)

  abbrev pub next : WorkflowDefinitionStep → Task
  next step = Tasks.task_row (next_task x done b step (saved x t b d w))

  -- The tasks after a report that is followed by a next step.
  abbrev pub tasks_then : WorkflowDefinitionStep → List Task
  tasks_then step =
      delete (Tasks.has_id t.id)
        (update (Tasks.has_id t.id) (Tasks.complete_row b "" w.now) d.tasks ++ next step ∷ [])

  -- An id that no task has, is none of a completed task either.
  new-tasks :
      (id : String)
      → exists (Tasks.has_id id) d.tasks ≡ false
      → exists (Tasks.has_id id) (stepped x t b w.now d).tasks ≡ false
  new-tasks id h =
      exists-update_same (Tasks.has_id t.id) (Tasks.has_id id) (Tasks.complete_row b "" w.now)
        d.tasks (λ z. refl)
      ∙ h

  apart-id :
      (id : String)
      → exists (Tasks.has_id id) d.tasks ≡ false
      → Stands x t d
      → str_eq t.id id ≡ false
  apart-id id h s = elim (Bool-cases (str_eq t.id id)) [
    | inl e ↦
        absurd
          (let k = find-exists_other (Tasks.has_id t.id) (Tasks.has_id id) d.tasks s.task e in cc)
    | inr e ↦ e
  ]

  pub later-Fresh :
      (step : WorkflowDefinitionStep)
      → IsInjective w.env.new_uuid
      → Fresh w d.tasks
      → (n : ℕ) → w.uuids + 1 ≤ n
      → exists (Tasks.has_id (w.env.new_uuid n)) (tasks_then step) ≡ false
  later-Fresh step i f n l = exists-delete (Tasks.has_id t.id) (Tasks.has_id (w.env.new_uuid n)) _ (
      exists-snoc (Tasks.has_id (w.env.new_uuid n)) _ (next step)
        (new-tasks (w.env.new_uuid n) (f n (omega (arith, l))))
        (elim (Bool-cases (str_eq (w.env.new_uuid w.uuids) (w.env.new_uuid n))) [
          | inl e ↦ absurd (let q = i w.uuids n ((str_eq_iff _ _).0 e) in omega (arith, l))
          | inr e ↦ e
        ]))

  -- The one task is of this step, so the next step has none.
  unstepped :
      Stands x t d
      → exists (Tasks.same_step x.id (t.step_index + 1)) (stepped x t b w.now d).tasks ≡ false
  unstepped s =
      let here = Tasks.same_step x.id (t.step_index + 1) in
      exists-update_same (Tasks.has_id t.id) here (Tasks.complete_row b "" w.now) d.tasks
        (λ z. refl)
      ∙ sym (exists-select (of_execution x.id) here (λ z k. ground arith) d.tasks)
      ∙ ap (exists here) s.alone
      ∙ ground arith

  task_fits-next :
      (step : WorkflowDefinitionStep)
      → Stands x t d
      → Fresh w d.tasks
      → ltb 0 step.max_attempts ≡ true
      → is_null b ≡ false
      → Tasks.task_fits (next_task x done b step (saved x t b d w)) (stepped x t b w.now d) ≡ true
  unfolding Tasks.task_fits
  task_fits-next step s f m given =
      rw (new-tasks (w.env.new_uuid w.uuids) (f w.uuids (omega arith))) (
        rw (find-exists (has_id x.id) d.executions s.row) (rw m (rw (unstepped s) (rw given refl))))

  next-Stands :
      (step : WorkflowDefinitionStep)
      → Stands x t d
      → Fresh w d.tasks
      → (e : Db)
      → e.executions ≡ (moved_on x done (next step) w.now (stepped x t b w.now d)).executions
      → e.tasks ≡ tasks_then step
      → Stands (cursor_at x (t.step_index + 1) w.now) (next step) e
  next-Stands step s f e p q =
      let unused = f w.uuids (omega arith) in
      let other : str_eq (w.env.new_uuid w.uuids) t.id ≡ false =
        str_eq_comm (w.env.new_uuid w.uuids) t.id ∙ apart-id (w.env.new_uuid w.uuids) unused s in
      record {
        row = rw p (
            find-updated (has_id x.id) (open_row x.id) _ d.executions (λ z. refl) s.row
            ∙ (let mine : open_row x.id x ≡ true = rw (str_eq_refl x.id) (rw s.is_running refl) in
                rw mine refl));
        is_running = s.is_running;
        in_order = s.in_order;
        owner = refl;
        task = rw q (
            find-spared (Tasks.has_id (w.env.new_uuid w.uuids)) (Tasks.has_id t.id)
              (λ z k. rw ((str_eq_iff z.id (w.env.new_uuid w.uuids)).0 k) other) _
            ∙ find-new (Tasks.has_id (w.env.new_uuid w.uuids)) _ (next step)
                (new-tasks (w.env.new_uuid w.uuids) unused) (str_eq_refl (w.env.new_uuid w.uuids)));
        alone = rw q (
            let mine = of_execution x.id in
            let it = Tasks.has_id t.id in
            let g = Tasks.complete_row b "" w.now in
            rw (select-delete mine it (update it g d.tasks ++ next step ∷ [])) (
              rw (select-append mine (update it g d.tasks) (next step ∷ [])) (
                rw (select-update mine it g d.tasks (λ z. refl)) (
                  rw s.alone (
                    rw (str_eq_refl t.id)
                      (rw (str_eq_refl x.id) (rw (str_eq_refl t.id) (rw other refl))))))));
      }

  -- The report of an earlier step.
  pub next_step-calm :
      (step : WorkflowDefinitionStep)
      → Stands x t d
      → Fresh w d.tasks
      → is_null b ≡ false
      → ltb x.total_steps (t.step_index + 1) ≡ false
      → find (Steps.of_index x.workflow_definition_id (t.step_index + 1)) d.steps ≡ some step
      → ltb 0 step.max_attempts ≡ true
      → (e : Db) × (v : World) × (complete_task t.id b "" (outside d w) ≡ (ok tt, outside e v))
        × Stands (cursor_at x (t.step_index + 1) w.now) (next step) e
        × (e.tasks ≡ tasks_then step)
        × (e.steps ≡ d.steps)
        × (v.env ≡ w.env)
        × (v.uuids ≡ w.uuids + 1)
  unfolding complete_task Checkpoints.save_row
  next_step-calm step s f given more found m =
      let u = saved x t b d w in
      let (h, i, k) =
        chain_next-calm x done b step (stepped x t b w.now d) u s.row found
          (task_fits-next step s f m given) in
      let e1 = record (moved_on x done (next step) w.now (stepped x t b w.now d)) {
        history = h;
        event_seq = i;
      } in
      let u1 = record u { uuids = w.uuids + 1 } in
      let e = commit_db e1 u1.db in
      let c = run_in_tx-calm _ d e1 w u1 (
        body-calm x t b d w s given
          (else-calm (ltb x.total_steps (t.step_index + 1)) _ _ _ more k)) in
      let (v, n, env, ids) = notified (next step).task_queue e u1 in
      (e, v, bind-calm _ _ _ c n, next-Stands step s f e refl refl, refl, refl, env, ids)
