-- ===== src/Usecase/Undoing/Reports/Following.antt =====
-- usecase/saga.go: a report of success in a rollback, with what follows it.
use antflow_server.Base.{
  ◌+◌, ◌<◌, Bool, true, false, ◌≡◌, refl, sym, ◌∙◌, ap, subst, ◌⊎◌, none, some, List, [], ◌∷◌, ◌++◌,
  String, str_eq_refl, exists, exists-update_same, exists-delete, exists-select, find, find-exists,
  find-new, select, select-append, select-update, select-delete, update, leb, Bool-cases,
  Option-cases, inl, inr, arith,
}
use antflow_server.Domain.{
  WorkflowExecution, CompensationTask, WorkflowDefinitionStep, TaskOutput, Bytes, failed, ok,
}
use antflow_server.Store.World.{Db, World, pure, commit_db}
use antflow_server.Store.Calm.{
  inside, outside, bind-calm, wrapping-calm, then-calm, else-calm, run_in_tx-calm,
}
use antflow_server.Store.Calm.Statements.{compensation_steps-calm, outputs-calm}
use antflow_server.Store.Executions.{has_id, set_state}
use antflow_server.Store.CompensationTasks
use antflow_server.Store.Steps.{int_pred}
use antflow_server.Store.Steps
use antflow_server.Store.History
use antflow_server.Usecase.Advancing.{notified}
use antflow_server.Usecase.Saga.{
  complete_compensation_task, complete_compensation_body, next_compensation, schedule_next,
  rolled_back, has_output,
}
use antflow_server.Usecase.Undoing.{
  Undoes, next_undo, of_execution, rolled_back-calm, schedule_compensation-calm,
}
use antflow_server.Usecase.Undoing.Reports.{body-calm, counted, counted_row, done, others, undone}
use antflow_server.Store.Rollback.Apart.{found-before}

module _ (x : WorkflowExecution) (t : CompensationTask) (b : Bytes) (d : Db) (w : World) where
  -- What the end of the rollback leaves.
  abbrev pub Ended : (String × Bool) → Db → Type 0
  Ended q e =
      (q ≡ ("", true))
      × (find (has_id x.id) e.executions ≡ some (set_state failed w.now (counted x w.now)))

  rollback_end-calm :
      (y : WorkflowExecution) (outputs : List TaskOutput)
      → y.id ≡ x.id
      → Undoes x t d
      → (e : Db) × (v : World) × (schedule_next y outputs none
            (inside (undone x t b d w) (outside d w))
          ≡ (ok ("", true), inside e v))
        × Ended ("", true) e
  unfolding schedule_next pure
  rollback_end-calm y outputs i s =
      let text : String = "Saga rolled back successfully" in
      let u = outside d w in
      let (e, v, h, f) =
        rolled_back-calm (counted x w.now) text (undone x t b d w) u (counted_row x t b d w s.row)
          s.is_undoing in
      (
        e,
        v,
        bind-calm _ _ _
            (subst (λ j. rolled_back j text (inside (undone x t b d w) u) ≡ (ok tt, inside e v))
              (sym i) h)
            refl,
        (refl, f),
      )

  -- An id that no compensation task has.
  abbrev pub IsNew : String → List CompensationTask → Type 0
  IsNew id ts = exists (CompensationTasks.has_id id) ts ≡ false

  pub others-IsNew : (id : String) → IsNew id d.compensation_tasks → IsNew id (others x t b d w)
  others-IsNew id h =
      exists-delete (CompensationTasks.has_id t.id) (CompensationTasks.has_id id) _ (
        exists-update_same (CompensationTasks.has_id t.id) (CompensationTasks.has_id id)
          (CompensationTasks.complete_row b "" w.now) d.compensation_tasks (λ z. refl)
        ∙ h)

  -- The execution has no other compensation task.
  others-alone : Undoes x t d → select (of_execution x.id) (others x t b d w) ≡ []
  others-alone s =
      let mine = of_execution x.id in
      let it = CompensationTasks.has_id t.id in
      let g = CompensationTasks.complete_row b "" w.now in
      rw (select-delete mine it (update it g d.compensation_tasks)) (
        rw (select-update mine it g d.compensation_tasks (λ z. refl))
          (rw s.alone (rw (str_eq_refl t.id) (rw (str_eq_refl t.id) refl))))

  fits-next :
      (step : WorkflowDefinitionStep) (outputs : List TaskOutput)
      → Undoes x t d
      → IsNew (w.env.new_uuid w.uuids) d.compensation_tasks
      → CompensationTasks.compensation_task_fits
          (next_undo (counted x w.now) step outputs (outside d w))
          (undone x t b d w)
        ≡ true
  unfolding CompensationTasks.compensation_task_fits
  fits-next step outputs s f =
      let same = CompensationTasks.same_step x.id step.step_index in
      let none_here : exists same (others x t b d w) ≡ false =
        sym (exists-select (of_execution x.id) same (λ z k. ground arith) (others x t b d w))
        ∙ ap (exists same) (others-alone s) in
      rw (others-IsNew (w.env.new_uuid w.uuids) f) (
        rw (find-exists (has_id x.id) (undone x t b d w).executions (counted_row x t b d w s.row))
          (rw none_here refl))

  next-Undoes :
      (n : CompensationTask) (e : Db)
      → Undoes x t d
      → IsNew n.id d.compensation_tasks
      → n.workflow_execution_id ≡ x.id
      → e.executions ≡ (undone x t b d w).executions
      → e.compensation_tasks ≡ (others x t b d w) ++ n ∷ []
      → Undoes (counted x w.now) n e
  next-Undoes n e s f o p q = record {
    row = rw p (counted_row x t b d w s.row);
    is_undoing = s.is_undoing;
    owner = o;
    task = rw q (
        find-new (CompensationTasks.has_id n.id) (others x t b d w) n (others-IsNew n.id f)
          (str_eq_refl n.id));
    alone = rw q (
        rw (select-append (of_execution x.id) (others x t b d w) (n ∷ []))
          (rw (others-alone s) (rw o (rw (str_eq_refl x.id) refl))));
  }

  -- What a step of the rollback that is not its last leaves.
  pub record Continues (e : Db) (v : World) : Type 0 where
    pub fewer : x.compensation_done + 1 < x.compensation_total
    pub undo : CompensationTask
    pub lower : undo.step_index < t.step_index
    pub undoes : Undoes (counted x w.now) undo e
    pub tasks : e.compensation_tasks ≡ (others x t b d w) ++ undo ∷ []
    pub undo_id : undo.id ≡ w.env.new_uuid w.uuids
    pub env : v.env ≡ w.env
    pub uuids : v.uuids ≡ w.uuids + 1

  -- A rollback step on the tables of its transaction.
  abbrev Outcome : (String × Bool) → Db → World → Type 0
  Outcome q e v =
      (q.1 ≡ true)
      × ((find (has_id x.id) e.executions ≡ some (set_state failed w.now (counted x w.now)))
          ⊎ Continues e v)

  next-calm :
      Undoes x t d
      → IsNew (w.env.new_uuid w.uuids) d.compensation_tasks
      → x.compensation_done + 1 < x.compensation_total
      → (q : String × Bool) × (e : Db) × (v : World) × (next_compensation
            (counted x w.now)
            (done x t b d w)
            (inside (undone x t b d w) (outside d w))
          ≡ (ok q, inside e v))
        × Outcome q e v
  unfolding next_compensation schedule_next pure
  next-calm s f l =
      let u = outside d w in
      let y = counted x w.now in
      let steps =
        Steps.compensation_steps x.workflow_definition_id (int_pred t.step_index) d.steps in
      let outputs = History.step_outputs x.id (undone x t b d w).history in
      elim (Option-cases (find (has_output outputs) steps)) [
        | inl ends ↦
            (let (e, v, h, r) = rollback_end-calm y outputs refl s in
              (
                ("", true),
                e,
                v,
                bind-calm _ _ _
                    (wrapping-calm _ _ _ (compensation_steps-calm _ _ (undone x t b d w) u))
                    (bind-calm _ _ _ (wrapping-calm _ _ _ (outputs-calm x.id (undone x t b d w) u))
                      (subst
                        (λ o.
                          schedule_next y outputs o (inside (undone x t b d w) u)
                          ≡ (ok ("", true), inside e v))
                        (sym ends) h)),
                (refl, inl r.1),
              ))
        | inr (step, found) ↦
            (let n = CompensationTasks.compensation_task_row (next_undo y step outputs u) in
              let (h, i, k) =
                schedule_compensation-calm "failed to schedule next compensation task" y step
                  outputs (undone x t b d w) u
                  (find-exists (has_id x.id) (undone x t b d w).executions
                    (counted_row x t b d w s.row))
                  (fits-next step outputs s f) in
              let e = record (undone x t b d w) {
                compensation_tasks = (others x t b d w) ++ n ∷ [];
                history = h;
                event_seq = i;
              } in
              let v = record u { uuids = w.uuids + 1 } in
              (
                (n.task_queue, true),
                e,
                v,
                bind-calm _ _ _
                    (wrapping-calm _ _ _ (compensation_steps-calm _ _ (undone x t b d w) u))
                    (bind-calm _ _ _ (wrapping-calm _ _ _ (outputs-calm x.id (undone x t b d w) u))
                      (subst
                        (λ o.
                          schedule_next y outputs o (inside (undone x t b d w) u)
                          ≡ (ok (n.task_queue, true), inside e v))
                        (sym found) (bind-calm _ _ _ k refl))),
                (
                  refl,
                  inr (record {
                    fewer = l;
                    undo = n;
                    lower =
                        found-before (has_output outputs) x.workflow_definition_id t.step_index
                          d.steps found;
                    undoes = next-Undoes n e s f refl refl refl;
                    tasks = refl;
                    undo_id = refl;
                    env = refl;
                    uuids = refl;
                  }),
                ),
              ))
      ]

  abbrev pub Reported : Type 0
  Reported =
      (e : Db) × (v : World) × (complete_compensation_task t.id b "" (outside d w)
        ≡ (ok true, outside e v))
      × ((find (has_id x.id) e.executions ≡ some (set_state failed w.now (counted x w.now)))
          ⊎ Continues e v)

  -- COMMIT, and the notification, leave the step as it is.
  committed-Continues :
      (e : Db) (v u : World)
      → u.env ≡ v.env
      → u.uuids ≡ v.uuids
      → Continues e v
      → Continues (commit_db e v.db) u
  committed-Continues e v u p q c = record {
    fewer = c.fewer;
    lower = c.lower;
    undo = c.undo;
    undoes = record {
      row = c.undoes.row;
      is_undoing = c.undoes.is_undoing;
      owner = c.undoes.owner;
      task = c.undoes.task;
      alone = c.undoes.alone;
    };
    tasks = c.tasks;
    undo_id = c.undo_id;
    env = p ∙ c.env;
    uuids = q ∙ c.uuids;
  }

  reported-calm :
      (q : String × Bool) (e : Db) (v : World)
      → complete_compensation_body t.id b "" (inside d (outside d w)) ≡ (ok q, inside e v)
      → Outcome q e v
      → Reported
  unfolding complete_compensation_task pure
  reported-calm q e v h r =
      let (u, n, env, ids) = notified q.0 (commit_db e v.db) v in
      (
        commit_db e v.db,
        u,
        bind-calm _ _ _ (run_in_tx-calm _ d e w v h)
            (bind-calm _ _ _ n (ap (λ k. (ok k, outside (commit_db e v.db) u)) r.0)),
        elim r.1 [ inl f ↦ inl f | inr c ↦ inr (committed-Continues e v u env ids c) ],
      )

  -- A report of success in a rollback returns, and ends the rollback or leads to its next step.
  pub undo_step-calm : Undoes x t d → IsNew (w.env.new_uuid w.uuids) d.compensation_tasks → Reported
  undo_step-calm s f = elim (Bool-cases (leb x.compensation_total (x.compensation_done + 1))) [
    | inl last ↦
        (let (e, v, h, r) = rollback_end-calm x [] refl s in
          reported-calm ("", true) e v (body-calm x t b d w s (then-calm _ _ _ _ last h))
            (refl, inl r.1))
    | inr more ↦
        (let (q, e, v, h, r) = next-calm s f (ground arith) in
          reported-calm q e v (body-calm x t b d w s (else-calm _ _ _ _ more h)) r)
  ]
