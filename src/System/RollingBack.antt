-- ===== src/System/RollingBack.antt =====
-- A rollback under workers that report success: it ends.
use antflow_server.Base.{
  ℕ, ◌+◌, ◌≤◌, false, ◌≡◌, ◌⊎◌, refl, sym, ◌∙◌, ap, subst, Option, none, some, List, [], ◌∷◌,
  length, String, str_eq, str_eq_iff, str_eq_refl, exists, exists-snoc, find, find-select, arith,
  Bool-cases, Option-cases, inl, inr,
}
use antflow_server.Domain.{WorkflowExecution, CompensationTask, Bytes, failed}
use antflow_server.Store.World.{Db, World}
use antflow_server.Store.Calm.{outside}
use antflow_server.Store.Executions.{has_id}
use antflow_server.Store.CompensationTasks
use antflow_server.Usecase.Saga.{complete_compensation_task}
use antflow_server.Usecase.Advancing.{IsInjective}
use antflow_server.Usecase.Undoing.{Undoes, of_execution}
use antflow_server.Usecase.Undoing.Reports.{counted}
use antflow_server.Usecase.Undoing.Reports.Following.{Continues, others-IsNew, undo_step-calm}
use antflow_server.System.{Event, Call, run, serve}
use antflow_server.System.Executions.{run-final}

-- A worker reports that the compensation task of the execution has succeeded.
abbrev success : World → Bytes → CompensationTask → Event
success w output t = record {
  call = Call.complete_compensation t.id output "";
  at = w.now;
  faults = [];
}

abbrev undo_on : Option CompensationTask → Bytes → World → World
undo_on none output w = w
undo_on (some t) output w = run w (success w output t ∷ [])

-- Of the compensation task of the execution that is found first.
unfoldable pub undo : String → Bytes → World → World
undo id output w = undo_on (find (of_execution id) w.db.compensation_tasks) output w

-- One report after another, each of the compensation task that is there then.
unfoldable pub unwind : String → List Bytes → World → World
unfolding undo
unwind id [] w = w
unwind id (output ∷ outputs) w = unwind id outputs (undo id output w)

abbrev pub FreshUndos : World → List CompensationTask → Type 0
FreshUndos w ts =
    (n : ℕ) → w.uuids ≤ n → exists (CompensationTasks.has_id (w.env.new_uuid n)) ts ≡ false

abbrev Failed : String → World → Type 0
Failed id w =
    (y : WorkflowExecution) × (find (has_id id) w.db.executions ≡ some y) × (y.state ≡ failed)

-- What has FAILED stays so.
undo-Failed :
    (id : String) (output : Bytes) (w : World) → Failed id w → Failed id (undo id output w)
unfolding undo
undo-Failed id output w (y, f, s) =
    elim (Option-cases (find (of_execution id) w.db.compensation_tasks)) [
      | inl e ↦ rw e (y, f, s)
      | inr (t, e) ↦ rw e (
          let (z, g, q, _, _) = run-final w (success w output t ∷ []) id y f (inr (inl s)) in
          (z, g, q ∙ s))
    ]

unwind-Failed :
    (id : String) (outputs : List Bytes) (w : World) → Failed id w → Failed id (unwind id outputs w)
unfolding unwind
unwind-Failed id [] w f = f
unwind-Failed id (output ∷ outputs) w f =
    unwind-Failed id outputs (undo id output w) (undo-Failed id output w f)

undone_world :
    (x : WorkflowExecution) (t : CompensationTask) (output : Bytes) (w : World)
    → Undoes x t w.db
    → undo x.id output w ≡ (complete_compensation_task t.id output "" (outside w.db w)).1
unfolding undo run serve
undone_world x t output w s =
    let f : find (of_execution x.id) w.db.compensation_tasks ≡ some t =
      find-select (of_execution x.id) w.db.compensation_tasks
      ∙ (rw s.alone (rw s.owner (rw (str_eq_refl x.id) refl))) in
    rw f refl

next-FreshUndos :
    (x : WorkflowExecution) (t : CompensationTask) (output : Bytes) (w v : World) (e : Db)
    → IsInjective w.env.new_uuid
    → FreshUndos w w.db.compensation_tasks
    → Continues x t output w.db w e v
    → FreshUndos (outside e v) e.compensation_tasks
next-FreshUndos x t output w v e i f c n l = rw c.env (
    rw c.tasks (
      exists-snoc (CompensationTasks.has_id (w.env.new_uuid n)) _ c.undo
        (others-IsNew x t output w.db w (w.env.new_uuid n)
          (f n (let k = rw c.uuids at l in omega (arith, k))))
        (rw c.undo_id (elim (Bool-cases (str_eq (w.env.new_uuid w.uuids) (w.env.new_uuid n))) [
          | inl m ↦ absurd (
              let q = i w.uuids n ((str_eq_iff _ _).0 m) in
              let k = rw c.uuids at l in omega (arith, k, q))
          | inr m ↦ m
        ]))))

-- A rollback ends. Let an execution be COMPENSATING, with one compensation task. If a worker reports
-- success on its compensation task, whichever that is then, as often as compensations are left to be
-- counted, at least once, or more often than the index of the step of that task says, and the
-- database answers, then the execution is FAILED. The uuids are new ones.
pub unwind-failed :
    (x : WorkflowExecution) (t : CompensationTask) (output : Bytes) (outputs : List Bytes)
    (w : World)
    → Undoes x t w.db
    → (x.compensation_total ≤ x.compensation_done + 1 + length outputs)
      ⊎ (t.step_index ≤ length outputs)
    → IsInjective w.env.new_uuid
    → FreshUndos w w.db.compensation_tasks
    → (y : WorkflowExecution) × (find (has_id x.id) (unwind x.id (output ∷ outputs) w).db.executions
        ≡ some y)
      × (y.state ≡ failed)
unfolding unwind
unwind-failed x t output [] w s n i f =
    let (e, v, k, r) = undo_step-calm x t output w.db w s (f w.uuids (omega arith)) in
    subst (Failed x.id) (sym (undone_world x t output w s ∙ ap (λ r. r.1) k)) (elim r [
      | inl g ↦ (_, g, refl)
      | inr c ↦ absurd (let l = c.fewer in let m = c.lower in ground (arith, n, l, m))
    ])
unwind-failed x t output (next ∷ outputs) w s n i f =
    let (e, v, k, r) = undo_step-calm x t output w.db w s (f w.uuids (omega arith)) in
    subst (λ u. Failed x.id (unwind x.id (next ∷ outputs) u))
      (sym (undone_world x t output w s ∙ ap (λ r. r.1) k))
      (elim r [
        | inl g ↦ unwind-Failed x.id (next ∷ outputs) (outside e v) (_, g, refl)
        | inr c ↦
            unwind-failed (counted x w.now) c.undo next outputs (outside e v) c.undoes
              (let m = c.lower in ground (arith, n, m)) (rw c.env i)
              (next-FreshUndos x t output w v e i f c)
      ])
