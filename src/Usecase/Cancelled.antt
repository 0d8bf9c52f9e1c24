-- ===== src/Usecase/Cancelled.antt =====
-- usecase/execution.go: what a CancelWorkflow that returned has done.
use antflow_server.Base.{
  Bool, true, false, ◌≡◌, refl, ap, sym, subst, ◌∙◌, none, some, str_eq, Option, [], String, exists,
  update, exists-update, arith, if◌then◌else◌,
}
use antflow_server.Domain.{cancelled, conflict, State, EventType, workflow_cancelled, ok}
use antflow_server.Store.World.{
  Db, World, M, insert_if, run_in_tx, ◌>>=◌, wrapping, gets, stmt, throw, pure, view, spend, drain,
}
use antflow_server.Store.Inversion.{bind-ok, wrapping-ok, stmt-view, run_in_tx-ok, view-working}
use antflow_server.Store.Executions.{open_row, update_rows, set_state}
use antflow_server.Store.Executions
use antflow_server.Store.Tasks
use antflow_server.Store.CompensationTasks
use antflow_server.Store.History
use antflow_server.Usecase.Execution.{cancel_workflow, cancel_body}

some-injective :
    {A : Type 0} {a b : A} {d e : Db}
    → ◌≡◌ {A = Option (A × Db)} (some (a, d)) (some (b, e))
    → (a ≡ b) × (d ≡ e)
some-injective h = (cc, cc)

task_cancel-ok :
    (id : String) (v : World) {b : Bool}
    → (Tasks.cancel_by_execution id v).0 ≡ ok b
    → record (view v) { tasks = update (Tasks.pending_of id) Tasks.cancel_row (view v).tasks }
      ≡ view (Tasks.cancel_by_execution id v).1
unfolding Tasks.cancel_by_execution
task_cancel-ok id v h = (some-injective (stmt-view _ v h)).1

compensation_cancel-ok :
    (id : String) (v : World) {b : Bool}
    → (CompensationTasks.cancel_by_execution id v).0 ≡ ok b
    → record (view v) {
      compensation_tasks =
          update
            (CompensationTasks.pending_of id)
            CompensationTasks.cancel_row
            (view v).compensation_tasks;
    }
      ≡ view (CompensationTasks.cancel_by_execution id v).1
unfolding CompensationTasks.cancel_by_execution
compensation_cancel-ok id v h = (some-injective (stmt-view _ v h)).1

-- Three tables of the tables in force.
record SameThree (d d' : Db) : Type 0 where
  executions : d'.executions ≡ d.executions
  tasks : d'.tasks ≡ d.tasks
  compensation_tasks : d'.compensation_tasks ≡ d.compensation_tasks

inserted-SameThree :
    (b : Bool) (d e f : Db) {u : Unit {0}}
    → SameThree d e
    → insert_if b e ≡ some (u, f)
    → SameThree d f
inserted-SameThree true d e f s h = let q : e ≡ f = cc in subst (λ x. SameThree d x) q s
inserted-SameThree false d e f s h = absurd cc

append-SameThree :
    (id : String) (t : EventType) (v : World) {u : Unit {0}}
    → (History.append id none none t [] "" v).0 ≡ ok u
    → SameThree (view v) (view (History.append id none none t [] "" v).1)
unfolding History.append ◌>>=◌ gets
append-SameThree id t v h =
    inserted-SameThree (exists (λ r. str_eq r.id id) (view v).executions) (view v) _ _
      (record { executions = refl; tasks = refl; compensation_tasks = refl }) (stmt-view _ v h)

hit-ok :
    (b : Bool) (v : World) {u : Unit {0}}
    → ((if b then pure tt else throw conflict) v).0 ≡ ok u
    → (b ≡ true) × (((if b then pure tt else throw conflict) v).1 ≡ v)
unfolding pure throw
hit-ok true v h = (refl, refl)
hit-ok false v h = absurd cc

state_set-ok :
    (id : String) (s : State) (v : World) {u : Unit {0}}
    → (Executions.update_state id s v).0 ≡ ok u
    → (exists (open_row id) (view v).executions ≡ true)
      × (record (view v) {
        executions = update (open_row id) (set_state s v.now) (view v).executions;
      }
          ≡ view (Executions.update_state id s v).1)
unfolding Executions.update_state gets ◌>>=◌
state_set-ok id s v h =
    let f = update_rows (open_row id) (set_state s v.now) in
    let (b, e, q) = bind-ok (stmt f) (λ hit. if hit then pure tt else throw conflict) v h in
    let (m, n) = hit-ok b (stmt f v).1 (ap (λ r. r.0) (sym q) ∙ h) in
    let (x, y) = some-injective (stmt-view f v e) in
    (x ∙ m, y ∙ sym (ap (λ r. view r.1) q ∙ ap view n))

wrapped-ok :
    {A B : Type 0} (s : String) (m : M A) (f : A → M B) (v : World) {b : B}
    → ((wrapping s m >>= f) v).0 ≡ ok b
    → (a : A) × ((m v).0 ≡ ok a) × ((wrapping s m >>= f) v ≡ f a (m v).1)
wrapped-ok s m f v h =
    let (a, e, q) = bind-ok (wrapping s m) f v h in
    let (k, n) = wrapping-ok s m v e in (a, k, q ∙ ap (f a) n)

-- The steps of the body, from the tables in force to those at its end.
body-ok :
    (id : String) (v : World) {u : Unit {0}}
    → (cancel_body id v).0 ≡ ok u
    → (exists (open_row id) (view v).executions ≡ true)
      × SameThree
          (record (view v) {
            executions = update (open_row id) (set_state cancelled v.now) (view v).executions;
            tasks = update (Tasks.pending_of id) Tasks.cancel_row (view v).tasks;
            compensation_tasks =
                update
                  (CompensationTasks.pending_of id)
                  CompensationTasks.cancel_row
                  (view v).compensation_tasks;
          })
          (view (cancel_body id v).1)
unfolding cancel_body
body-ok id v h =
    let (a1, k1, q1) = wrapped-ok _ (Executions.update_state id cancelled) _ v h in
    let v1 = (Executions.update_state id cancelled v).1 in
    let (a2, k2, q2) =
      wrapped-ok _ (Tasks.cancel_by_execution id) _ v1 (ap (λ r. r.0) (sym q1) ∙ h) in
    let v2 = (Tasks.cancel_by_execution id v1).1 in
    let h3 = ap (λ r. r.0) (sym (q1 ∙ q2)) ∙ h in
    let (a3, k3, q3) = wrapped-ok _ (CompensationTasks.cancel_by_execution id) _ v2 h3 in
    let v3 = (CompensationTasks.cancel_by_execution id v2).1 in
    let (k4, n4) = wrapping-ok _ _ v3 (ap (λ r. r.0) (sym (q1 ∙ q2 ∙ q3)) ∙ h) in
    let last = ap (λ r. view r.1) (q1 ∙ q2 ∙ q3) ∙ ap view n4 in
    let (m, s1) = state_set-ok id cancelled v k1 in
    let s2 = task_cancel-ok id v1 k2 in
    let s3 = compensation_cancel-ok id v2 k3 in
    let s4 = append-SameThree id workflow_cancelled v3 k4 in
    let tasks_cancelled = update (Tasks.pending_of id) Tasks.cancel_row in
    let undone = update (CompensationTasks.pending_of id) CompensationTasks.cancel_row in
    (
      m,
      record {
        executions =
            ap (λ d. d.executions) last
            ∙ s4.executions
            ∙ ap (λ d. d.executions) (sym s3)
            ∙ ap (λ d. d.executions) (sym s2)
            ∙ ap (λ d. d.executions) (sym s1);
        tasks =
            ap (λ d. d.tasks) last
            ∙ s4.tasks
            ∙ ap (λ d. d.tasks) (sym s3)
            ∙ ap (λ d. d.tasks) (sym s2)
            ∙ ap (λ d. tasks_cancelled d.tasks) (sym s1);
        compensation_tasks =
            ap (λ d. d.compensation_tasks) last
            ∙ s4.compensation_tasks
            ∙ ap (λ d. d.compensation_tasks) (sym s3)
            ∙ ap (λ d. undone d.compensation_tasks) (sym s2)
            ∙ ap (λ d. undone d.compensation_tasks) (sym s1);
      },
    )

drained : (id : String) (w : World) → (drain id w).1.db ≡ w.db
unfolding drain
drained id w = refl

-- A CancelWorkflow that returned has found the execution open, has set it to CANCELLED with its
-- completion time and changed no other execution, and has left neither a pending task nor a pending
-- compensation task of it.
pub cancel_workflow-ok :
    (id : String) (w : World)
    → (cancel_workflow id w).0 ≡ ok tt
    → let d = (cancel_workflow id w).1.db in
      (exists (open_row id) w.db.executions ≡ true)
      × (d.executions ≡ update (open_row id) (set_state cancelled w.now) w.db.executions)
      × (exists (Tasks.pending_of id) d.tasks ≡ false)
      × (exists (CompensationTasks.pending_of id) d.compensation_tasks ≡ false)
unfolding cancel_workflow
cancel_workflow-ok id w h =
    let (a, e, q) = bind-ok (run_in_tx (cancel_body id)) (λ u. drain id) w h in
    let (out, p, k, c) = run_in_tx-ok (cancel_body id) w e in
    let b : World = record (spend w) { tx = some w.db; aborted = false } in
    let (m, s) = body-ok id b (ap (λ r. r.0) p ∙ k) in
    let last = ap (λ r. r.1.db) q ∙ drained id (run_in_tx (cancel_body id) w).1 ∙ c in
    let now = view-working out.1 ∙ ap (λ r. view r.1) (sym p) in
    (
      m,
      ap (λ d. d.executions) last ∙ ap (λ d. d.executions) now ∙ s.executions,
      ap (λ d. exists (Tasks.pending_of id) d.tasks) last
          ∙ ap (λ d. exists (Tasks.pending_of id) d.tasks) now
          ∙ ap (exists (Tasks.pending_of id)) s.tasks
          ∙ exists-update (Tasks.pending_of id) Tasks.cancel_row w.db.tasks (λ x h. ground arith),
      ap (λ d. exists (CompensationTasks.pending_of id) d.compensation_tasks) last
          ∙ ap (λ d. exists (CompensationTasks.pending_of id) d.compensation_tasks) now
          ∙ ap (exists (CompensationTasks.pending_of id)) s.compensation_tasks
          ∙ exists-update (CompensationTasks.pending_of id) CompensationTasks.cancel_row
              w.db.compensation_tasks (λ x h. ground arith),
    )
