-- ===== src/Usecase/Expiring.antt =====
-- usecase/service.go: the deadlines of workflows, on a database that answers.
use antflow_server.Base.{
  ℕ, false, ◌≡◌, refl, ◌∙◌, ap, Option, none, some, List, [], ◌∷◌, map, String, str_eq, exists,
  exists-update, select, update, Bool-cases, inl, inr, arith,
}
use antflow_server.Domain.{
  Task, CompensationTask, HistoryEvent, EventType, ok, workflow_timed_out, workflow_failed,
}
use antflow_server.Store.World.{
  Db, World, gets, stmt, base_stmt, ◌>>=◌, pure, ignore, attempt, drain,
}
use antflow_server.Store.Calm.{outside, bind-calm, wrapping-calm, ignore-calm}
use antflow_server.Store.Executions.{is_overdue, expire_row}
use antflow_server.Store.Executions
use antflow_server.Store.Tasks
use antflow_server.Store.CompensationTasks
use antflow_server.Store.History
use antflow_server.Signals
use antflow_server.Usecase.Service.{
  timeout_text, close_expired, close_each, expire_overdue_workflows,
}

-- A statement where no transaction is open.
pub stmt-outside :
    {A : Type 0} (f : Db → Option (A × Db)) (d : Db) (w : World) {a : A} {e : Db}
    → f d ≡ some (a, e)
    → stmt f (outside d w) ≡ (ok a, outside e w)
unfolding stmt
stmt-outside f d w h = rw h refl

-- No task of the execution is left to do.
abbrev pub IsQuiet : String → Db → Type 0
IsQuiet id d =
    (exists (Tasks.pending_of id) d.tasks ≡ false)
    × (exists (CompensationTasks.pending_of id) d.compensation_tasks ≡ false)

cancel_row-tasks :
    (id j : String) (ts : List Task)
    → exists (Tasks.pending_of j) ts ≡ false
    → exists (Tasks.pending_of j) (update (Tasks.pending_of id) Tasks.cancel_row ts) ≡ false
cancel_row-tasks id j [] h = refl
cancel_row-tasks id j (t ∷ ts) h = ground (arith, cancel_row-tasks id j ts)

cancel_row-undos :
    (id j : String) (ts : List CompensationTask)
    → exists (CompensationTasks.pending_of j) ts ≡ false
    → exists
        (CompensationTasks.pending_of j)
        (update (CompensationTasks.pending_of id) CompensationTasks.cancel_row ts)
      ≡ false
cancel_row-undos id j [] h = refl
cancel_row-undos id j (t ∷ ts) h = ground (arith, cancel_row-undos id j ts)

-- An event is written or, where its execution is not there, dropped.
append-outside :
    (id : String) (e : EventType) (text : String) (d : Db) (w : World)
    → (h : List HistoryEvent) × (i : ℕ) × (ignore
          (History.append id none none e [] text)
          (outside d w)
        ≡ (ok tt, outside (record d { history = h; event_seq = i }) w))
unfolding History.append gets stmt ignore attempt pure ◌>>=◌
append-outside id e text d w = elim (Bool-cases (exists (λ r. str_eq r.id id) d.executions)) [
  | inl h ↦ rw h (_, _, refl)
  | inr h ↦ rw h (_, _, refl)
]

-- What closing an expired execution does: its tasks are cancelled, those of others stay.
pub record Closes (id : String) (d e : Db) : Type 0 where
  pub same : e.executions ≡ d.executions
  pub quiet : IsQuiet id e
  pub others : (j : String) → IsQuiet j d → IsQuiet j e

close_expired-outside :
    (id : String) (d : Db) (w : World)
    → (e : Db) × (v : World) × (close_expired id (outside d w) ≡ (ok tt, outside e v))
      × Closes id d e
      × (v.now ≡ w.now)
unfolding close_expired Tasks.cancel_by_execution CompensationTasks.cancel_by_execution drain
close_expired-outside id d w =
    let d1 = record d { tasks = update (Tasks.pending_of id) Tasks.cancel_row d.tasks } in
    let d2 = record d1 {
      compensation_tasks =
          update (CompensationTasks.pending_of id) CompensationTasks.cancel_row
            d.compensation_tasks;
    } in
    let (h, i, p) = append-outside id workflow_timed_out timeout_text d2 w in
    let d3 = record d2 { history = h; event_seq = i } in
    let (h', i', q) = append-outside id workflow_failed timeout_text d3 w in
    (
      record d3 { history = h'; event_seq = i' },
      record w { signals = Signals.drain id w.signals },
      bind-calm _ _ _ (ignore-calm _ _ (stmt-outside _ d w {e = d1} refl)) (
          bind-calm _ _ _ (ignore-calm _ _ (stmt-outside _ d1 w {e = d2} refl))
            (bind-calm _ _ _ p (bind-calm _ _ _ q refl))),
      record {
        same = refl;
        quiet = (
          exists-update (Tasks.pending_of id) Tasks.cancel_row d.tasks (λ t k. ground arith),
          exists-update (CompensationTasks.pending_of id) CompensationTasks.cancel_row
              d.compensation_tasks (λ t k. ground arith),
        );
        others = λ j k.
            (cancel_row-tasks id j d.tasks k.0, cancel_row-undos id j d.compensation_tasks k.1);
      },
      refl,
    )

-- All of them are quiet.
abbrev pub AreQuiet : List String → Db → Type 0
AreQuiet [] d = Unit {0}
AreQuiet (id ∷ ids) d = IsQuiet id d × AreQuiet ids d

close_each-outside :
    (ids : List String) (d : Db) (w : World)
    → (e : Db) × (v : World) × (close_each ids (outside d w) ≡ (ok tt, outside e v))
      × (e.executions ≡ d.executions)
      × AreQuiet ids e
      × ((j : String) → IsQuiet j d → IsQuiet j e)
unfolding close_each pure
close_each-outside [] d w = (d, w, refl, refl, tt, λ j k. k)
close_each-outside (id ∷ ids) d w =
    let (d1, v, h, c, _) = close_expired-outside id d w in
    let (e, u, k, same, q, o) = close_each-outside ids d1 v in
    (e, u, bind-calm _ _ _ h k, same ∙ c.same, (o id c.quiet, q), λ j r. o j (c.others j r))

-- Deadlines are kept: on a database that answers, ExpireOverdueWorkflows returns, and afterwards no
-- execution is open past its deadline. Those that were are FAILED with the text of the timeout, the
-- others are as they were, and of every execution that was closed no task and no compensation task
-- is left to do.
pub expire_overdue_workflows-outside :
    (d : Db) (w : World)
    → (e : Db) × (v : World) × (expire_overdue_workflows (outside d w) ≡ (ok tt, outside e v))
      × (exists (is_overdue w.now) e.executions ≡ false)
      × (e.executions ≡ update (is_overdue w.now) (expire_row w.now) d.executions)
      × AreQuiet (map (λ r. r.id) (select (is_overdue w.now) d.executions)) e
unfolding expire_overdue_workflows Executions.expire_overdue gets base_stmt
expire_overdue_workflows-outside d w =
    let ids = map (λ r. r.id) (select (is_overdue w.now) d.executions) in
    let d1 = record d { executions = update (is_overdue w.now) (expire_row w.now) d.executions } in
    let (e, v, h, same, q, _) = close_each-outside ids d1 w in
    (
      e,
      v,
      bind-calm _ _ _ (wrapping-calm _ _ _ (bind-calm _ _ _ refl refl)) h,
      ap (exists (is_overdue w.now)) same
          ∙ exists-update (is_overdue w.now) (expire_row w.now) d.executions (λ x k. ground arith),
      same,
      q,
    )
