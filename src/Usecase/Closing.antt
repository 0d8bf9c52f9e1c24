-- ===== src/Usecase/Closing.antt =====
-- usecase/task.go, where an execution completes: SaveResult runs when the row is terminal already,
-- so its UPDATE, which spares terminal rows, changes nothing.
use antflow_server.Base.{
  ℕ, Option-cases, false, ◌≡◌, refl, String, List, inl, inr, exists, update, update-no_hit,
  exists-update, arith,
}
use antflow_server.Domain.{
  WorkflowExecution, Bytes, completed, Result, ok, err, validate_transition,
}
use antflow_server.Store.World.{Db, World, lift, view, stmt, ◌>>=◌, wrapping, rewrap}
use antflow_server.Store.Executions.{open_row, set_state, update_state, save_result}
use antflow_server.Store.Frame.{Frame}
use antflow_server.Store.Frame.Rules.{Follows, Keeps-stmt_at, bind-Follows, keeps_rules}
use antflow_server.Store.Frame.Statements.Workers.{statement_rules}
use antflow_server.Store.Frame.Guarded.Keeping.{
  KeepsIf, KeepsIf-bind, KeepsIf-bind_at, KeepsIf-wrapping, KeepsIf-move, stays_rules,
}
use antflow_server.Store.Inversion.{wrapping-ok}
use antflow_server.Usecase.Completion.{mark_completed}

-- No open row of that id.
abbrev pub IsClosed : String → Db → Type 0
IsClosed id d = exists (open_row id) d.executions ≡ false

leaves_no_open :
    (id : String) (now : ℕ) (xs : List WorkflowExecution)
    → exists (open_row id) (update (open_row id) (set_state completed now) xs) ≡ false
leaves_no_open id now xs =
    exists-update (open_row id) (set_state completed now) xs (λ x h. ground arith)

-- Once the row is closed, UpdateState has returned no error.
update_state_closes :
    (id : String) (w : World)
    → (update_state id completed w).0 ≡ ok tt
    → IsClosed id (view (update_state id completed w).1)
unfolding update_state stmt ◌>>=◌
update_state_closes id w h = elim (Option-cases w.tx) [
  | inl e ↦ ground (arith, leaves_no_open id w.now w.db.executions)
  | inr (t, e) ↦ ground (arith, leaves_no_open id w.now t.executions)
]

rewrap-ok : (s : String) (r : Result (Unit {0})) {u : Unit {0}} → rewrap s r ≡ ok u → r ≡ ok tt
rewrap-ok s (ok u) h = refl
rewrap-ok s (err e) h = cc

module _ (F : Frame) where
  -- An UPDATE of a closed row is no change at all.
  closed-IsSafe :
      (id : String) (f : WorkflowExecution → WorkflowExecution) (d : Db)
      → IsClosed id d
      → F.Rel d (record d { executions = update (open_row id) f d.executions })
  closed-IsSafe id f d h = rw (update-no_hit (open_row id) f d.executions h) (F.rel_refl d)

  save_result-closed :
      (id : String) (r : Bytes) (w : World)
      → IsClosed id (view w)
      → Follows F w (save_result id r w).1
  unfolding save_result ◌>>=◌
  save_result-closed id r w h = Keeps-stmt_at F _ w (closed-IsSafe id _ (view w) h)

  -- Completing an execution keeps every frame, though frames know nothing of SaveResult, if the
  -- execution is in the state that ValidateTransition is asked about.
  pub mark_completed-KeepsIf :
      (exec : WorkflowExecution) (r : Bytes) → KeepsIf F exec.id exec.state (mark_completed exec r)
  unfolding mark_completed wrapping lift
  mark_completed-KeepsIf exec r =
      KeepsIf-bind F _ _ _ _ (search keeps_rules) (search stays_rules) λ v u c.
        KeepsIf-bind_at F _ _ _ _
          (KeepsIf-wrapping F _ _ _ _ (
            KeepsIf-move F _ _ completed
              (wrapping-ok _ (lift (validate_transition exec.state completed)) v c).0))
          λ w u e.
            bind-Follows F _ _ _ _
              (save_result-closed exec.id r _ (update_state_closes exec.id w (rewrap-ok _ _ e)))
              λ b. search statement_rules
