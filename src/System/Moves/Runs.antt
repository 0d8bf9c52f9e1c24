-- ===== src/System/Moves/Runs.antt =====
-- Any run of the server moves the states by the machine.
use antflow_server.Base.{
  ℕ, Bool, true, false, ◌≡◌, refl, sym, subst, some, List, [], ◌∷◌, ◌++◌, String, arith, str_eq,
  str_eq_iff, exists, find, Bool-cases, inl, inr,
}
use antflow_server.Domain.{
  WorkflowExecution, State, created, running, compensating, completed, failed, cancelled, scheduled,
}
use antflow_server.Domain.Moves.{
  Moves, allowed, given_up, Travels, stays, moves, RollsBack, Travels-RollsBack,
}
use antflow_server.Store.World.{Db, World}
use antflow_server.Store.Executions.{
  has_id, is_open, is_execution_state, execution_row, execution_fits, is_expirable, set_state,
}
use antflow_server.Store.Frame.{
  Frame, ExecutionChange, to_state, cursor, step_done, undo_done, undo_total, error_text, expire,
}
use antflow_server.System.{Event, run, run-Rel}
use antflow_server.System.Rows.{Extends, Extends-refl, Extends-trans, Extends-append, find-Extends}
use antflow_server.System.Moves.{FitsAll, HitsMove, Moved, moved_order, update-Extends}

change-id :
    (p : WorkflowExecution → Bool) (f : WorkflowExecution → WorkflowExecution)
    → {d : Db} → ExecutionChange d p f
    → (x : WorkflowExecution) → (f x).id ≡ x.id
change-id _ _ (to_state i s now c) x = ground arith
change-id _ _ (cursor i n now) x = refl
change-id _ _ (step_done i now) x = refl
change-id _ _ (undo_done i now) x = refl
change-id _ _ (undo_total i n now) x = refl
change-id _ _ (error_text i s now) x = refl
change-id _ _ (expire now) x = refl

set_state-state : (s : State) (now : ℕ) (x : WorkflowExecution) → (set_state s now x).state ≡ s
set_state-state s now x = ground arith

overdue-Moves : (s : State) → is_expirable s ≡ true → Moves s failed
overdue-Moves created h = given_up
overdue-Moves running h = allowed refl
overdue-Moves compensating h = allowed refl
overdue-Moves completed h = absurd cc
overdue-Moves failed h = absurd cc
overdue-Moves cancelled h = absurd cc
overdue-Moves scheduled h = absurd cc

change-HitsMove :
    (p : WorkflowExecution → Bool) (f : WorkflowExecution → WorkflowExecution)
    → (d : Db) → ExecutionChange d p f
    → HitsMove p f d.executions
change-HitsMove _ _ d (to_state i s now c) x e k h =
    let hit : has_id i x ≡ true = ground arith in
    let opened : is_open x.state ≡ true = ground arith in
    let same = (str_eq_iff x.id i).0 hit in
    let m = c x (subst (λ j. find (has_id j) d.executions ≡ some x) same e) opened k in
    record {
      id = change-id _ _ {d = d} (to_state i s now c) x;
      state = subst (Travels x.state) (sym (set_state-state s now x)) (moves stays m);
    }
change-HitsMove _ _ d (cursor i n now) x e k h = record { id = refl; state = stays }
change-HitsMove _ _ d (step_done i now) x e k h = record { id = refl; state = stays }
change-HitsMove _ _ d (undo_done i now) x e k h = record { id = refl; state = stays }
change-HitsMove _ _ d (undo_total i n now) x e k h = record { id = refl; state = stays }
change-HitsMove _ _ d (error_text i s now) x e k h = record { id = refl; state = stays }
change-HitsMove _ _ d (expire now) x e k h = record {
  id = refl;
  state = moves stays (overdue-Moves x.state (ground arith));
}

str_eq_flip : (s t : String) → str_eq s t ≡ false → str_eq t s ≡ false
str_eq_flip s t h = elim (Bool-cases (str_eq t s)) [
  | inl e ↦ absurd (let q = (str_eq_iff s t).1 (sym ((str_eq_iff t s).0 e)) in cc)
  | inr e ↦ e
]

exists-append_false :
    (i : String) (xs : List WorkflowExecution) (x : WorkflowExecution)
    → exists (has_id i) xs ≡ false
    → str_eq x.id i ≡ false
    → exists (has_id i) (xs ++ x ∷ []) ≡ false
exists-append_false i [] x h e = rw e refl
exists-append_false i (y ∷ xs) x h e = ground (arith, exists-append_false i xs x)

FitsAll-append :
    (xs : List WorkflowExecution) (x : WorkflowExecution)
    → exists (has_id x.id) xs ≡ false
    → is_execution_state x.state ≡ true
    → FitsAll xs
    → FitsAll (xs ++ x ∷ [])
FitsAll-append [] x e k w = (refl, k, tt)
FitsAll-append (y ∷ xs) x e k w =
    let apart : str_eq y.id x.id ≡ false = ground arith in
    (
      exists-append_false y.id xs x w.0 (str_eq_flip y.id x.id apart),
      w.1,
      FitsAll-append xs x (ground arith) k w.2,
    )

fits-new :
    (d : Db) (x : WorkflowExecution)
    → execution_fits x d ≡ true
    → exists (has_id x.id) d.executions ≡ false
unfolding execution_fits
fits-new d x h = ground arith

fits-state :
    (d : Db) (x : WorkflowExecution) → execution_fits x d ≡ true → is_execution_state x.state ≡ true
unfolding execution_fits
fits-state d x h = ground arith

abbrev moves_frame : Frame
moves_frame = record {
  Rel = λ d d'.
      FitsAll d.executions → FitsAll d'.executions × Extends Moved d.executions d'.executions;
  rel_refl = λ d w. (w, Extends-refl moved_order d.executions);
  rel_trans = λ a b c p q w.
      (let (u, e) = p w in
        let (v, f) = q u in
        (v, Extends-trans moved_order a.executions b.executions c.executions e f));
  on_sequence = λ d n h w. (w, Extends-refl moved_order d.executions);
  on_checkpoints = λ d cs n w. (w, Extends-refl moved_order d.executions);
  on_namespace = λ d x h w. (w, Extends-refl moved_order d.executions);
  on_definition = λ d x h w. (w, Extends-refl moved_order d.executions);
  on_deactivate = λ d p w. (w, Extends-refl moved_order d.executions);
  on_step = λ d x h w. (w, Extends-refl moved_order d.executions);
  on_execution = λ d x h w. (
    FitsAll-append d.executions (execution_row x) (fits-new d x h) (fits-state d x h) w,
    Extends-append moved_order d.executions _,
  );
  on_change =
      λ d p f c w. update-Extends p f d.executions (change-id p f c) w (change-HitsMove p f d c);
  on_task = λ d x h w. (w, Extends-refl moved_order d.executions);
  on_task_update = λ d p f k w. (w, Extends-refl moved_order d.executions);
  on_task_delete = λ d p w. (w, Extends-refl moved_order d.executions);
  on_compensation = λ d x h w. (w, Extends-refl moved_order d.executions);
  on_compensation_update = λ d p f k w. (w, Extends-refl moved_order d.executions);
  on_compensation_delete = λ d p w. (w, Extends-refl moved_order d.executions);
  on_event = λ d row h w. (w, Extends-refl moved_order d.executions);
}

-- The executions of a database whose table keeps its PRIMARY KEY and its CHECK on the state move by
-- the state machine alone, whichever calls are made, at whatever times, and whichever statements
-- fail: between the tables before and after any run, an execution has made a chain of transitions
-- that ValidateTransition accepts, but that a CREATED one may also have FAILED at once; and the
-- table still keeps the two constraints.
pub run-Travels :
    (w : World) (es : List Event) (id : String) (x : WorkflowExecution)
    → FitsAll w.db.executions
    → find (has_id id) w.db.executions ≡ some x
    → FitsAll (run w es).db.executions
      × ((y : WorkflowExecution) × (find (has_id id) (run w es).db.executions ≡ some y)
          × Travels x.state y.state)
run-Travels w es id x fits e =
    let (after, ext) = run-Rel moves_frame w es fits in
    let (y, f, m) = find-Extends moved_order id _ _ x ext e in (after, (y, f, m.state))

-- A rollback is never undone: once an execution is COMPENSATING, it is COMPENSATING, FAILED or
-- CANCELLED after any run of the server, never COMPLETED and never RUNNING again.
pub run-RollsBack :
    (w : World) (es : List Event) (id : String) (x : WorkflowExecution)
    → FitsAll w.db.executions
    → find (has_id id) w.db.executions ≡ some x
    → x.state ≡ compensating
    → (y : WorkflowExecution) × (find (has_id id) (run w es).db.executions ≡ some y)
      × RollsBack y.state
run-RollsBack w es id x fits e h =
    let (_, (y, f, t)) = run-Travels w es id x fits e in (y, f, Travels-RollsBack t (inl h))
