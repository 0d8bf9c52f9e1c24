-- ===== src/System/Moves.antt =====
-- The state of an execution in any run of the server, against the state machine of
-- domain/workflow/statemechine.go.
pub mod Runs
use antflow_server.Base.{
  ℕ, Bool, true, false, ◌≡◌, refl, sym, ◌∙◌, subst, none, some, List, [], ◌∷◌, ◌++◌, String, arith,
  str_eq, str_eq_iff, str_eq_refl, exists, find, update, Bool-cases, inl, inr, if◌then◌else◌,
}
use antflow_server.Domain.{
  WorkflowExecution, State, created, running, compensating, completed, failed, cancelled, scheduled,
  ok, validate_transition,
}
use antflow_server.Domain.Moves.{
  Moves, allowed, given_up, Travels, stays, moves, Travels-trans, RollsBack, Travels-RollsBack,
}
use antflow_server.Store.World.{Db, World}
use antflow_server.Store.Executions.{
  has_id, is_open, is_execution_state, execution_row, execution_fits, is_expirable, set_state,
}
use antflow_server.Store.Frame.{
  Frame, ExecutionChange, to_state, cursor, step_done, undo_done, undo_total, error_text, expire,
}
use antflow_server.System.{Event, run, run-Rel}
use antflow_server.System.Rows.{
  RowOrder, Extends, Extends-refl, Extends-trans, Extends-append, find-Extends,
}

-- PRIMARY KEY (id) and the CHECK on the state hold of all rows.
abbrev pub FitsAll : List WorkflowExecution → Type 0
FitsAll [] = Unit {0}
FitsAll (x ∷ xs) =
    (exists (has_id x.id) xs ≡ false) × (is_execution_state x.state ≡ true) × FitsAll xs

pub record Moved (x y : WorkflowExecution) : Type 0 where
  pub id : y.id ≡ x.id
  pub state : Travels x.state y.state

abbrev pub moved_order : RowOrder Moved
moved_order = record {
  row_refl = λ x. record { id = refl; state = stays };
  row_trans = λ x y z p q. record { id = q.id ∙ p.id; state = Travels-trans p.state q.state };
  row_id = λ x y h. h.id;
}

not_scheduled : (s : State) → validate_transition s scheduled ≡ ok tt → ⊥
not_scheduled created h = cc
not_scheduled running h = cc
not_scheduled compensating h = cc
not_scheduled completed h = cc
not_scheduled failed h = cc
not_scheduled cancelled h = cc
not_scheduled scheduled h = cc

allowed-IsState : (s t : State) → validate_transition s t ≡ ok tt → is_execution_state t ≡ true
allowed-IsState s created h = refl
allowed-IsState s running h = refl
allowed-IsState s compensating h = refl
allowed-IsState s completed h = refl
allowed-IsState s failed h = refl
allowed-IsState s cancelled h = refl
allowed-IsState s scheduled h = absurd (not_scheduled s h)

Moves-IsState : {s t : State} → Moves s t → is_execution_state t ≡ true
Moves-IsState (allowed h) = allowed-IsState _ _ h
Moves-IsState given_up = refl

Travels-IsState :
    {s t : State} → Travels s t → is_execution_state s ≡ true → is_execution_state t ≡ true
Travels-IsState stays h = h
Travels-IsState (moves p m) h = Moves-IsState m

exists-find :
    (p : WorkflowExecution → Bool) (xs : List WorkflowExecution)
    → exists p xs ≡ false
    → find p xs ≡ none
exists-find p [] h = refl
exists-find p (x ∷ xs) h = ground (arith, exists-find p xs)

module _ (p : WorkflowExecution → Bool) (f : WorkflowExecution → WorkflowExecution) where
  exists-update_id :
      (i : String) (xs : List WorkflowExecution)
      → ((x : WorkflowExecution) → (f x).id ≡ x.id)
      → exists (has_id i) (update p f xs) ≡ exists (has_id i) xs
  exists-update_id i [] h = refl
  exists-update_id i (x ∷ xs) h = ground (arith, h x, exists-update_id i xs h)

  -- Every row that the UPDATE hits moves.
  abbrev pub HitsMove : List WorkflowExecution → Type 0
  HitsMove xs =
      (x : WorkflowExecution)
      → find (has_id x.id) xs ≡ some x
      → is_execution_state x.state ≡ true
      → p x ≡ true
      → Moved x (f x)

  tail-HitsMove :
      (x : WorkflowExecution) (xs : List WorkflowExecution)
      → exists (has_id x.id) xs ≡ false
      → HitsMove (x ∷ xs)
      → HitsMove xs
  tail-HitsMove x xs u h y e k q = elim (Bool-cases (has_id y.id x)) [
    | inl hit ↦
        let same = (str_eq_iff x.id y.id).0 hit in
        absurd (
          let n = exists-find (has_id x.id) xs u in
          let m = subst (λ i. find (has_id i) xs ≡ some y) (sym same) e in cc)
    | inr miss ↦ h y (rw miss e) k q
  ]

  hit-Moved :
      (x : WorkflowExecution) (xs : List WorkflowExecution)
      → is_execution_state x.state ≡ true
      → HitsMove (x ∷ xs)
      → Moved x (if p x then f x else x)
  hit-Moved x xs k h = elim (Bool-cases (p x)) [
    | inl e ↦ rw e (h x (rw (str_eq_refl x.id) refl) k e)
    | inr e ↦ rw e (record { id = refl; state = stays })
  ]

  pub update-Extends :
      (xs : List WorkflowExecution)
      → ((x : WorkflowExecution) → (f x).id ≡ x.id)
      → FitsAll xs
      → HitsMove xs
      → FitsAll (update p f xs) × Extends Moved xs (update p f xs)
  update-Extends [] i w h = (tt, tt)
  update-Extends (x ∷ xs) i w h =
      let m = hit-Moved x xs w.1 h in
      let (r, e) = update-Extends xs i w.2 (tail-HitsMove x xs w.0 h) in
      (
        (
          exists-update_id _ xs i ∙ subst (λ j. exists (has_id j) xs ≡ false) (sym m.id) w.0,
          Travels-IsState m.state w.1,
          r,
        ),
        (m, e),
      )
