-- ===== src/Store/Frame/Guarded.antt =====
-- Keeping a frame where the state of one execution is known: between the SELECT of its row and the
-- UPDATE of its state no other statement of the transaction has changed that state.
pub mod Keeping
use antflow_server.Base.{
  ℕ, exists, arith, str_eq_refl, Bool, true, false, ◌||◌, ◌≡◌, refl, sym, ◌∙◌, ap, subst, Option,
  none, some, String, find, update, find-update, find-new, find-passes, str_eq, str_eq_iff,
  Bool-cases, Option-cases, inl, inr, if◌then◌else◌,
}
use mathlib.Core.Option.{map, some-injective}
use antflow_server.Domain.{
  WorkflowExecution, State, Bytes, EventType, Err, Result, ok, err, validate_transition, not_found,
}
use antflow_server.Domain.Moves.{Moves, allowed}
use antflow_server.Store.World.{
  Db, World, M, pure, throw, lift, gets, attempt, wrapping, ignore, or_throw, ◌>>=◌, continue, view,
  spend, next_fault, answer, stmt, query, insert_if, answer_base, base_stmt,
}
use antflow_server.Store.Inversion.{
  view-write, stmt-view, wrapping-ok, bind-ok, query-ok, or_throw-ok,
}
use antflow_server.Store.Executions.{has_id}
use antflow_server.Store.Executions
use antflow_server.Store.History
use antflow_server.Store.Checkpoints
use antflow_server.Store.Frame.{Frame}
use antflow_server.Store.Frame.Rules.{Keeps, Follows, continue_at-Follows}
use antflow_server.Store.Frame.Statements.{update_state-Follows}

map-some :
    (o : Option WorkflowExecution) (f : WorkflowExecution → WorkflowExecution)
    {x : WorkflowExecution}
    → map f o ≡ some x
    → (y : WorkflowExecution) × (o ≡ some y) × (f y ≡ x)
map-some none f h = absurd cc
map-some (some y) f h = (y, refl, cc)

-- The row of that id, if there is one, is in that state.
abbrev pub HasState : String → State → Db → Type 0
HasState id s d = (x : WorkflowExecution) → find (has_id id) d.executions ≡ some x → x.state ≡ s

module _ (id : String) (s : State) where
  -- The action leaves that state as it is.
  pub record Stays {A : Type 0} (m : M A) : Type 0 where
    pub at : (w : World) → HasState id s (view w) → HasState id s (view (m w).1)

  module _ {A : Type 0} where
    pub Stays-pure : (a : A) → Stays (pure a)
    unfolding pure
    Stays-pure a = record { at = λ w h. h }

    pub Stays-lift : (r : Result A) → Stays (lift r)
    unfolding lift
    Stays-lift r = record { at = λ w h. h }

    pub Stays-gets : (f : World → A) → Stays (gets f)
    unfolding gets
    Stays-gets f = record { at = λ w h. h }

    pub Stays-or_throw : (e : Err) (o : Option A) → Stays (or_throw e o)
    unfolding or_throw throw pure
    Stays-or_throw e none = record { at = λ w h. h }
    Stays-or_throw e (some a) = record { at = λ w h. h }

    pub Stays-wrapping : (t : String) (m : M A) → Stays m → Stays (wrapping t m)
    unfolding wrapping
    Stays-wrapping t m k = record { at = λ w h. k.at w h }

    pub Stays-attempt : (m : M A) → Stays m → Stays (attempt m)
    unfolding attempt
    Stays-attempt m k = record { at = λ w h. k.at w h }

    -- What a statement writes, if it writes.
    abbrev pub Spares : Option (A × Db) → Type 0
    Spares none = Unit {0}
    Spares (some (a, d)) = HasState id s d

    answer-HasState :
        (o : Option (A × Db)) (w : World)
        → HasState id s (view w)
        → Spares o
        → HasState id s (view (answer o w).1)
    answer-HasState none w h k = h
    answer-HasState (some (a, d)) w h k = subst (HasState id s) (sym (view-write d w)) k

    pub Stays-stmt :
        (f : Db → Option (A × Db)) → ((d : Db) → HasState id s d → Spares (f d)) → Stays (stmt f)
    unfolding stmt
    Stays-stmt f k = record {
      at = λ w h. elim (Bool-cases (next_fault w.faults || w.aborted)) [
        | inl e ↦ rw e h
        | inr e ↦ rw e (answer-HasState (f (view w)) (spend w) h (k (view w) h))
      ];
    }

    -- A statement on the pool changes the tables in force only where no transaction is open.
    answer_base-HasState :
        (o : Option (A × Db)) (w : World)
        → HasState id s (view w)
        → (w.tx ≡ none → Spares o)
        → HasState id s (view (answer_base o w).1)
    answer_base-HasState none w h k = h
    answer_base-HasState (some (a, d)) w h k = elim (Option-cases w.tx) [
      | inl e ↦ rw e (k e)
      | inr (t, e) ↦ rw e (rw e at h)
    ]

    pub Stays-base_stmt :
        (f : Db → Option (A × Db))
        → ((d : Db) → HasState id s d → Spares (f d))
        → Stays (base_stmt f)
    unfolding base_stmt
    Stays-base_stmt f k = record {
      at = λ w h. elim (Bool-cases (next_fault w.faults)) [
        | inl e ↦ rw e h
        | inr e ↦ rw e (answer_base-HasState (f w.db) (spend w) h (λ t. k w.db (rw t at h)))
      ];
    }

    pub Stays-query : (f : Db → A) → Stays (query f)
    unfolding query
    Stays-query f = Stays-stmt (λ d. some (f d, d)) λ d h. h

  module _ {A B : Type 0} where
    continue-HasState :
        (r : Result A) (f : A → M B) (w : World)
        → HasState id s (view w)
        → ((a : A) → Stays (f a))
        → HasState id s (view (continue r f w).1)
    continue-HasState (ok a) f w h k = (k a).at w h
    continue-HasState (err e) f w h k = h

    pub Stays-bind : (m : M A) (f : A → M B) → Stays m → ((a : A) → Stays (f a)) → Stays (m >>= f)
    unfolding ◌>>=◌
    Stays-bind m f k l = record { at = λ w h. continue-HasState (m w).0 f (m w).1 (k.at w h) l }

  pub Stays-ignore : {A : Type 0} (m : M A) → Stays m → Stays (ignore m)
  unfolding ignore
  Stays-ignore m k = Stays-bind (attempt m) _ (Stays-attempt m k) λ r. Stays-pure tt

  insert_if-Spares : (b : Bool) (d : Db) → HasState id s d → Spares (insert_if b d)
  insert_if-Spares true d h = h
  insert_if-Spares false d h = tt

  pub append-Stays :
      (x : String) (i : Option ℕ) (n : Option String) (e : EventType) (p : Bytes) (t : String)
      → Stays (History.append x i n e p t)
  unfolding History.append
  append-Stays x i n e p t =
      Stays-bind (gets _) _ (Stays-gets _) λ now. Stays-stmt _ λ d h. insert_if-Spares _ _ h

  pub save-Stays : (x : String) (i : ℕ) (b : Bytes) → Stays (Checkpoints.save x i b)
  unfolding Checkpoints.save Checkpoints.save_row
  save-Stays x i b =
      Stays-bind (gets _) _ (Stays-gets _) λ now. Stays-base_stmt _ λ d h. insert_if-Spares _ _ h

  pub outputs-Stays : (x : String) → Stays (History.get_step_outputs x)
  unfolding History.get_step_outputs
  outputs-Stays x = Stays-query _

  counted-HasState :
      (f : WorkflowExecution → WorkflowExecution) (d : Db)
      → ((x : WorkflowExecution) → (f x).id ≡ x.id)
      → ((x : WorkflowExecution) → (f x).state ≡ x.state)
      → HasState id s d
      → HasState id s (record d { executions = update (has_id id) f d.executions })
  counted-HasState f d a b h x e =
      let q = find-update (has_id id) f d.executions (λ y. ap (λ i. str_eq i id) (a y)) in
      let (y, p, r) = map-some (find (has_id id) d.executions) f (sym q ∙ e) in
      subst (λ z. z.state ≡ s) r (b y ∙ h y p)

  pub step_done-Stays : Stays (Executions.increment_completed_steps id)
  unfolding Executions.increment_completed_steps
  step_done-Stays = Stays-bind (gets _) _ (Stays-gets _) λ now.
      Stays-bind (stmt _) _ (Stays-stmt _ λ d. counted-HasState _ d (λ x. refl) (λ x. refl))
        λ row. Stays-or_throw _ row
