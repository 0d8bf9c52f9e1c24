-- ===== src/Store/Frame/Guarded/Keeping.antt =====
-- Keeping a frame by an action that relies on the state of an execution.
use antflow_server.Base.{
  exists, arith, str_eq_refl, Bool, true, false, ◌≡◌, refl, sym, ◌∙◌, ap, subst, some, String, find,
  find-new, find-passes, str_eq_iff, if◌then◌else◌,
}
use mathlib.Core.Option.{some-injective}
use antflow_server.Domain.{WorkflowExecution, State, ok, validate_transition, not_found}
use antflow_server.Domain.Moves.{Moves, allowed}
use antflow_server.Store.World.{
  Db, World, M, attempt, wrapping, ◌>>=◌, view, spend, query, insert_if,
}
use antflow_server.Store.Inversion.{
  view-write, stmt-view, wrapping-ok, bind-ok, query-ok, or_throw-ok,
}
use antflow_server.Store.Executions.{has_id}
use antflow_server.Store.Executions
use antflow_server.Store.Frame.{Frame}
use antflow_server.Store.Frame.Rules.{Keeps, Follows, continue_at-Follows}
use antflow_server.Store.Frame.Statements.{update_state-Follows}
use antflow_server.Store.Frame.Guarded.{
  Stays, HasState, Stays-bind, Stays-gets, Stays-ignore, Stays-lift, Stays-or_throw, Stays-pure,
  Stays-query, Stays-wrapping, append-Stays, outputs-Stays, save-Stays, step_done-Stays,
}

module _ (F : Frame) (id : String) (s : State) where
  -- The action keeps the frame where the execution is in that state.
  pub record KeepsIf {A : Type 0} (m : M A) : Type 0 where
    pub at : (w : World) → HasState id s (view w) → Follows F w (m w).1

  module _ {A : Type 0} where
    pub KeepsIf-always : (m : M A) → Keeps F m → KeepsIf m
    KeepsIf-always m k = record { at = λ w h. k.at w }

    pub KeepsIf-wrapping : (t : String) (m : M A) → KeepsIf m → KeepsIf (wrapping t m)
    unfolding wrapping
    KeepsIf-wrapping t m k = record { at = λ w h. k.at w h }

    pub KeepsIf-attempt : (m : M A) → KeepsIf m → KeepsIf (attempt m)
    unfolding attempt
    KeepsIf-attempt m k = record { at = λ w h. k.at w h }

    pub KeepsIf-if : (b : Bool) (m n : M A) → KeepsIf m → KeepsIf n → KeepsIf (if b then m else n)
    KeepsIf-if true m n k l = k
    KeepsIf-if false m n k l = l

  module _ {A B : Type 0} where
    -- Where the first action leaves the state, the rest may use it, and what the first returned.
    pub KeepsIf-bind :
        (m : M A) (f : A → M B)
        → Keeps F m
        → Stays id s m
        → ((w : World) (a : A) → (m w).0 ≡ ok a → KeepsIf (f a))
        → KeepsIf (m >>= f)
    unfolding ◌>>=◌
    KeepsIf-bind m f k l n = record {
      at = λ w h.
          continue_at-Follows F w (m w).1 (m w).0 f (k.at w)
            (λ a e. (n w a e).at (m w).1 (l.at w h));
    }

    pub KeepsIf-then :
        (m : M A) (f : A → M B)
        → Keeps F m
        → Stays id s m
        → ((a : A) → KeepsIf (f a))
        → KeepsIf (m >>= f)
    KeepsIf-then m f k l n = KeepsIf-bind m f k l λ w a e. n a

    -- Where the first action uses the state, the rest may use what it left.
    pub KeepsIf-bind_at :
        (m : M A) (f : A → M B)
        → KeepsIf m
        → ((w : World) (a : A) → (m w).0 ≡ ok a → Follows F (m w).1 (f a (m w).1).1)
        → KeepsIf (m >>= f)
    unfolding ◌>>=◌
    KeepsIf-bind_at m f k l = record {
      at = λ w h. continue_at-Follows F w (m w).1 (m w).0 f (k.at w h) (l w);
    }

    -- Where the first action uses the state, the rest must do without.
    pub KeepsIf-before :
        (m : M A) (f : A → M B) → KeepsIf m → ((a : A) → Keeps F (f a)) → KeepsIf (m >>= f)
    unfolding ◌>>=◌
    KeepsIf-before m f k l = record {
      at = λ w h. continue_at-Follows F w (m w).1 (m w).0 f (k.at w h) (λ a e. (l a).at (m w).1);
    }

  -- The transition that `ValidateTransition` has just accepted.
  pub KeepsIf-move :
      (t : State) → validate_transition s t ≡ ok tt → KeepsIf (Executions.update_state id t)
  KeepsIf-move t e = record {
    at = λ w h.
        update_state-Follows F id t w (λ x f o k. subst (λ z. Moves z t) (sym (h x f)) (allowed e));
  }

-- A row that the SELECT returned is in the state it shows.
pub get_by_id-HasState :
    (t id : String) (w : World) (x : WorkflowExecution)
    → (wrapping t (Executions.get_by_id id) w).0 ≡ ok x
    → HasState x.id x.state (view (wrapping t (Executions.get_by_id id) w).1)
unfolding Executions.get_by_id
get_by_id-HasState t id w x h =
    let (h1, q1) = wrapping-ok t (Executions.get_by_id id) w h in
    let (o, h2, q2) = bind-ok (query _) _ w h1 in
    let (f, q3) = query-ok _ w h2 in
    let (r, q4) = or_throw-ok not_found o (query _ w).1 (ap (λ z. z.0) (sym q2) ∙ h1) in
    let found : find (has_id id) (view w).executions ≡ some x = f ∙ r in
    let same : view (wrapping t (Executions.get_by_id id) w).1 ≡ view w =
      ap view (q1 ∙ ap (λ z. z.1) q2 ∙ q4 ∙ q3) ∙ view-write (view w) (spend w) in
    let mine = (str_eq_iff x.id id).0 (find-passes (has_id id) _ found) in
    subst (HasState x.id x.state) (sym same) (λ y e.
      ap (λ z. z.state)
        (some-injective y x
          (sym (subst (λ i. find (has_id i) (view w).executions ≡ some y) mine e) ∙ found)))

insert_if-some : (b : Bool) (d : Db) {e : Db} → insert_if b d ≡ some (tt, e) → (b ≡ true) × (d ≡ e)
insert_if-some true d h = (refl, ap (λ x. x.1) (some-injective (tt, d) _ h))
insert_if-some false d h = absurd cc

-- A row that the INSERT has just brought is in the state it was given.
pub create-HasState :
    (t : String) (w : World) (x : WorkflowExecution)
    → (wrapping t (Executions.create x) w).0 ≡ ok tt
    → HasState x.id x.state (view (wrapping t (Executions.create x) w).1)
unfolding Executions.create
create-HasState t w x h =
    let (h1, q) = wrapping-ok t (Executions.create x) w h in
    let (fits, e) = insert_if-some _ _ (stmt-view _ w h1) in
    let new : exists (has_id x.id) (view w).executions ≡ false = ground (arith, fits) in
    subst (HasState x.id x.state) (e ∙ sym (ap view q)) λ y f.
      (let row = Executions.execution_row x in
        let g = find-new (has_id x.id) (view w).executions row new (str_eq_refl x.id) in
        ap (λ z. z.state) (some-injective y row (sym f ∙ g)))

pub ruleset stays_rules = (
  Stays-pure, Stays-lift, Stays-gets, Stays-or_throw, Stays-wrapping, Stays-ignore, Stays-query,
  Stays-bind, append-Stays, save-Stays, outputs-Stays, step_done-Stays,
)
