-- ===== src/System/Rows.antt =====
-- The rows of `workflow_execution` before and after a run: each is followed by a related one.
use antflow_server.Base.{
  Bool, true, ◌≡◌, subst, some, List, [], ◌∷◌, ◌++◌, String, update, find, Bool-cases, inl, inr,
  if◌then◌else◌,
}
use mathlib.Core.Option.{some-injective}
use antflow_server.Domain.{WorkflowExecution}
use antflow_server.Store.World.{Db, World}
use antflow_server.Store.Executions.{has_id}
use antflow_server.Store.Frame.{Frame, ExecutionChange}
use antflow_server.System.{Event, run, run-Rel}

-- Every row is followed, in place, by a related one; new rows come behind them.
abbrev pub Extends :
    (WorkflowExecution → WorkflowExecution → Type 0)
    → List WorkflowExecution
    → List WorkflowExecution
    → Type 0
Extends P [] ys = Unit
Extends P (x ∷ xs) [] = ⊥
Extends P (x ∷ xs) (y ∷ ys) = P x y × Extends P xs ys

-- A relation between a row and a later one.
pub record RowOrder (P : WorkflowExecution → WorkflowExecution → Type 0) : Type 0 where
  pub row_refl : (x : WorkflowExecution) → P x x
  pub row_trans : (x y z : WorkflowExecution) → P x y → P y z → P x z
  pub row_id : (x y : WorkflowExecution) → P x y → y.id ≡ x.id

-- One that every UPDATE but SaveResult's respects.
pub record RowFrame (P : WorkflowExecution → WorkflowExecution → Type 0) : Type 0 where
  pub order : RowOrder P
  pub row_change :
      (p : WorkflowExecution → Bool) (f : WorkflowExecution → WorkflowExecution)
      → {d : Db} → ExecutionChange d p f
      → (x : WorkflowExecution) → p x ≡ true
      → P x (f x)

module _ {P : WorkflowExecution → WorkflowExecution → Type 0} (R : RowOrder P) where
  pub Extends-refl : (xs : List WorkflowExecution) → Extends P xs xs
  Extends-refl [] = tt
  Extends-refl (x ∷ xs) = (R.row_refl x, Extends-refl xs)

  pub Extends-trans :
      (xs ys zs : List WorkflowExecution) → Extends P xs ys → Extends P ys zs → Extends P xs zs
  Extends-trans [] ys zs p q = tt
  Extends-trans (x ∷ xs) [] zs p q = absurd p
  Extends-trans (x ∷ xs) (y ∷ ys) [] p q = absurd q
  Extends-trans (x ∷ xs) (y ∷ ys) (z ∷ zs) p q =
      (R.row_trans x y z p.0 q.0, Extends-trans xs ys zs p.1 q.1)

  pub Extends-append : (xs ys : List WorkflowExecution) → Extends P xs (xs ++ ys)
  Extends-append [] ys = tt
  Extends-append (x ∷ xs) ys = (R.row_refl x, Extends-append xs ys)

  pub find-Extends :
      (id : String) (xs ys : List WorkflowExecution) (x : WorkflowExecution)
      → Extends P xs ys
      → find (has_id id) xs ≡ some x
      → (y : WorkflowExecution) × (find (has_id id) ys ≡ some y) × P x y
  find-Extends id [] ys x h e = cc
  find-Extends id (r ∷ xs) [] x h e = absurd h
  find-Extends id (r ∷ xs) (s ∷ ys) x h e = elim (Bool-cases (has_id id r)) [
    | inl hit ↦
        let same : some r ≡ some x = rw hit at e in
        (s, rw (R.row_id r s h.0, hit), subst (λ z. P z s) (some-injective r x same) h.0)
    | inr miss ↦ rw (R.row_id r s h.0, miss) (find-Extends id xs ys x h.1 (rw miss at e))
  ]

module _ {P : WorkflowExecution → WorkflowExecution → Type 0} (R : RowFrame P) where
  changed :
      (p : WorkflowExecution → Bool) (f : WorkflowExecution → WorkflowExecution)
      → {d : Db} → ExecutionChange d p f
      → (x : WorkflowExecution) → P x (if p x then f x else x)
  changed p f c x = elim (Bool-cases (p x)) [
    | inl e ↦ rw e (R.row_change p f c x e)
    | inr e ↦ rw e (R.order.row_refl x)
  ]

  Extends-update :
      (p : WorkflowExecution → Bool) (f : WorkflowExecution → WorkflowExecution)
      → {d : Db} → ExecutionChange d p f
      → (xs : List WorkflowExecution) → Extends P xs (update p f xs)
  Extends-update p f c [] = tt
  Extends-update p f c (x ∷ xs) = (changed p f c x, Extends-update p f c xs)

  abbrev row_frame : Frame
  row_frame = record {
    Rel = λ d d'. Extends P d.executions d'.executions;
    rel_refl = λ d. Extends-refl R.order d.executions;
    rel_trans = λ a b c. Extends-trans R.order a.executions b.executions c.executions;
    on_sequence = λ d n h. Extends-refl R.order d.executions;
    on_checkpoints = λ d cs n. Extends-refl R.order d.executions;
    on_namespace = λ d x h. Extends-refl R.order d.executions;
    on_definition = λ d x h. Extends-refl R.order d.executions;
    on_deactivate = λ d p. Extends-refl R.order d.executions;
    on_step = λ d x h. Extends-refl R.order d.executions;
    on_execution = λ d x h. Extends-append R.order d.executions _;
    on_change = λ d p f c. Extends-update p f c d.executions;
    on_task = λ d x h. Extends-refl R.order d.executions;
    on_task_update = λ d p f k. Extends-refl R.order d.executions;
    on_task_delete = λ d p. Extends-refl R.order d.executions;
    on_compensation = λ d x h. Extends-refl R.order d.executions;
    on_compensation_update = λ d p f k. Extends-refl R.order d.executions;
    on_compensation_delete = λ d p. Extends-refl R.order d.executions;
    on_event = λ d row h. Extends-refl R.order d.executions;
  }

  pub run-row :
      (w : World) (es : List Event) (id : String) (x : WorkflowExecution)
      → find (has_id id) w.db.executions ≡ some x
      → (y : WorkflowExecution) × (find (has_id id) (run w es).db.executions ≡ some y) × P x y
  run-row w es id x e = find-Extends R.order id _ _ x (run-Rel row_frame w es) e
