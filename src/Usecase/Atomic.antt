-- ===== src/Usecase/Atomic.antt =====
-- The service, one transaction for one request: what a failed request leaves behind.
use antflow_server.Base.{
  ℕ, Option, none, some, ◌≡◌, ◌∙◌, refl, List, [], ◌∷◌, String, Bool-cases, inl, inr, str_eq,
}
use antflow_server.Domain.{Bytes, Err, Result, ok, err}
use antflow_server.Store.World.{
  Db, World, M, next_fault, run_in_tx, base_query, base_stmt, drain, ◌>>=◌, pure, throw, or_throw,
  wrapping, new_uuid, gets, continue, notify,
}
use antflow_server.Store.Covered.{SameTables, SameTables-refl, Covered, run_in_tx_atomic}
use antflow_server.Store.Definitions
use antflow_server.Usecase.Registration.{parse_type, register_workflow}
use antflow_server.Usecase.Execution.{new_execution, start_workflow, cancel_workflow}
use antflow_server.Usecase.Saga.{notify_after, complete_compensation_task}
use antflow_server.Usecase.Completion.{complete_task}
use antflow_server.Usecase.Bodies.{
  Covered-complete_task_body, Covered-complete_compensation_body, Covered-start_body,
  Covered-cancel_body, Covered-register_body,
}

-- What the caller of an action that fails finds in the tables.
record Atomic {A : Type 0} (m : M A) : Type 0 where
  at : (w : World) {e : Err} → (m w).0 ≡ err e → SameTables w.db (m w).1.db

-- An action that cannot fail.
record Total {A : Type 0} (m : M A) : Type 0 where
  never : (w : World) {e : Err} → ¬ ((m w).0 ≡ err e)

-- An action that changes no table.
record Reads {A : Type 0} (m : M A) : Type 0 where
  at : (w : World) → (m w).1.db ≡ w.db

module _ {A : Type 0} where
  Atomic-run_in_tx : (m : M A) → Covered m → Atomic (run_in_tx m)
  Atomic-run_in_tx m k = record { at = λ w p. run_in_tx_atomic m w k p }

module _ {A B : Type 0} where
  then-Atomic :
      (v w : World) (r : Result A) (f : A → M B) {e : Err}
      → ((x : Err) → r ≡ err x → SameTables v.db w.db)
      → ((a : A) → Total (f a))
      → (continue r f w).0 ≡ err e
      → SameTables v.db (continue r f w).1.db
  then-Atomic v w (ok a) f h t p = absurd ((t a).never w p)
  then-Atomic v w (err x) f h t p = h x refl

  Atomic-then : (m : M A) (f : A → M B) → Atomic m → ((a : A) → Total (f a)) → Atomic (m >>= f)
  unfolding ◌>>=◌
  Atomic-then m f k t = record { at = λ w p. then-Atomic w (m w).1 (m w).0 f (λ x q. k.at w q) t p }

  read-Atomic :
      (v w : World) (r : Result A) (f : A → M B) {e : Err}
      → w.db ≡ v.db
      → ((a : A) → Atomic (f a))
      → (continue r f w).0 ≡ err e
      → SameTables v.db (continue r f w).1.db
  read-Atomic v w (ok a) f q k p = rw (← q) ((k a).at w p)
  read-Atomic v w (err x) f q k p = rw q (SameTables-refl v.db)

  Atomic-after : (m : M A) (f : A → M B) → Reads m → ((a : A) → Atomic (f a)) → Atomic (m >>= f)
  unfolding ◌>>=◌
  Atomic-after m f r k = record { at = λ w p. read-Atomic w (m w).1 (m w).0 f (r.at w) k p }

  read-Reads :
      (w : World) (r : Result A) (f : A → M B)
      → ((a : A) → Reads (f a))
      → (continue r f w).1.db ≡ w.db
  read-Reads w (ok a) f k = (k a).at w
  read-Reads w (err x) f k = refl

  Reads-bind : (m : M A) (f : A → M B) → Reads m → ((a : A) → Reads (f a)) → Reads (m >>= f)
  unfolding ◌>>=◌
  Reads-bind m f r k = record { at = λ w. read-Reads (m w).1 (m w).0 f k ∙ r.at w }

Total-pure : {A : Type 0} (a : A) → Total (pure a)
unfolding pure
Total-pure a = record { never = λ w p. absurd cc }

Total-notify : (q : String) → Total (notify q)
unfolding notify
Total-notify q = record { never = λ w p. absurd cc }

Total-drain : (id : String) → Total (drain id)
unfolding drain
Total-drain id = record { never = λ w p. absurd cc }

Total-notify_after : (q : String) → Total (notify_after q)
unfolding notify_after
Total-notify_after q = elim (Bool-cases (str_eq q "")) [
  | inl e ↦ rw e (Total-pure tt)
  | inr e ↦ rw e (Total-notify q)
]

-- An action that cannot fail, then another.
module _ {A B : Type 0} where
  Total-bind : (m : M A) (f : A → M B) → Total m → ((a : A) → Total (f a)) → Total (m >>= f)
  unfolding ◌>>=◌
  Total-bind m f t k = record {
    never = λ w p. next-never (m w).1 (m w).0 f (λ x q. t.never w q) k p;
  }
    where
      next-never :
          (w : World) (r : Result A) (f : A → M B) {e : Err}
          → ((x : Err) → ¬ (r ≡ err x))
          → ((a : A) → Total (f a))
          → ¬ ((continue r f w).0 ≡ err e)
      next-never w (ok a) f h k p = (k a).never w p
      next-never w (err x) f h k p = h x refl

Reads-new_uuid : Reads new_uuid
unfolding new_uuid
Reads-new_uuid = record { at = λ w. refl }

module _ {A : Type 0} where
  Reads-gets : (f : World → A) → Reads (gets f)
  unfolding gets
  Reads-gets f = record { at = λ w. refl }

  Reads-or_throw : (e : Err) (o : Option A) → Reads (or_throw e o)
  unfolding or_throw throw pure
  Reads-or_throw e none = record { at = λ w. refl }
  Reads-or_throw e (some a) = record { at = λ w. refl }

  Reads-wrapping : (s : String) (m : M A) → Reads m → Reads (wrapping s m)
  unfolding wrapping
  Reads-wrapping s m k = record { at = λ w. k.at w }

  Reads-base_query : (f : Db → A) → Reads (base_query f)
  unfolding base_query base_stmt
  Reads-base_query f = record {
    at = λ w. elim (Bool-cases (next_fault w.faults)) [ inl e ↦ rw e refl | inr e ↦ rw e refl ];
  }

  Atomic-throw : (e : Err) → Atomic (throw {A = A} e)
  unfolding throw
  Atomic-throw e = record { at = λ w p. SameTables-refl w.db }

get_by_id-Reads : (id : String) → Reads (Definitions.get_by_id id)
unfolding Definitions.get_by_id
get_by_id-Reads id = Reads-bind _ _ (Reads-base_query _) λ o. Reads-or_throw _ o

-- A CompleteTask that returns an error, whichever statement failed and however far the body had
-- come, has changed no table but the checkpoints.
pub complete_task_atomic :
    (id : String) (result : Bytes) (error : String) (w : World) {e : Err}
    → (complete_task id result error w).0 ≡ err e
    → SameTables w.db (complete_task id result error w).1.db
unfolding complete_task
complete_task_atomic id result error w p =
    (Atomic-then _ _ (Atomic-run_in_tx _ (Covered-complete_task_body id result error))
        Total-notify_after).at
      w p

-- The same of CompleteCompensationTask.
pub complete_compensation_task_atomic :
    (id : String) (result : Bytes) (error : String) (w : World) {e : Err}
    → (complete_compensation_task id result error w).0 ≡ err e
    → SameTables w.db (complete_compensation_task id result error w).1.db
unfolding complete_compensation_task
complete_compensation_task_atomic id result error w p =
    (Atomic-then _ _ (Atomic-run_in_tx _ (Covered-complete_compensation_body id result error))
        (λ out. Total-bind _ _ (Total-notify_after out.0) λ u. Total-pure out.1)).at
      w p

-- A StartWorkflow that returns an error has changed no table but the checkpoints.
pub start_workflow_atomic :
    (def queue : String) (input : Bytes) (override : ℕ) (w : World) {e : Err}
    → (start_workflow def queue input override w).0 ≡ err e
    → SameTables w.db (start_workflow def queue input override w).1.db
unfolding start_workflow
start_workflow_atomic def queue input override w p =
    (Atomic-after _ _ (Reads-wrapping _ _ (get_by_id-Reads def)) λ d.
        Atomic-after _ _ Reads-new_uuid λ id. Atomic-after _ _ (Reads-gets _) λ now.
          Atomic-then _ _
            (Atomic-run_in_tx _
              (Covered-start_body d (new_execution id d queue input override now) queue input))
            λ x. Total-bind _ _ (Total-notify queue) λ u. Total-pure x).at
      w p

-- A CancelWorkflow that returns an error has changed no table but the checkpoints.
pub cancel_workflow_atomic :
    (id : String) (w : World) {e : Err}
    → (cancel_workflow id w).0 ≡ err e
    → SameTables w.db (cancel_workflow id w).1.db
unfolding cancel_workflow
cancel_workflow_atomic id w p =
    (Atomic-then _ _ (Atomic-run_in_tx _ (Covered-cancel_body id)) λ u. Total-drain id).at w p

-- A RegisterWorkflow that returns an error has changed no table but the checkpoints.
pub register_workflow_atomic :
    (name type : String) (steps comps : List String) (timeout : ℕ) (attempts : List ℕ) (w : World)
    {e : Err}
    → (register_workflow name type steps comps timeout attempts w).0 ≡ err e
    → SameTables w.db (register_workflow name type steps comps timeout attempts w).1.db
unfolding register_workflow
register_workflow_atomic name type [] comps timeout attempts w p =
    (Atomic-after _ _ (Reads-or_throw _ (parse_type type)) λ t. Atomic-throw _).at w p
register_workflow_atomic name type (s ∷ ss) comps timeout attempts w p =
    (Atomic-after _ _ (Reads-or_throw _ (parse_type type))
        λ t. Atomic-run_in_tx _ (Covered-register_body name t (s ∷ ss) comps timeout attempts)).at
      w p
