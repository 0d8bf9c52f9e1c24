-- ===== src/Store/Covered.antt =====
-- transactionManager.go: RunInTx. What a function does through the transaction of its context leaves
-- the committed tables alone, so an error undoes all of it. Only the checkpoints, which are written
-- through `s.db`, stay.
pub mod Statements
use antflow_server.Base.{
  ℕ, Bool, true, false, ◌||◌, ◌≡◌, refl, ◌∙◌, Option, none, some, List, String, Bool-cases, inl,
  inr, if◌then◌else◌,
}
use antflow_server.Domain.{
  Namespace, WorkflowDefinition, WorkflowDefinitionStep, WorkflowExecution, Task, CompensationTask,
  HistoryEvent, Checkpoint, Bytes, Err, Result, ok, err,
}
use antflow_server.Store.World.{
  Db, World, M, pure, throw, lift, gets, attempt, continue, ◌>>=◌, rewrap, wrapping, ignore,
  or_throw, view, write_at, spend, fail, in_tx, next_fault, answer, stmt, query, answer_base,
  base_stmt, base_query, insert_if, commit_db, rollback_db, working, close, finish, run_in_tx,
  new_uuid, drain, notify,
}
use antflow_server.Store.Checkpoints

-- The tables agree, but for the checkpoints; sequences are no part of the tables.
pub record SameTables (d d' : Db) : Type 0 where
  pub namespaces : d'.namespaces ≡ d.namespaces
  pub definitions : d'.definitions ≡ d.definitions
  pub steps : d'.steps ≡ d.steps
  pub executions : d'.executions ≡ d.executions
  pub tasks : d'.tasks ≡ d.tasks
  pub compensation_tasks : d'.compensation_tasks ≡ d.compensation_tasks
  pub history : d'.history ≡ d.history

pub SameTables-refl : (d : Db) → SameTables d d
SameTables-refl d = record {
  namespaces = refl;
  definitions = refl;
  steps = refl;
  executions = refl;
  tasks = refl;
  compensation_tasks = refl;
  history = refl;
}

SameTables-trans : (a b c : Db) → SameTables a b → SameTables b c → SameTables a c
SameTables-trans a b c p q = record {
  namespaces = q.namespaces ∙ p.namespaces;
  definitions = q.definitions ∙ p.definitions;
  steps = q.steps ∙ p.steps;
  executions = q.executions ∙ p.executions;
  tasks = q.tasks ∙ p.tasks;
  compensation_tasks = q.compensation_tasks ∙ p.compensation_tasks;
  history = q.history ∙ p.history;
}

-- Inside a transaction the action stays in it, and leaves the committed tables alone.
record Within (w w' : World) : Type 0 where
  same : SameTables w.db w'.db
  inside : in_tx w'.tx ≡ true

pub record Covered {A : Type 0} (m : M A) : Type 0 where
  at : (w : World) → in_tx w.tx ≡ true → Within w (m w).1

Within-refl : (w w' : World) → w'.db ≡ w.db → w'.tx ≡ w.tx → in_tx w.tx ≡ true → Within w w'
Within-refl w w' p q h = record { same = rw p (SameTables-refl w.db); inside = rw q h }

module _ {A : Type 0} where
  pub Covered-pure : (a : A) → Covered (pure a)
  unfolding pure
  Covered-pure a = record { at = λ w h. Within-refl w w refl refl h }

  pub Covered-throw : (e : Err) → Covered (throw {A = A} e)
  unfolding throw
  Covered-throw e = record { at = λ w h. Within-refl w w refl refl h }

  pub Covered-lift : (r : Result A) → Covered (lift r)
  unfolding lift
  Covered-lift r = record { at = λ w h. Within-refl w w refl refl h }

  pub Covered-gets : (f : World → A) → Covered (gets f)
  unfolding gets
  Covered-gets f = record { at = λ w h. Within-refl w w refl refl h }

  pub Covered-attempt : (m : M A) → Covered m → Covered (attempt m)
  unfolding attempt
  Covered-attempt m k = record { at = λ w h. k.at w h }

  pub Covered-wrapping : (s : String) (m : M A) → Covered m → Covered (wrapping s m)
  unfolding wrapping
  Covered-wrapping s m k = record { at = λ w h. k.at w h }

  pub Covered-or_throw : (e : Err) (o : Option A) → Covered (or_throw e o)
  unfolding or_throw
  Covered-or_throw e none = Covered-throw e
  Covered-or_throw e (some a) = Covered-pure a

  pub Covered-if : (b : Bool) (m n : M A) → Covered m → Covered n → Covered (if b then m else n)
  Covered-if true m n k l = k
  Covered-if false m n k l = l

module _ {A B : Type 0} where
  continue-Within :
      (v w : World) (r : Result A) (f : A → M B)
      → Within v w
      → ((a : A) → Covered (f a))
      → Within v (continue r f w).1
  continue-Within v w (ok a) f h k =
      let n = (k a).at w h.inside in
      record { same = SameTables-trans v.db w.db _ h.same n.same; inside = n.inside }
  continue-Within v w (err e) f h k = h

  pub Covered-bind :
      (m : M A) (f : A → M B) → Covered m → ((a : A) → Covered (f a)) → Covered (m >>= f)
  unfolding ◌>>=◌
  Covered-bind m f km kf = record { at = λ w h. continue-Within w (m w).1 (m w).0 f (km.at w h) kf }

write-Within :
    (t : Option Db) (w : World) (d : Db) → w.tx ≡ t → in_tx w.tx ≡ true → Within w (write_at t d w)
write-Within none w d e h = absurd (let h' : in_tx none ≡ true = rw e at h in cc)
write-Within (some t) w d e h = record { same = SameTables-refl w.db; inside = refl }

pub Covered-new_uuid : Covered new_uuid
unfolding new_uuid
Covered-new_uuid = record { at = λ w h. Within-refl w _ refl refl h }

pub Covered-drain : (id : String) → Covered (drain id)
unfolding drain
Covered-drain id = record { at = λ w h. Within-refl w _ refl refl h }

pub Covered-notify : (queue : String) → Covered (notify queue)
unfolding notify
Covered-notify queue = record { at = λ w h. Within-refl w _ refl refl h }

module _ {A : Type 0} where
  pub Covered-ignore : (m : M A) → Covered m → Covered (ignore m)
  unfolding ignore
  Covered-ignore m k =
      Covered-bind (attempt m) (λ r. pure tt) (Covered-attempt m k) (λ r. Covered-pure tt)

  answer-Within : (w : World) (o : Option (A × Db)) → in_tx w.tx ≡ true → Within w (answer o w).1
  answer-Within w none h = Within-refl w _ refl refl h
  answer-Within w (some (a, d)) h = write-Within w.tx w d refl h

  -- Any statement at all.
  pub Covered-stmt : (f : Db → Option (A × Db)) → Covered (stmt f)
  unfolding stmt
  Covered-stmt f = record {
    at = λ w h. elim (Bool-cases (next_fault w.faults || w.aborted)) [
      | inl e ↦ rw e (Within-refl w _ refl refl h)
      | inr e ↦
          let n = answer-Within (spend w) (f (view w)) h in
          rw e (record { same = n.same; inside = n.inside })
    ];
  }

  pub Covered-query : (f : Db → A) → Covered (query f)
  unfolding query
  Covered-query f = Covered-stmt (λ d. some (f d, d))

  abbrev IsQuiet : Db → Option (A × Db) → Type 0
  IsQuiet d none = Unit {0}
  IsQuiet d (some (a, d')) = SameTables d d'

  answer_base-Within :
      (w : World) (o : Option (A × Db))
      → IsQuiet w.db o
      → in_tx w.tx ≡ true
      → Within w (answer_base o w).1
  answer_base-Within w none q h = Within-refl w _ refl refl h
  answer_base-Within w (some (a, d)) q h = record { same = q; inside = h }

  Covered-base_stmt :
      (f : Db → Option (A × Db)) → ((d : Db) → IsQuiet d (f d)) → Covered (base_stmt f)
  unfolding base_stmt
  Covered-base_stmt f q = record {
    at = λ w h. elim (Bool-cases (next_fault w.faults)) [
      | inl e ↦ rw e (Within-refl w _ refl refl h)
      | inr e ↦
          let n = answer_base-Within (spend w) (f w.db) (q w.db) h in
          rw e (record { same = n.same; inside = n.inside })
    ];
  }

  pub Covered-base_query : (f : Db → A) → Covered (base_query f)
  unfolding base_query
  Covered-base_query f = Covered-base_stmt (λ d. some (f d, d)) SameTables-refl

insert-IsQuiet : (b : Bool) (d d' : Db) → SameTables d d' → IsQuiet d (insert_if b d')
insert-IsQuiet true d d' h = h
insert-IsQuiet false d d' h = tt

pub Covered-save : (id : String) (i : ℕ) (b : Bytes) → Covered (Checkpoints.save id i b)
unfolding Checkpoints.save
Covered-save id i b = Covered-bind _ _ (Covered-gets _) λ now. Covered-base_stmt _ λ d.
    insert-IsQuiet _ d _ (record {
      namespaces = refl;
      definitions = refl;
      steps = refl;
      executions = refl;
      tasks = refl;
      compensation_tasks = refl;
      history = refl;
    })

pub ruleset covered_rules = (
  Covered-pure, Covered-throw, Covered-lift, Covered-gets, Covered-attempt, Covered-wrapping,
  Covered-ignore, Covered-or_throw, Covered-if, Covered-bind, Covered-stmt, Covered-query,
  Covered-base_query, Covered-new_uuid, Covered-drain, Covered-notify, Covered-save,
)

rollback-SameTables : (d t d' : Db) → SameTables d d' → SameTables d (rollback_db t d')
rollback-SameTables d t d' h = record {
  namespaces = h.namespaces;
  definitions = h.definitions;
  steps = h.steps;
  executions = h.executions;
  tasks = h.tasks;
  compensation_tasks = h.compensation_tasks;
  history = h.history;
}

module _ {A : Type 0} where
  finish-atomic :
      (w w' : World) (r : Result A) {e : Err}
      → SameTables w.db w'.db
      → (finish w (r, w')).0 ≡ err e
      → SameTables w.db (finish w (r, w')).1.db
  finish-atomic w w' (err x) h p = rollback-SameTables w.db (working w'.tx w'.db) w'.db h
  finish-atomic w w' (ok a) h p = elim (Bool-cases (next_fault w'.faults || w'.aborted)) [
    | inl e ↦ rw e (rollback-SameTables w.db (working w'.tx w'.db) w'.db h)
    | inr e ↦ absurd (let q = rw e at p in cc)
  ]

  -- A transaction that ends in an error has changed no table but the checkpoints.
  pub run_in_tx_atomic :
      (m : M A) (w : World) {e : Err}
      → Covered m
      → (run_in_tx m w).0 ≡ err e
      → SameTables w.db (run_in_tx m w).1.db
  unfolding run_in_tx
  run_in_tx_atomic m w k p = elim (Bool-cases (next_fault w.faults)) [
    | inl e ↦ rw e (SameTables-refl w.db)
    | inr e ↦
        let out = m (record (spend w) { tx = some w.db; aborted = false }) in
        let h = k.at (record (spend w) { tx = some w.db; aborted = false }) refl in
        rw e (finish-atomic w out.1 out.0 h.same (rw e at p))
  ]
