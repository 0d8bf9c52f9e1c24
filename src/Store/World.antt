-- ===== src/Store/World.antt =====
-- What a request reads and changes: the database behind `*sql.DB` (db.go), the transaction that its
-- context carries (transactionManager.go), the clock, the uuids, and the two stores in memory.
-- An action is a Go call that may return an error; what it changed before stays changed.
use antflow_server.Base.{
  ℕ, ◌+◌, leb, Bool, true, false, ◌||◌, Option, none, some, List, [], ◌∷◌, String, if◌then◌else◌,
}
use antflow_server.Domain.{
  Namespace, WorkflowDefinition, WorkflowDefinitionStep, WorkflowExecution, Task, CompensationTask,
  HistoryEvent, Checkpoint, TaskOutput, Bytes, Err, db_error, Result, ok, err,
}
use antflow_server.Signals.{SignalStore}
use antflow_server.Signals
use antflow_server.Broker.{TaskBroker}
use antflow_server.Broker

-- The tables, with the sequences behind the two BIGSERIAL columns.
pub record Db : Type 0 where
  pub namespaces : List Namespace
  pub definitions : List WorkflowDefinition
  pub steps : List WorkflowDefinitionStep
  pub executions : List WorkflowExecution
  pub tasks : List Task
  pub compensation_tasks : List CompensationTask
  pub history : List HistoryEvent
  pub checkpoints : List Checkpoint
  pub event_seq : ℕ
  pub checkpoint_seq : ℕ

-- Code of other packages: `uuid.New().String()`, here by the number of earlier calls, and
-- `json.Marshal` on the outputs of the steps, which can fail.
pub record Env : Type 0 where
  pub new_uuid : ℕ → String
  pub marshal : List TaskOutput → Option Bytes

-- `db` is what is committed and `tx` the working copy of an open transaction, which PostgreSQL marks
-- as aborted when a statement fails. `faults` says of each coming statement, BEGIN and COMMIT
-- included, whether the database or the connection fails at it.
pub record World : Type 0 where
  pub db : Db
  pub tx : Option Db
  pub aborted : Bool
  pub faults : List Bool
  pub now : ℕ
  pub env : Env
  pub uuids : ℕ
  pub signals : SignalStore
  pub broker : TaskBroker

abbrev pub M : Type 0 → Type 0
M A = World → Result A × World

module _ {A : Type 0} where
  unfoldable pub pure : A → M A
  pure a w = (ok a, w)

  unfoldable pub throw : Err → M A
  throw e w = (err e, w)

  unfoldable pub lift : Result A → M A
  lift r w = (r, w)

  unfoldable pub gets : (World → A) → M A
  gets f w = (ok (f w), w)

  -- The Go code keeps the error as a value: it logs it, drops it, or tests it.
  unfoldable pub attempt : M A → M (Result A)
  attempt m w = let (r, w') = m w in (ok r, w')

module _ {A B : Type 0} where
  abbrev pub continue : Result A → (A → M B) → M B
  continue (ok a) f w = f a w
  continue (err e) f w = (err e, w)

  infixl 5 ◌>>=◌ ◌>>◌
  -- `if err != nil { return err }`, then the rest; opening this opens the actions above too.
  unfoldable pub ◌>>=◌ : M A → (A → M B) → M B
  unfolding pure throw lift gets attempt
  ◌>>=◌ m f w = let (r, w') = m w in continue r f w'

  abbrev pub ◌>>◌ : M A → M B → M B
  m >> n = m >>= λ _. n

module _ {A : Type 0} where
  abbrev pub rewrap : String → Result A → Result A
  rewrap s (ok a) = ok a
  rewrap s (err e) = err (Err.wrap s e)

  -- `fmt.Errorf("s: %w", err)`
  unfoldable pub wrapping : String → M A → M A
  wrapping s m w = let (r, w') = m w in (rewrap s r, w')

  -- `_ = m`, and `if err := m; err != nil { log.Printf(...) }`
  unfoldable pub ignore : M A → M (Unit {0})
  unfolding ◌>>=◌
  ignore m = do attempt m; pure tt

  unfoldable pub or_throw : Err → Option A → M A
  or_throw e none = throw e
  or_throw e (some a) = pure a

-- `getDB`: the transaction of the context, or else the pool.
abbrev pub view : World → Db
view w = elim w.tx [ none ↦ w.db | some t ↦ t ]

abbrev pub write_at : Option Db → Db → World → World
write_at none d w = record w { db = d }
write_at (some t) d w = record w { tx = some d }

abbrev pub write : Db → World → World
write d w = write_at w.tx d w

abbrev pub next_fault : List Bool → Bool
next_fault [] = false
next_fault (b ∷ bs) = b

abbrev pub rest_faults : List Bool → List Bool
rest_faults [] = []
rest_faults (b ∷ bs) = bs

abbrev pub spend : World → World
spend w = record w { faults = rest_faults w.faults }

abbrev pub in_tx : Option Db → Bool
in_tx none = false
in_tx (some t) = true

abbrev pub fail : World → World
fail w = record w { aborted = in_tx w.tx }

module _ {A : Type 0} where
  abbrev pub answer : Option (A × Db) → World → Result A × World
  answer none w = (err db_error, fail w)
  answer (some (a, d)) w = (ok a, write d w)

  -- One statement through `getDB(ctx, s.db)`; `none` is a violated constraint.
  unfoldable pub stmt : (Db → Option (A × Db)) → M A
  stmt f w =
      if next_fault w.faults || w.aborted
      then (err db_error, fail (spend w))
      else answer (f (view w)) (spend w)

  -- A SELECT through `getDB(ctx, s.db)`.
  unfoldable pub query : (Db → A) → M A
  unfolding stmt
  query f = stmt (λ d. some (f d, d))

  abbrev pub answer_base : Option (A × Db) → World → Result A × World
  answer_base none w = (err db_error, w)
  answer_base (some (a, d)) w = (ok a, record w { db = d })

  -- One statement on `s.db` itself, which no transaction of the context covers.
  unfoldable pub base_stmt : (Db → Option (A × Db)) → M A
  base_stmt f w =
      if next_fault w.faults then (err db_error, spend w) else answer_base (f w.db) (spend w)

  unfoldable pub base_query : (Db → A) → M A
  unfolding base_stmt
  base_query f = base_stmt (λ d. some (f d, d))

-- A row goes in if the constraints of its table hold.
abbrev pub insert_if : Bool → Db → Option (Unit {0} × Db)
insert_if true d = some (tt, d)
insert_if false d = none

-- COMMIT: the tables as the transaction left them. The checkpoints are written past it.
abbrev pub commit_db : Db → Db → Db
commit_db t d = record t { checkpoints = d.checkpoints; checkpoint_seq = d.checkpoint_seq }

abbrev pub later : ℕ → ℕ → ℕ
later m n = if leb m n then n else m

-- ROLLBACK: the tables as they were. A sequence never goes back.
abbrev pub rollback_db : Db → Db → Db
rollback_db t d = record d { event_seq = later d.event_seq t.event_seq }

abbrev pub working : Option Db → Db → Db
working none d = d
working (some t) d = t

abbrev pub close : World → Db → World → World
close w d w' = record w' { db = d; tx = w.tx; aborted = w.aborted }

module _ {A : Type 0} where
  -- `w` is the world of the caller and `w'` the one that the function left.
  abbrev pub finish : World → Result A × World → Result A × World
  finish w (err e, w') = (err e, close w (rollback_db (working w'.tx w'.db) w'.db) w')
  finish w (ok a, w') =
      if next_fault w'.faults || w'.aborted
      then (err db_error, close w (rollback_db (working w'.tx w'.db) w'.db) (spend w'))
      else (ok a, close w (commit_db (working w'.tx w'.db) w'.db) (spend w'))

  -- `RunInTx`
  unfoldable pub run_in_tx : M A → M A
  run_in_tx fn w =
      if next_fault w.faults
      then (err db_error, spend w)
      else finish w (fn (record (spend w) { tx = some w.db; aborted = false }))

module _ {A : Type 0} where
  -- Where the poll has found no row it returns, and its deferred ROLLBACK runs.
  abbrev pub finish_poll : World → Result (Option A) × World → Result (Option A) × World
  finish_poll w (ok none, w') = (ok none, close w (rollback_db (working w'.tx w'.db) w'.db) w')
  finish_poll w (ok (some a), w') = finish w (ok (some a), w')
  finish_poll w (err e, w') = finish w (err e, w')

  -- The transaction that `FindAndLockPending` opens by hand.
  unfoldable pub poll_in_tx : M (Option A) → M (Option A)
  poll_in_tx fn w =
      if next_fault w.faults
      then (err db_error, spend w)
      else finish_poll w (fn (record (spend w) { tx = some w.db; aborted = false }))

-- `uuid.New().String()`
unfoldable pub new_uuid : M String
new_uuid w = (ok (w.env.new_uuid w.uuids), record w { uuids = w.uuids + 1 })

-- `i.signals.Drain(id)` and `i.broker.Notify(queue)`
unfoldable pub drain : String → M (Unit {0})
drain id w = (ok tt, record w { signals = Signals.drain id w.signals })

unfoldable pub notify : String → M (Unit {0})
notify queue w = (ok tt, record w { broker = Broker.notify queue w.broker })
