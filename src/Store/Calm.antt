-- ===== src/Store/Calm.antt =====
-- What an action does on a database that answers: no statement fails, and none is refused for an
-- earlier failure. One equation for each way to build an action, from the first world to the last.
pub mod Statements
use antflow_server.Base.{
  Bool, true, false, ◌≡◌, refl, ◌∙◌, ap, Option, none, some, List, [], String, ◌+◌, if◌then◌else◌,
}
use antflow_server.Domain.{Err, Result, ok}
use antflow_server.Store.World.{
  Db, World, M, pure, lift, gets, attempt, wrapping, rewrap, ignore, or_throw, ◌>>=◌, continue,
  stmt, query, base_stmt, new_uuid, drain, notify, run_in_tx, commit_db, finish, next_fault,
}

-- In a transaction whose tables are `d`.
abbrev pub inside : Db → World → World
inside d w = record w { tx = some d; aborted = false; faults = [] }

-- Where no transaction is open.
abbrev pub outside : Db → World → World
outside d w = record w { db = d; tx = none; aborted = false; faults = [] }

module _ {A B : Type 0} where
  pub bind-calm :
      (m : M A) (f : A → M B) (w : World) {a : A} {v : World} {r : Result B × World}
      → m w ≡ (ok a, v)
      → f a v ≡ r
      → (m >>= f) w ≡ r
  unfolding ◌>>=◌
  bind-calm m f w h k = rw h k

module _ {A : Type 0} where
  pub wrapping-calm :
      (s : String) (m : M A) (w : World) {a : A} {v : World}
      → m w ≡ (ok a, v)
      → wrapping s m w ≡ (ok a, v)
  unfolding wrapping
  wrapping-calm s m w h = rw h refl

  pub ignore-calm :
      (m : M A) (w : World) {r : Result A} {v : World} → m w ≡ (r, v) → ignore m w ≡ (ok tt, v)
  unfolding ignore ◌>>=◌ attempt pure
  ignore-calm m w h = rw h refl

  pub then-calm :
      (b : Bool) (m n : M A) (w : World) {r : Result A × World}
      → b ≡ true
      → m w ≡ r
      → (if b then m else n) w ≡ r
  then-calm b m n w h k = rw h k

  pub else-calm :
      (b : Bool) (m n : M A) (w : World) {r : Result A × World}
      → b ≡ false
      → n w ≡ r
      → (if b then m else n) w ≡ r
  else-calm b m n w h k = rw h k

  pub or_throw-calm :
      (e : Err) (o : Option A) (w : World) {a : A} → o ≡ some a → or_throw e o w ≡ (ok a, w)
  unfolding or_throw pure
  or_throw-calm e o w h = rw h refl

  pub stmt-calm :
      (f : Db → Option (A × Db)) (d : Db) (w : World) {a : A} {e : Db}
      → f d ≡ some (a, e)
      → stmt f (inside d w) ≡ (ok a, inside e w)
  unfolding stmt
  stmt-calm f d w h = rw h refl

  pub query-calm : (f : Db → A) (d : Db) (w : World) → query f (inside d w) ≡ (ok (f d), inside d w)
  unfolding query stmt
  query-calm f d w = refl

  -- A statement on the pool, past the transaction.
  pub base_stmt-calm :
      (f : Db → Option (A × Db)) (d : Db) (w : World) {a : A} {e : Db}
      → f w.db ≡ some (a, e)
      → base_stmt f (inside d w) ≡ (ok a, inside d (record w { db = e }))
  unfolding base_stmt
  base_stmt-calm f d w h = rw h refl

  -- A transaction whose function returned is committed.
  pub run_in_tx-calm :
      (m : M A) (d e : Db) (w v : World) {a : A}
      → m (inside d (outside d w)) ≡ (ok a, inside e v)
      → run_in_tx m (outside d w) ≡ (ok a, outside (commit_db e v.db) v)
  unfolding run_in_tx
  run_in_tx-calm m d e w v h = rw h refl
