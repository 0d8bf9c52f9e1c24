-- ===== src/Tests/Invariants.antt =====
-- The theorems on what every call keeps, on the small server and on a small store of signals.
use antflow_server.Base.{
  ℕ, ◌≡◌, refl, true, false, none, some, List, [], ◌∷◌, str_eq, exists, find, select,
}
use antflow_server.Domain.{WorkflowExecution, compensating, running}
use antflow_server.Domain.Moves.{Travels, RollsBack}
use antflow_server.Signals.{
  SignalKey, SignalStore, Waiter, new_signal_store, open_channel, of_execution, waiter_of, send,
  wait_begin,
}
use antflow_server.Signals.Channels.{IsReachable, new, sent, began, AreApart, on_channel}
use antflow_server.Signals.Channels.Reachable.{reachable_waiters}
use antflow_server.Store.World.{World}
use antflow_server.Store.Executions.{has_id}
use antflow_server.Store.Keys.{HasKeys}
use antflow_server.System.{Event, Call, run}
use antflow_server.System.Moves.{FitsAll}
use antflow_server.System.Moves.Runs.{run-Travels, run-RollsBack}
use antflow_server.Tests.{server, tables, busy, over, execution}

-- A worker reports a failure, a client cancels, and a timeout runs.
abbrev events : List Event
events =
    record { call = Call.complete "t" [] "out of stock"; at = 8; faults = [] }
    ∷ record { call = Call.complete_compensation "t" [] ""; at = 9; faults = false ∷ true ∷ [] }
    ∷ record { call = Call.cancel "x"; at = 9; faults = [] }
    ∷ record { call = Call.expire; at = 10; faults = [] }
    ∷ []

tables-FitsAll : FitsAll tables.executions
unfolding str_eq
tables-FitsAll = (refl, refl, (refl, refl, tt))

running_found : find (has_id "x") tables.executions ≡ some busy
unfolding str_eq
running_found = refl

run-Travels_example :
    FitsAll (run (server []) events).db.executions
    × ((y : WorkflowExecution) × (find (has_id "x") (run (server []) events).db.executions ≡ some y)
        × Travels running y.state)
run-Travels_example = run-Travels (server []) events "x" busy tables-FitsAll running_found

abbrev undoing : WorkflowExecution
undoing = execution "x" compensating none

abbrev undoing_server : World
undoing_server = record (server []) { db = record tables { executions = undoing ∷ over ∷ [] } }

undoing-FitsAll : FitsAll undoing_server.db.executions
unfolding str_eq
undoing-FitsAll = (refl, refl, (refl, refl, tt))

undoing_found : find (has_id "x") undoing_server.db.executions ≡ some undoing
unfolding str_eq
undoing_found = refl

run-RollsBack_example :
    (y : WorkflowExecution) × (find (has_id "x") (run undoing_server events).db.executions ≡ some y)
    × RollsBack y.state
run-RollsBack_example =
    run-RollsBack undoing_server events "x" undoing undoing-FitsAll undoing_found refl

pub tables-HasKeys : HasKeys (server []).db
unfolding str_eq
tables-HasKeys = record {
  of_steps = record { owned = (refl, (refl, (refl, tt))); steps = (refl, (refl, (refl, tt))) };
  of_tasks = record { ids = (refl, tt); steps = (refl, tt) };
  of_undos = record { ids = tt; steps = tt };
}

abbrev approval : SignalKey
approval = record { execution_id = "x"; name = "approved" }

-- A goroutine that times out, another that waits, and a signal of another name.
abbrev store : SignalStore
store =
    (wait_begin approval
      (send (record { execution_id = "x"; name = "paid" }) []
        (wait_begin (record { execution_id = "y"; name = "approved" }) new_signal_store).1).1).1

store-IsReachable : IsReachable store
store-IsReachable = began _ (sent _ [] (began _ new))

reachable_waiters_example :
    ((x : Waiter)
      → waiter_of approval store ≡ some x
      → (store.channels x.ch ≡ open_channel) × ((send approval [] store).0 ≡ true))
    × AreApart (select (of_execution "x") store.waiters)
    × ((c : ℕ)
        → exists (on_channel c) (select (of_execution "x") store.waiters) ≡ true
        → store.channels c ≡ open_channel)
reachable_waiters_example = reachable_waiters store approval [] "x" store-IsReachable
