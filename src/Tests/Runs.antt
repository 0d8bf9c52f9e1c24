-- ===== src/Tests/Runs.antt =====
-- The theorems on whole runs, on the small server.
use antflow_server.Base.{
  ◌≡◌, ◌≢◌, ◌↔◌, refl, inl, true, false, none, some, List, [], ◌∷◌, ◌++◌, str_eq, select, find,
  arith,
}
use antflow_server.Domain.{
  State, completed, validate_transition, ok, is_terminal, WorkflowExecution,
}
use antflow_server.Domain.Machine.{is_terminal_iff}
use antflow_server.Store.Executions.{has_id}
use antflow_server.Store.History.{events_after, of_execution}
use antflow_server.System.{Event, Call, run}
use antflow_server.System.Executions.{run-final, run-Evolves, Evolves}
use antflow_server.System.History.{run-history, IsLogged, Grows}
use antflow_server.Handler.Streams.{cursor_after}
use antflow_server.System.Streaming.{stream_exactly_once}
use antflow_server.System.Results.{run-no_result, NoResults}
use antflow_server.Tests.{server, busy, over, tables}

abbrev calls : List Event
calls =
    record { call = Call.complete "t" [] ""; at = 8; faults = [] }
    ∷ record { call = Call.cancel "z"; at = 9; faults = [] }
    ∷ record { call = Call.expire; at = 10; faults = false ∷ true ∷ [] }
    ∷ record { call = Call.register "wf" "CHAIN" ("a" ∷ []) [] 0 []; at = 11; faults = [] }
    ∷ []

over_found : find (has_id "z") tables.executions ≡ some over
unfolding str_eq
over_found = refl

busy_found : find (has_id "x") tables.executions ≡ some busy
unfolding str_eq
busy_found = refl

logged : IsLogged (server []).db
logged = (omega arith, omega arith)

run-final_example :
    (y : WorkflowExecution) × (find (has_id "z") (run (server []) calls).db.executions ≡ some y)
    × (y.state ≡ completed)
    × (y.completed_at ≡ some 5)
    × (y.current_step ≡ 1)
run-final_example = run-final (server []) calls "z" over over_found (inl refl)

run-Evolves_example :
    (y : WorkflowExecution) × (find (has_id "x") (run (server []) calls).db.executions ≡ some y)
    × Evolves busy y
run-Evolves_example = run-Evolves (server []) calls "x" busy busy_found

run-history_example :
    IsLogged (run (server []) calls).db × Grows tables.history (run (server []) calls).db.history
run-history_example = run-history (server []) calls logged

stream_exactly_once_example :
    events_after "x" none tables.history
      ++ events_after "x"
          (cursor_after none (events_after "x" none tables.history))
          (run (server []) calls).db.history
    ≡ select (of_execution "x") (run (server []) calls).db.history
stream_exactly_once_example = stream_exactly_once (server []) calls "x" logged

run-no_result_example : NoResults (run (server []) calls).db.executions
run-no_result_example = run-no_result (server []) calls (refl, (refl, tt))

is_terminal_iff_example :
    (is_terminal completed ≡ true) ↔ ((t : State) → validate_transition completed t ≢ ok tt)
is_terminal_iff_example = is_terminal_iff completed
