-- ===== src/Store/History.antt =====
-- infrastructure/persistence/history_repository.go.
use antflow_server.Base.{
  ℕ, ◌+◌, Bool, true, false, ◌&&◌, Option, none, some, List, [], ◌∷◌, ◌++◌, map, String, str_eq,
  exists, select, ltb, leb, if◌then◌else◌,
}
use mathlib.Core.Option
use antflow_server.Domain.{HistoryEvent, TaskOutput, EventType, Bytes, is_step_completed}
use antflow_server.Store.World.{Db, M, insert_if, ◌>>=◌, stmt, query, gets}

abbrev pub history_row :
    String → Option ℕ → Option String → EventType → Bytes → String → ℕ → ℕ → HistoryEvent
history_row id step_index step_name event_type payload error now seq = record {
  id = seq;
  workflow_execution_id = id;
  step_index = step_index;
  step_name = step_name;
  event_type = event_type;
  payload = payload;
  error = error;
  created_at = now;
}

-- The foreign key to the execution; id from the sequence, created_at by its default.
abbrev pub append_row : (ℕ → HistoryEvent) → String → Db → Option (Unit {0} × Db)
append_row row id d =
    insert_if (exists (λ r. str_eq r.id id) d.executions)
      (record d { history = d.history ++ row d.event_seq ∷ []; event_seq = d.event_seq + 1 })

-- `Append` of an event by its execution, step, type, payload and error.
unfoldable pub append :
    String → Option ℕ → Option String → EventType → Bytes → String → M (Unit {0})
append id step_index step_name event_type payload error = do
  now ← gets λ w. w.now
  stmt (append_row (history_row id step_index step_name event_type payload error now) id)

abbrev pub of_execution : String → HistoryEvent → Bool
of_execution id e = str_eq e.workflow_execution_id id

-- ORDER BY id ASC
unfoldable pub insert_event : HistoryEvent → List HistoryEvent → List HistoryEvent
insert_event x [] = x ∷ []
insert_event x (y ∷ ys) =
    let rest = insert_event x ys in if leb x.id y.id then x ∷ y ∷ ys else y ∷ rest

unfoldable pub by_id : List HistoryEvent → List HistoryEvent
unfolding insert_event
by_id [] = []
by_id (x ∷ xs) = insert_event x (by_id xs)

unfoldable pub get_by_execution : String → M (List HistoryEvent)
unfolding by_id
get_by_execution id = query λ d. by_id (select (of_execution id) d.history)

-- The two queries of the source take an int64; `none` is the -1 with which a stream begins.
abbrev pub is_after : Option ℕ → ℕ → Bool
is_after none i = true
is_after (some n) i = ltb n i

abbrev pub of_execution_after : String → Option ℕ → HistoryEvent → Bool
of_execution_after id after e = of_execution id e && is_after after e.id

unfoldable pub events_after : String → Option ℕ → List HistoryEvent → List HistoryEvent
unfolding by_id
events_after id after rows = by_id (select (of_execution_after id after) rows)

unfoldable pub get_by_execution_after : String → Option ℕ → M (List HistoryEvent)
get_by_execution_after id after = query λ d. events_after id after d.history

-- ORDER BY step_index ASC, where NULL comes last.
abbrev pub index_leq : Option ℕ → Option ℕ → Bool
index_leq none none = true
index_leq none (some j) = false
index_leq (some i) none = true
index_leq (some i) (some j) = leb i j

unfoldable pub insert_by_step : HistoryEvent → List HistoryEvent → List HistoryEvent
insert_by_step x [] = x ∷ []
insert_by_step x (y ∷ ys) =
    let rest = insert_by_step x ys in
    if index_leq x.step_index y.step_index then x ∷ y ∷ ys else y ∷ rest

unfoldable pub by_step : List HistoryEvent → List HistoryEvent
unfolding insert_by_step
by_step [] = []
by_step (x ∷ xs) = insert_by_step x (by_step xs)

-- The scan loop: a NULL leaves the field at its zero.
abbrev pub task_output : HistoryEvent → TaskOutput
task_output e = record {
  step_index = Option.get_or e.step_index 0;
  step_name = Option.get_or e.step_name "";
  output = e.payload;
}

abbrev pub is_step_output : String → HistoryEvent → Bool
is_step_output id e = of_execution id e && is_step_completed e.event_type

unfoldable pub step_outputs : String → List HistoryEvent → List TaskOutput
unfolding by_step
step_outputs id rows = map task_output (by_step (select (is_step_output id) rows))

unfoldable pub get_step_outputs : String → M (List TaskOutput)
get_step_outputs id = query λ d. step_outputs id d.history
