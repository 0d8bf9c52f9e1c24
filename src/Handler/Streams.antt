-- ===== src/Handler/Streams.antt =====
-- interface/grpc/task_handler.go and history_handler.go: one turn of the loop of a stream.
use antflow_server.Base.{ℕ, Bool, true, false, ◌||◌, Option, none, some, List, [], ◌∷◌, String}
use antflow_server.Domain.{
  Task, CompensationTask, HistoryEvent, Bytes, EventType, workflow_completed, workflow_failed,
  workflow_cancelled, Result, ok, err,
}
use antflow_server.Store.World.{World}
use antflow_server.Usecase.Execution.{get_workflow_name_for_execution}
use antflow_server.Usecase.Saga.{poll_compensation_task}
use antflow_server.Usecase.Completion.{poll_task}
use antflow_server.Usecase.Service.{get_history_after}

-- What a turn does: it sends, it waits for a token of the broker or a second, or the stream ends
-- with `codes.Internal`.
pub data Turn (A : Type 0) : Type 0 where
  sends : A → Turn A
  waits fails : Turn A

pub record StreamedTask : Type 0 where
  pub task_id : String
  pub workflow_id : String
  pub name : String
  pub step_name : String
  pub step_index : ℕ
  pub input : Bytes

abbrev streamed_task : Task → String → StreamedTask
streamed_task t name = record {
  task_id = t.id;
  workflow_id = t.workflow_execution_id;
  name = name;
  step_name = t.step_name;
  step_index = t.step_index;
  input = t.input;
}

pub record StreamedCompensation : Type 0 where
  pub task_id : String
  pub workflow_id : String
  pub name : String
  pub step_name : String
  pub compensation_step_name : String
  pub step_index : ℕ
  pub input : Bytes

abbrev streamed_compensation : CompensationTask → String → StreamedCompensation
streamed_compensation t name = record {
  task_id = t.id;
  workflow_id = t.workflow_execution_id;
  name = name;
  step_name = t.step_name;
  compensation_step_name = t.compensation_step_name;
  step_index = t.step_index;
  input = t.input;
}

module _ {A B : Type 0} where
  abbrev named_turn : (A → String → B) → A → Result String → Turn B
  named_turn f t (ok name) = sends (f t name)
  named_turn f t (err e) = fails

  -- A task was locked, and then the workflow's name is read.
  abbrev polled_turn : (A → String) → (A → String → B) → Result (Option A) → World → Turn B × World
  polled_turn id f (err e) w = (fails, w)
  polled_turn id f (ok none) w = (waits, w)
  polled_turn id f (ok (some t)) w =
      let (r, w') = get_workflow_name_for_execution (id t) w in (named_turn f t r, w')

unfoldable pub task_turn : String → World → Turn StreamedTask × World
task_turn queue w =
    let (r, w') = poll_task queue w in polled_turn (λ t. t.workflow_execution_id) streamed_task r w'

unfoldable pub compensation_turn : String → World → Turn StreamedCompensation × World
compensation_turn queue w =
    let (r, w') = poll_compensation_task queue w in
    polled_turn (λ t. t.workflow_execution_id) streamed_compensation r w'

-- The events that end the stream of a history.
abbrev pub is_last : EventType → Bool
is_last workflow_completed = true
is_last workflow_failed = true
is_last workflow_cancelled = true
is_last _ = false

abbrev pub ends_stream : List HistoryEvent → Bool
ends_stream [] = false
ends_stream (e ∷ es) = is_last e.event_type || ends_stream es

-- The cursor after the events of a page have been sent.
abbrev pub cursor_after : Option ℕ → List HistoryEvent → Option ℕ
cursor_after after [] = after
cursor_after after (e ∷ es) = cursor_after (some e.id) es

-- A turn of a history's stream: the events it sends, its next cursor, and whether it closes.
pub record Page : Type 0 where
  pub events : List HistoryEvent
  pub cursor : Option ℕ
  pub closes : Bool

abbrev page_of : Option ℕ → Result (List HistoryEvent) → Option Page
page_of after (err e) = none
page_of after (ok es) =
    some (record { events = es; cursor = cursor_after after es; closes = ends_stream es })

unfoldable pub history_turn : String → Option ℕ → World → Option Page × World
history_turn id after w = let (r, w') = get_history_after id after w in (page_of after r, w')
