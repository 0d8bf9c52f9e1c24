-- ===== src/Domain/Types.antt =====
-- domain/workflow/workflow.go. Times are seconds; a nullable time, and Go's zero time, is `none`.
-- A `[]byte` is the list of its bytes, and the empty list stands for `nil` too.
use antflow_server.Base.{Bool, true, false, [], ◌∷◌, ℕ, Bool, true, false, String, List, Option}
use antflow_server.Domain.States.{State}
use antflow_server.Domain.Events.{EventType}

abbrev pub Bytes : Type 0
Bytes = List ℕ

-- A nil slice, which the driver writes as NULL.
abbrev pub is_null : Bytes → Bool
is_null [] = true
is_null (b ∷ bs) = false

pub data WorkflowType : Type 0 where
  chain independent saga : WorkflowType

abbrev pub is_independent : WorkflowType → Bool
is_independent independent = true
is_independent _ = false

abbrev pub is_saga : WorkflowType → Bool
is_saga saga = true
is_saga _ = false

pub record WorkflowDefinition : Type 0 where
  pub id : String
  pub namespace_id : String
  pub name : String
  pub workflow_type : WorkflowType
  pub version : ℕ
  pub is_active : Bool
  pub steps : ℕ
  pub default_timeout_seconds : ℕ
  pub created_at : ℕ

pub record WorkflowDefinitionStep : Type 0 where
  pub id : String
  pub workflow_definition_id : String
  pub step_index : ℕ
  pub step_name : String
  pub compensation_step_name : String
  pub timeout_seconds : ℕ
  pub task_queue : String
  pub max_attempts : ℕ

pub record WorkflowExecution : Type 0 where
  pub id : String
  pub workflow_definition_id : String
  pub workflow_name : String
  pub workflow_type : WorkflowType
  pub task_queue : String
  pub total_steps : ℕ
  pub completed_steps : ℕ
  pub current_step : ℕ
  pub input : Bytes
  pub result : Bytes
  pub state : State
  pub error : String
  pub created_at : ℕ
  pub scheduled_at : ℕ
  pub updated_at : ℕ
  pub completed_at : Option ℕ
  pub deadline_at : Option ℕ
  pub compensation_total : ℕ
  pub compensation_done : ℕ

pub record Task : Type 0 where
  pub id : String
  pub workflow_execution_id : String
  pub step_index : ℕ
  pub step_name : String
  pub task_queue : String
  pub input : Bytes
  pub output : Bytes
  pub state : State
  pub error : String
  pub scheduled_at : ℕ
  pub started_at : Option ℕ
  pub completed_at : Option ℕ
  pub locked_until : Option ℕ
  pub attempt : ℕ
  pub max_attempts : ℕ
  pub timeout_seconds : ℕ

pub record HistoryEvent : Type 0 where
  pub id : ℕ
  pub workflow_execution_id : String
  pub step_index : Option ℕ
  pub step_name : Option String
  pub event_type : EventType
  pub payload : Bytes
  pub error : String
  pub created_at : ℕ

pub record TaskOutput : Type 0 where
  pub step_index : ℕ
  pub step_name : String
  pub output : Bytes

pub record Namespace : Type 0 where
  pub id : String
  pub name : String
  pub created_at : ℕ

pub record Checkpoint : Type 0 where
  pub id : ℕ
  pub workflow_execution_id : String
  pub step_index : ℕ
  pub state_snapshot : Bytes
  pub created_at : ℕ

pub record CompensationTask : Type 0 where
  pub id : String
  pub workflow_execution_id : String
  pub step_index : ℕ
  pub step_name : String
  pub compensation_step_name : String
  pub task_queue : String
  pub input : Bytes
  pub output : Bytes
  pub state : State
  pub error : String
  pub attempt : ℕ
  pub max_attempts : ℕ
  pub timeout_seconds : ℕ
  pub scheduled_at : ℕ
  pub started_at : Option ℕ
  pub completed_at : Option ℕ
  pub locked_until : Option ℕ
