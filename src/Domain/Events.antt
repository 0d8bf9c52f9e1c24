-- ===== src/Domain/Events.antt =====
-- domain/workflow/Events.go.
use antflow_server.Base.{Bool, true, false}

pub data EventType : Type 0 where
  workflow_started workflow_completed workflow_failed workflow_cancelled workflow_timed_out :
      EventType
  step_scheduled step_completed step_failed step_retrying : EventType
  compensation_started compensation_completed compensation_failed : EventType
  saga_rolled_back saga_rollback_failed : EventType

-- `event_type = 'STEP_COMPLETED'`
abbrev pub is_step_completed : EventType → Bool
is_step_completed step_completed = true
is_step_completed _ = false
