-- ===== src/Migrations.antt =====
-- The `Migrate` of each repository in infrastructure/persistence, and the loop of main.go over them.
-- Of a schema, the names are modelled: those of the extensions, the indexes, and the tables with their
-- columns and named constraints. The types are those of the records of the rows.
mod Schemas
pub mod Restarts
use antflow_server.Base.{
  ◌&&◌, not, Bool, true, false, Option, none, some, List, [], ◌∷◌, ◌++◌, String, str_eq, exists,
  find, update, delete, if◌then◌else◌,
}
use antflow_server.Store.World.{next_fault, rest_faults}
unfoldable pub use Schemas.*

-- One `Migrate`, which the database or the connection may fail.
unfoldable pub migrate : Bool → List Statement → Schema → Option Schema
unfolding exec_all
migrate fault qs s = if fault then none else exec_all qs s

abbrev pub migrated : Option Schema → Schema → (Schema → Bool × Schema) → Bool × Schema
migrated none s f = (false, s)
migrated (some s') s f = f s'

-- The loop over the migrations, which ends the program at the first that fails.
unfoldable pub migrate_all : List Bool → List (List Statement) → Schema → Bool × Schema
unfolding migrate
migrate_all faults [] s = (true, s)
migrate_all faults (m ∷ ms) s =
    migrated (migrate (next_fault faults) m s) s (migrate_all (rest_faults faults) ms)

unfoldable pub migrate_namespace : List Statement
migrate_namespace =
    create_extension skip "pgcrypto"
    ∷ create_table skip
        (record {
          name = "namespace";
          columns = "id" ∷ "name" ∷ "created_at" ∷ [];
          constraints = [];
        })
        []
    ∷ []

unfoldable pub migrate_definition : List Statement
migrate_definition =
    create_extension skip "pgcrypto"
    ∷ create_table skip
        (record {
          name = "workflow_definition";
          columns =
              "id" ∷ "namespace_id" ∷ "name" ∷ "workflow_type" ∷ "version" ∷ "is_active" ∷ "steps"
              ∷ "created_at" ∷ [];
          constraints =
              "fk_workflow_definition_namespace" ∷ "uq_workflow_definition_namespace_name_version"
              ∷ [];
        })
        ("namespace" ∷ [])
    ∷ create_index skip "uq_workflow_definition_active" "workflow_definition"
    ∷ add_column skip "workflow_definition" "default_timeout_seconds"
    ∷ []

unfoldable pub migrate_step : List Statement
migrate_step =
    create_extension skip "pgcrypto"
    ∷ create_table skip
        (record {
          name = "workflow_definition_step";
          columns =
              "id" ∷ "workflow_definition_id" ∷ "step_index" ∷ "step_name"
              ∷ "compensation_step_name" ∷ "task_queue" ∷ "timeout_seconds" ∷ "max_attempts" ∷ [];
          constraints =
              "fk_workflow_definition_step_definition" ∷ "uq_workflow_definition_step_order" ∷ [];
        })
        ("workflow_definition" ∷ [])
    ∷ add_column skip "workflow_definition_step" "compensation_step_name"
    ∷ add_column skip "workflow_definition_step" "timeout_seconds"
    ∷ add_column skip "workflow_definition_step" "max_attempts"
    ∷ []

unfoldable pub migrate_execution : List Statement
migrate_execution =
    create_extension skip "pgcrypto"
    ∷ create_table skip
        (record {
          name = "workflow_execution";
          columns =
              "id" ∷ "workflow_definition_id" ∷ "workflow_name" ∷ "task_queue" ∷ "total_steps"
              ∷ "completed_steps" ∷ "workflow_type" ∷ "input" ∷ "result" ∷ "state" ∷ "error"
              ∷ "current_step" ∷ "created_at" ∷ "scheduled_at" ∷ "updated_at" ∷ "completed_at"
              ∷ "compensation_total" ∷ "compensation_done" ∷ [];
          constraints =
              "fk_workflow_execution_definition" ∷ "chk_workflow_execution_state"
              ∷ "chk_workflow_execution_current_step" ∷ "chk_workflow_execution_completed_steps"
              ∷ [];
        })
        ("workflow_definition" ∷ [])
    ∷ add_column skip "workflow_execution" "compensation_total"
    ∷ add_column skip "workflow_execution" "compensation_done"
    ∷ drop_constraint skip "workflow_execution" "chk_workflow_execution_state"
    ∷ add_constraint "workflow_execution" "chk_workflow_execution_state"
    ∷ add_column skip "workflow_execution" "deadline_at"
    ∷ create_index skip "idx_workflow_execution_deadline" "workflow_execution"
    ∷ []

unfoldable pub migrate_task : List Statement
migrate_task =
    create_extension skip "pgcrypto"
    ∷ create_table skip
        (record {
          name = "task";
          columns =
              "id" ∷ "workflow_execution_id" ∷ "step_index" ∷ "step_name" ∷ "task_queue" ∷ "input"
              ∷ "output" ∷ "state" ∷ "error" ∷ "scheduled_at" ∷ "started_at" ∷ "completed_at"
              ∷ "locked_until" ∷ "attempt" ∷ "max_attempts" ∷ "timeout_seconds" ∷ [];
          constraints =
              "fk_task_workflow_execution" ∷ "uq_task_workflow_step" ∷ "chk_task_state"
              ∷ "chk_task_attempt" ∷ "chk_task_max_attempts" ∷ [];
        })
        ("workflow_execution" ∷ [])
    ∷ add_column skip "task" "attempt"
    ∷ add_column skip "task" "max_attempts"
    ∷ add_column skip "task" "timeout_seconds"
    ∷ drop_constraint skip "task" "chk_task_state"
    ∷ add_constraint "task" "chk_task_state"
    ∷ create_index skip "idx_task_state_queue_scheduled" "task"
    ∷ []

unfoldable pub migrate_history : List Statement
migrate_history =
    create_table skip
      (record {
        name = "history_event";
        columns =
            "id" ∷ "workflow_execution_id" ∷ "step_index" ∷ "step_name" ∷ "event_type" ∷ "payload"
            ∷ "error" ∷ "created_at" ∷ [];
        constraints = "fk_history_event_workflow_execution" ∷ [];
      })
      ("workflow_execution" ∷ [])
    ∷ create_index skip "idx_history_event_execution_id" "history_event"
    ∷ []

unfoldable pub migrate_checkpoint : List Statement
migrate_checkpoint =
    create_table skip
      (record {
        name = "checkpoint";
        columns =
            "id" ∷ "workflow_execution_id" ∷ "step_index" ∷ "state_snapshot" ∷ "created_at" ∷ [];
        constraints =
            "fk_checkpoint_workflow_execution" ∷ "uq_checkpoint_execution_step"
            ∷ "chk_checkpoint_step_index" ∷ [];
      })
      ("workflow_execution" ∷ [])
    ∷ []

unfoldable pub migrate_compensation : List Statement
migrate_compensation =
    create_table skip
      (record {
        name = "compensation_task";
        columns =
            "id" ∷ "workflow_execution_id" ∷ "step_index" ∷ "step_name" ∷ "compensation_step_name"
            ∷ "task_queue" ∷ "input" ∷ "output" ∷ "state" ∷ "error" ∷ "attempt" ∷ "max_attempts"
            ∷ "scheduled_at" ∷ "started_at" ∷ "completed_at" ∷ "locked_until" ∷ [];
        constraints =
            "fk_compensation_task_execution" ∷ "uq_compensation_task_workflow_step"
            ∷ "chk_compensation_task_state" ∷ [];
      })
      ("workflow_execution" ∷ [])
    ∷ drop_constraint skip "compensation_task" "chk_compensation_task_state"
    ∷ add_constraint "compensation_task" "chk_compensation_task_state"
    ∷ add_column skip "compensation_task" "timeout_seconds"
    ∷ create_index skip "idx_compensation_task_state_queue_scheduled" "compensation_task"
    ∷ []

-- In the order of main.go.
unfoldable pub migrations : List (List Statement)
unfolding migrate_namespace migrate_definition migrate_step migrate_execution migrate_task
    migrate_history migrate_checkpoint migrate_compensation
migrations =
    migrate_namespace ∷ migrate_definition ∷ migrate_step ∷ migrate_execution ∷ migrate_task
    ∷ migrate_history ∷ migrate_checkpoint ∷ migrate_compensation ∷ []
