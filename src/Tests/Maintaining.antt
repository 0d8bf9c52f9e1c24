-- ===== src/Tests/Maintaining.antt =====
-- The maintenance of running workflows, on the small server.
use antflow_server.Base.{◌≡◌, false, some, [], ◌∷◌, map, exists, select, update}
use antflow_server.Domain.{WorkflowExecution, WorkflowDefinitionStep, Bytes, ok}
use antflow_server.Store.World.{Db, World}
use antflow_server.Store.Calm.{outside}
use antflow_server.Store.Executions.{is_overdue, expire_row}
use antflow_server.Store.Steps
use antflow_server.Store.Tasks
use antflow_server.Store.Checkpoints
use antflow_server.Usecase.Service.{expire_overdue_workflows, recovery_input}
use antflow_server.Usecase.Expiring.{AreQuiet, expire_overdue_workflows-outside}
use antflow_server.Tests.{server, tables, busy, over, step}

-- Its deadline was at 5; it is 7.
abbrev late : WorkflowExecution
late = record busy { deadline_at = some 5 }

abbrev late_tables : Db
late_tables = record tables { executions = late ∷ over ∷ [] }

expire_overdue_workflows-outside_example :
    (e : Db) × (v : World) × (expire_overdue_workflows (outside late_tables (server []))
      ≡ (ok tt, outside e v))
    × (exists (is_overdue 7) e.executions ≡ false)
    × (e.executions ≡ update (is_overdue 7) (expire_row 7) (late ∷ over ∷ []))
    × AreQuiet (map (λ r. r.id) (select (is_overdue 7) (late ∷ over ∷ []))) e
expire_overdue_workflows-outside_example = expire_overdue_workflows-outside late_tables (server [])

-- The task of step 2 was lost, after step 1 had left its checkpoint.
abbrev lost_tables : Db
lost_tables = record tables { tasks = [] }

abbrev at_second : WorkflowExecution
at_second = record busy { current_step = 2; input = 1 ∷ [] }

abbrev third_step : WorkflowDefinitionStep
third_step = step 3 "ship" ""

abbrev lost_input : Bytes
lost_input =
    recovery_input at_second (Checkpoints.get_latest "x" 2 (outside lost_tables (server []))).0
