-- ===== src/Tests/Registering.antt =====
-- A registration on the small server, a second version of its workflow, read back.
use antflow_server.Base.{◌≡◌, refl, true, List, [], ◌∷◌, str_eq}
use antflow_server.Domain.{WorkflowDefinition, WorkflowDefinitionStep, chain, is_not_found, ok}
use antflow_server.Store.World.{
  World, ◌>>=◌, pure, throw, gets, attempt, wrapping, or_throw, stmt, query, base_stmt, base_query,
  run_in_tx, new_uuid,
}
use antflow_server.Store.Namespaces
use antflow_server.Store.Definitions.{definition_row, scan_definition}
use antflow_server.Store.Definitions
use antflow_server.Store.Steps
use antflow_server.Usecase.Registration.{
  register_workflow, parse_type, register_body, namespace_or_new, next_version, create_steps,
}
use antflow_server.Usecase.Registered.{AsRegistered}
use antflow_server.Usecase.Registered.Reading.{register_workflow-read}
use antflow_server.Tests.{server}
use antflow_server.Tests.Invariants.{tables-HasKeys}

abbrev second : WorkflowDefinition
second = record {
  id = "u";
  namespace_id = "ns";
  name = "wf";
  workflow_type = chain;
  version = 2;
  is_active = true;
  steps = 2;
  default_timeout_seconds = 60;
  created_at = 7;
}

abbrev registered : World
registered = (register_workflow "wf" "CHAIN" ("a" ∷ "b" ∷ []) [] 60 (5 ∷ []) (server [])).1

registers :
    (register_workflow "wf" "CHAIN" ("a" ∷ "b" ∷ []) [] 60 (5 ∷ []) (server [])).0 ≡ ok second
unfolding register_workflow parse_type run_in_tx ◌>>=◌ register_body namespace_or_new next_version
    attempt Namespaces.get_by_name Definitions.get_by_name Definitions.deactivate Definitions.create
    Definitions.definition_fits Steps.create Steps.step_fits create_steps base_query base_stmt
    or_throw throw query stmt pure gets wrapping new_uuid is_not_found str_eq
registers = refl

abbrev later : World
later = record (server []) { db = registered.db }

register_workflow-read_example :
    (second.name ≡ "wf")
    × (second.steps ≡ 2)
    × ((Definitions.get_by_id "u" later).0 ≡ ok (scan_definition (definition_row second)))
    × ((Definitions.get_by_name "ns" "wf" later).0 ≡ ok (scan_definition (definition_row second)))
    × ((rows : List WorkflowDefinitionStep) × ((Steps.get_steps_by_definition_id "u" later).0
          ≡ ok rows)
        × AsRegistered "u" 60 0 ("a" ∷ "b" ∷ []) [] (5 ∷ []) rows)
register_workflow-read_example =
    register_workflow-read "wf" "CHAIN" ("a" ∷ "b" ∷ []) [] 60 (5 ∷ []) (server []) later second
      tables-HasKeys registers refl refl
