-- ===== src/Usecase/Registration.antt =====
-- usecase/registration.go. Negative counts and timeouts act in it as 0 does, so they are ℕ.
use antflow_server.Base.{
  ℕ, ◌+◌, true, Option, none, some, List, [], ◌∷◌, length, String, str_eq, ltb, ◌==◌, if◌then◌else◌,
}
use antflow_server.Domain.{
  WorkflowType, chain, independent, saga, WorkflowDefinition, WorkflowDefinitionStep, Namespace,
  Err, message, is_not_found, Result, ok, err,
}
use antflow_server.Store.World.{
  M, ◌>>=◌, ◌>>◌, pure, throw, gets, attempt, wrapping, or_throw, run_in_tx, new_uuid,
}
use antflow_server.Store.Namespaces
use antflow_server.Store.Definitions
use antflow_server.Store.Steps

-- The three constants of `WorkflowType`; any other text is refused.
unfoldable pub parse_type : String → Option WorkflowType
parse_type s =
    if str_eq s "CHAIN"
    then some chain
    else if str_eq s "INDEPENDENT"
    then some independent
    else if str_eq s "SAGA"
    then some saga
    else none

module _ {A : Type 0} where
  abbrev pub head_or : A → List A → A
  head_or d [] = d
  head_or d (x ∷ xs) = x

  abbrev pub tail : List A → List A
  tail [] = []
  tail (x ∷ xs) = xs

abbrev pub create_namespace : String → M Namespace
create_namespace name = do
  id ← new_uuid
  now ← gets λ w. w.now
  let ns : Namespace = record { id = id; name = name; created_at = now }
  wrapping "failed to auto-create namespace" (Namespaces.create ns)
  pure ns

unfoldable pub namespace_or_new : String → Result Namespace → M Namespace
namespace_or_new name (ok ns) = pure ns
namespace_or_new name (err e) =
    if is_not_found e then create_namespace name else throw (Err.wrap "failed to get namespace" e)

-- Deactivates the version that is there, and returns the next version's number.
unfoldable pub next_version : Result WorkflowDefinition → M ℕ
next_version (ok existing) = do
  wrapping "failed to deactivate previous definition" (Definitions.deactivate existing.id)
  pure (existing.version + 1)
next_version (err e) =
    if is_not_found e
    then pure 1
    else throw (Err.wrap "failed to check existing workflow definition" e)

abbrev pub attempts_or_default : ℕ → ℕ
attempts_or_default n = if ltb 0 n then n else 3

abbrev pub timeout_or_default : ℕ → ℕ
timeout_or_default n = if n == 0 then 300 else n

abbrev pub definition_step : String → ℕ → String → String → ℕ → ℕ → String → WorkflowDefinitionStep
definition_step def idx step_name comp_name attempts timeout id = record {
  id = id;
  workflow_definition_id = def;
  step_index = idx + 1;
  step_name = step_name;
  compensation_step_name = comp_name;
  timeout_seconds = timeout_or_default timeout;
  task_queue = "";
  max_attempts = attempts_or_default attempts;
}

-- The loop over `stepNames`; the other two slices are read at the same index, where they reach.
unfoldable pub create_steps : String → ℕ → ℕ → List String → List String → List ℕ → M (Unit {0})
create_steps def timeout idx [] comps attempts = pure tt
create_steps def timeout idx (name ∷ names) comps attempts = do
  id ← new_uuid
  wrapping "failed to create workflow steps" (
      Steps.create
        (definition_step def idx name (head_or "" comps) (head_or 0 attempts) timeout id))
  create_steps def timeout (idx + 1) names (tail comps) (tail attempts)

abbrev pub new_definition :
    String → String → String → WorkflowType → ℕ → ℕ → ℕ → ℕ → WorkflowDefinition
new_definition id ns name type version steps timeout now = record {
  id = id;
  namespace_id = ns;
  name = name;
  workflow_type = type;
  version = version;
  is_active = true;
  steps = steps;
  default_timeout_seconds = timeout;
  created_at = now;
}

unfoldable pub register_body :
    String → WorkflowType → List String → List String → ℕ → List ℕ → M WorkflowDefinition
unfolding namespace_or_new next_version
register_body name type step_names comp_names timeout attempts = do
  found ← attempt (Namespaces.get_by_name name)
  ns ← namespace_or_new name found
  existing ← attempt (Definitions.get_by_name ns.id name)
  version ← next_version existing
  id ← new_uuid
  now ← gets λ w. w.now
  let wf = new_definition id ns.id name type version (length step_names) timeout now
  wrapping "failed to create workflow" (Definitions.create wf)
  create_steps id timeout 0 step_names comp_names attempts
  pure wf

unfoldable pub register_workflow :
    String → String → List String → List String → ℕ → List ℕ → M WorkflowDefinition
unfolding parse_type
register_workflow name type [] comp_names timeout attempts = do
  parsed ←
      or_throw (message "invalid workflow type: must be CHAIN, INDEPENDENT, or SAGA")
        (parse_type type)
  throw (message "invalid workflow definition: must contain at least one step")
register_workflow name type (s ∷ ss) comp_names timeout attempts = do
  parsed ←
      or_throw (message "invalid workflow type: must be CHAIN, INDEPENDENT, or SAGA")
        (parse_type type)
  run_in_tx (register_body name parsed (s ∷ ss) comp_names timeout attempts)
