-- ===== src/Store/Definitions.antt =====
-- infrastructure/persistence/workflow_definition_repository.go.
use antflow_server.Base.{
  ℕ, Bool, false, not, ◌&&◌, some, List, [], ◌∷◌, ◌++◌, String, str_eq, exists, find, select,
  update, ◌==◌, leb, map, if◌then◌else◌,
}
use mathlib.Core.Option
use antflow_server.Domain.{WorkflowDefinition, not_found}
use antflow_server.Store.World.{Db, M, ◌>>=◌, pure, throw, stmt, base_query, insert_if, or_throw}

abbrev pub same_name : String → String → WorkflowDefinition → Bool
same_name ns name r = str_eq r.namespace_id ns && str_eq r.name name

abbrev pub active_name : String → String → WorkflowDefinition → Bool
active_name ns name r = same_name ns name r && r.is_active

-- PRIMARY KEY (id), the foreign key to the namespace, UNIQUE (namespace_id, name, version), and the
-- partial index: UNIQUE (namespace_id, name) WHERE is_active.
unfoldable pub definition_fits : WorkflowDefinition → Db → Bool
definition_fits x d =
    exists (λ r. str_eq r.id x.namespace_id) d.namespaces
    && not (exists (λ r. str_eq r.id x.id) d.definitions)
    && not (exists (λ r. same_name x.namespace_id x.name r && r.version == x.version) d.definitions)
    && not (x.is_active && exists (active_name x.namespace_id x.name) d.definitions)

abbrev pub first_version : ℕ → ℕ
first_version v = if v == 0 then 1 else v

-- The row that the INSERT writes: it names no default_timeout_seconds, whose default is 0.
abbrev pub definition_row : WorkflowDefinition → WorkflowDefinition
definition_row x = record x { version = first_version x.version; default_timeout_seconds = 0 }

unfoldable pub create : WorkflowDefinition → M (Unit {0})
create x = stmt λ d.
    insert_if (definition_fits (definition_row x) d)
      (record d { definitions = d.definitions ++ definition_row x ∷ [] })

unfoldable pub deactivate : String → M (Unit {0})
deactivate id = do
  hit ← stmt λ d. some (
    exists (λ r. str_eq r.id id) d.definitions,
    record d {
      definitions =
          update (λ r. str_eq r.id id) (λ r. record r { is_active = false }) d.definitions;
    },
  )
  if hit then pure tt else throw not_found

-- The SELECT names no default_timeout_seconds, which stays 0 in the struct that is returned.
abbrev pub scan_definition : WorkflowDefinition → WorkflowDefinition
scan_definition r = record r { default_timeout_seconds = 0 }

unfoldable pub get_by_id : String → M WorkflowDefinition
get_by_id id = do
  row ← base_query λ d. Option.map scan_definition (find (λ r. str_eq r.id id) d.definitions)
  or_throw not_found row

unfoldable pub get_by_name : String → String → M WorkflowDefinition
get_by_name ns name = do
  row ← base_query λ d. Option.map scan_definition (find (active_name ns name) d.definitions)
  or_throw not_found row

-- ORDER BY created_at ASC
insert_by_age : WorkflowDefinition → List WorkflowDefinition → List WorkflowDefinition
insert_by_age x [] = x ∷ []
insert_by_age x (y ∷ ys) =
    let rest = insert_by_age x ys in if leb x.created_at y.created_at then x ∷ y ∷ ys else y ∷ rest

by_age : List WorkflowDefinition → List WorkflowDefinition
unfolding insert_by_age
by_age [] = []
by_age (x ∷ xs) = insert_by_age x (by_age xs)

unfoldable pub get_by_namespace_id : String → M (List WorkflowDefinition)
unfolding by_age
get_by_namespace_id ns =
    base_query
      λ d. by_age (map scan_definition (select (λ r. str_eq r.namespace_id ns) d.definitions))
