-- ===== src/Store/Steps.antt =====
-- infrastructure/persistence/workflow_definition_step.go.
use antflow_server.Base.{
  ℕ, zero, suc, Bool, false, not, ◌&&◌, Option, none, some, List, [], ◌∷◌, ◌++◌, String, str_eq,
  exists, find, select, ◌==◌, leb, if◌then◌else◌,
}
use antflow_server.Domain.{WorkflowDefinitionStep, not_found}
use antflow_server.Store.World.{Db, M, ◌>>=◌, stmt, query, base_query, insert_if, or_throw}

-- The foreign key to the definition, and UNIQUE (workflow_definition_id, step_index).
unfoldable pub step_fits : WorkflowDefinitionStep → Db → Bool
step_fits x d =
    exists (λ r. str_eq r.id x.workflow_definition_id) d.definitions
    && not (
        exists
          (λ r.
            str_eq r.workflow_definition_id x.workflow_definition_id
            && r.step_index == x.step_index)
          d.steps)

-- The row's id is `gen_random_uuid()` of the database, which nothing reads: the struct's id stands
-- for it.
unfoldable pub create : WorkflowDefinitionStep → M (Unit {0})
unfolding step_fits
create x = stmt λ d. insert_if (step_fits x d) (record d { steps = d.steps ++ x ∷ [] })

-- ORDER BY step_index ASC
unfoldable pub insert_step :
    WorkflowDefinitionStep → List WorkflowDefinitionStep → List WorkflowDefinitionStep
insert_step x [] = x ∷ []
insert_step x (y ∷ ys) =
    let rest = insert_step x ys in if leb x.step_index y.step_index then x ∷ y ∷ ys else y ∷ rest

unfoldable pub by_index : List WorkflowDefinitionStep → List WorkflowDefinitionStep
unfolding insert_step
by_index [] = []
by_index (x ∷ xs) = insert_step x (by_index xs)

-- ORDER BY step_index DESC
unfoldable pub insert_step_desc :
    WorkflowDefinitionStep → List WorkflowDefinitionStep → List WorkflowDefinitionStep
insert_step_desc x [] = x ∷ []
insert_step_desc x (y ∷ ys) =
    let rest = insert_step_desc x ys in
    if leb y.step_index x.step_index then x ∷ y ∷ ys else y ∷ rest

unfoldable pub by_index_desc : List WorkflowDefinitionStep → List WorkflowDefinitionStep
unfolding insert_step_desc
by_index_desc [] = []
by_index_desc (x ∷ xs) = insert_step_desc x (by_index_desc xs)

abbrev pub of_definition : String → WorkflowDefinitionStep → Bool
of_definition def r = str_eq r.workflow_definition_id def

unfoldable pub get_steps_by_definition_id : String → M (List WorkflowDefinitionStep)
unfolding by_index
get_steps_by_definition_id def = base_query λ d. by_index (select (of_definition def) d.steps)

abbrev pub of_index : String → ℕ → WorkflowDefinitionStep → Bool
of_index def index r = of_definition def r && r.step_index == index

unfoldable pub get_by_definition_and_index : String → ℕ → M WorkflowDefinitionStep
get_by_definition_and_index def index = do
  row ← query λ d. find (of_index def index) d.steps
  or_throw not_found row

-- `n - 1` on Go's int; `none` is -1, below every step.
abbrev pub int_pred : ℕ → Option ℕ
int_pred zero = none
int_pred (suc n) = some n

abbrev pub index_le : ℕ → Option ℕ → Bool
index_le i none = false
index_le i (some n) = leb i n

-- The WHERE clause: a handler is named, and the step is not after `up_to`.
abbrev pub is_compensated : String → Option ℕ → WorkflowDefinitionStep → Bool
is_compensated def up_to r =
    of_definition def r && index_le r.step_index up_to && not (str_eq r.compensation_step_name "")

unfoldable pub compensation_steps :
    String → Option ℕ → List WorkflowDefinitionStep → List WorkflowDefinitionStep
unfolding by_index_desc
compensation_steps def up_to rows = by_index_desc (select (is_compensated def up_to) rows)

unfoldable pub get_compensation_steps : String → Option ℕ → M (List WorkflowDefinitionStep)
get_compensation_steps def up_to = base_query λ d. compensation_steps def up_to d.steps
