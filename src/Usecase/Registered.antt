-- ===== src/Usecase/Registered.antt =====
-- usecase/registration.go: what RegisterWorkflow has written is what the repositories read.
pub mod Reading
use antflow_server.Base.{
  ℕ, ◌+◌, true, false, ◌≡◌, refl, sym, ◌∙◌, ap, subst, some, List, [], ◌∷◌, ◌++◌, length, String,
  str_eq, str_eq_iff, str_eq_refl, leb, exists, find, find-new, select, select-append, append_nil,
  append_assoc, Bool-cases, inl, inr, arith,
}
use mathlib.Core.Option.{Option}
use mathlib.Core.Option
use antflow_server.Domain.{
  WorkflowType, WorkflowDefinition, WorkflowDefinitionStep, Err, not_found, ok,
}
use antflow_server.Store.World.{
  Db, World, M, next_fault, base_query, base_stmt, or_throw, pure, throw, run_in_tx, ◌>>=◌,
  wrapping, commit_db,
}
use antflow_server.Store.Inversion.{bind-ok, or_throw-ok}
use antflow_server.Store.Definitions.{active_name, definition_row, definition_fits, scan_definition}
use antflow_server.Store.Definitions
use antflow_server.Store.Steps.{of_definition, by_index, insert_step}
use antflow_server.Store.Steps
use antflow_server.Store.Keys.{HasKeys, AreOwned}
use antflow_server.Store.Leaves.{
  Leaves, Leaves-pure, Leaves-gets, Leaves-wrapping, Leaves-bind, Leaves-insert, Leaves-new_uuid,
  Leaves-run_in_tx, Leaves-weaken, Keeps-view,
}
use antflow_server.Store.Frame.Rules.{Keeps}
use antflow_server.Store.Frame.Statements.Workers.{statement_rules}
use antflow_server.Store.Keys.Kept.{keys_frame}
use antflow_server.Usecase.Frames.{namespace_or_new-Keeps, next_version-Keeps}
use antflow_server.Usecase.Registration.{
  definition_step, parse_type, new_definition, head_or, tail, create_steps, register_body,
  register_workflow,
}

-- The rows of the steps in their order: each has the next index, its name, its compensation and its
-- attempts, which default where the lists are too short, and the timeout.
abbrev pub AsRegistered :
    String → ℕ → ℕ → List String → List String → List ℕ → List WorkflowDefinitionStep → Type 0
AsRegistered def timeout idx [] comps attempts [] = Unit {0}
AsRegistered def timeout idx [] comps attempts (r ∷ rs) = ⊥
AsRegistered def timeout idx (n ∷ ns) comps attempts [] = ⊥
AsRegistered def timeout idx (n ∷ ns) comps attempts (r ∷ rs) =
    (r ≡ definition_step def idx n (head_or "" comps) (head_or 0 attempts) timeout r.id)
    × AsRegistered def timeout (idx + 1) ns (tail comps) (tail attempts) rs

-- A definition in the tables, and its steps so far.
pub record Holds (row : WorkflowDefinition) (rows : List WorkflowDefinitionStep) (d : Db)
    : Type 0 where
  pub by_id : find (λ r. str_eq r.id row.id) d.definitions ≡ some row
  pub by_name : find (active_name row.namespace_id row.name) d.definitions ≡ some row
  pub steps : select (of_definition row.id) d.steps ≡ rows

-- Steps belong to definitions that are there, so a new definition has none.
owned-none :
    (id : String) (ds : List WorkflowDefinition) (ss : List WorkflowDefinitionStep)
    → AreOwned ds ss
    → exists (λ r. str_eq r.id id) ds ≡ false
    → select (of_definition id) ss ≡ []
owned-none id ds [] h e = refl
owned-none id ds (s ∷ ss) h e = elim (Bool-cases (of_definition id s)) [
  | inl k ↦ absurd (let q = rw ((str_eq_iff s.workflow_definition_id id).0 k) at h.0 in cc)
  | inr k ↦ rw k (owned-none id ds ss h.1 e)
]

fits-Holds :
    (x : WorkflowDefinition) (d : Db)
    → x.is_active ≡ true
    → HasKeys d
    → definition_fits (definition_row x) d ≡ true
    → Holds
        (definition_row x)
        []
        (record d { definitions = d.definitions ++ definition_row x ∷ [] })
unfolding definition_fits
fits-Holds x d a k h =
    let new : exists (λ r. str_eq r.id x.id) d.definitions ≡ false = ground arith in
    let alone : exists (active_name x.namespace_id x.name) d.definitions ≡ false = ground arith in
    record {
      by_id =
          find-new (λ r. str_eq r.id x.id) d.definitions (definition_row x) new (str_eq_refl x.id);
      by_name =
          find-new (active_name x.namespace_id x.name) d.definitions (definition_row x) alone
            (rw (str_eq_refl x.namespace_id) (rw (str_eq_refl x.name) a));
      steps = owned-none x.id d.definitions d.steps k.of_steps.owned new;
    }

pub create-Leaves :
    (x : WorkflowDefinition)
    → x.is_active ≡ true
    → Leaves HasKeys (Definitions.create x) (λ u. Holds (definition_row x) [])
unfolding Definitions.create
create-Leaves x a =
    Leaves-insert HasKeys (definition_fits (definition_row x)) _ _ λ d k h. fits-Holds x d a k h

step-Leaves :
    (row : WorkflowDefinition) (rows : List WorkflowDefinitionStep) (x : WorkflowDefinitionStep)
    → x.workflow_definition_id ≡ row.id
    → Leaves (Holds row rows) (Steps.create x) (λ u. Holds row (rows ++ x ∷ []))
unfolding Steps.create
step-Leaves row rows x e = Leaves-insert (Holds row rows) (Steps.step_fits x) _ _ λ d k h. record {
  by_id = k.by_id;
  by_name = k.by_name;
  steps =
      select-append (of_definition row.id) d.steps (x ∷ [])
      ∙ (let m : of_definition row.id x ≡ true = rw e (str_eq_refl row.id) in
          rw m (ap (λ l. l ++ x ∷ []) k.steps));
}

pub create_steps-Leaves :
    (row : WorkflowDefinition) (rows : List WorkflowDefinitionStep) (timeout idx : ℕ)
    (names comps : List String) (attempts : List ℕ)
    → Leaves (Holds row rows) (create_steps row.id timeout idx names comps attempts) (λ u d.
      (new : List WorkflowDefinitionStep) × AsRegistered row.id timeout idx names comps attempts new
      × Holds row (rows ++ new) d)
unfolding create_steps
create_steps-Leaves row rows timeout idx [] comps attempts =
    Leaves-pure _ _ _ λ d h. ([], tt, subst (λ l. Holds row l d) (sym (append_nil rows)) h)
create_steps-Leaves row rows timeout idx (n ∷ ns) comps attempts =
    Leaves-bind _ _ _ _ _ (Leaves-new_uuid _) λ id.
      let x = definition_step row.id idx n (head_or "" comps) (head_or 0 attempts) timeout id in
      Leaves-bind _ _ _ _ _ (Leaves-wrapping _ _ _ _ (step-Leaves row rows x refl)) λ u.
        Leaves-weaken _ _ _ _
          (λ v d (new, a, h).
            (x ∷ new, (refl, a), subst (λ l. Holds row l d) (append_assoc rows (x ∷ []) new) h))
          (create_steps-Leaves row (rows ++ x ∷ []) timeout (idx + 1) ns (tail comps)
            (tail attempts))
