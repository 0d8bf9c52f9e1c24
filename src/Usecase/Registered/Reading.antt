-- ===== src/Usecase/Registered/Reading.antt =====
-- usecase/registration.go: reading a registered workflow back.
use antflow_server.Base.{
  ℕ, ◌+◌, true, false, ◌≡◌, refl, sym, ◌∙◌, ap, subst, some, List, [], ◌∷◌, length, String, leb,
  find, arith,
}
use mathlib.Core.Option.{Option}
use mathlib.Core.Option
use antflow_server.Domain.{
  WorkflowType, WorkflowDefinition, WorkflowDefinitionStep, Err, not_found, ok,
}
use antflow_server.Store.World.{
  Db, World, M, next_fault, base_query, base_stmt, or_throw, pure, throw, run_in_tx, ◌>>=◌,
  wrapping, commit_db,
}
use antflow_server.Store.Inversion.{bind-ok, or_throw-ok}
use antflow_server.Store.Definitions.{active_name, definition_row, definition_fits, scan_definition}
use antflow_server.Store.Definitions
use antflow_server.Store.Steps.{of_definition, by_index, insert_step}
use antflow_server.Store.Steps
use antflow_server.Store.Keys.{HasKeys}
use antflow_server.Store.Leaves.{
  Leaves, Leaves-pure, Leaves-gets, Leaves-wrapping, Leaves-bind, Leaves-new_uuid, Leaves-run_in_tx,
  Keeps-view,
}
use antflow_server.Store.Frame.Rules.{Keeps}
use antflow_server.Store.Frame.Statements.Workers.{statement_rules}
use antflow_server.Store.Keys.Kept.{keys_frame}
use antflow_server.Usecase.Frames.{namespace_or_new-Keeps, next_version-Keeps}
use antflow_server.Usecase.Registration.{
  parse_type, new_definition, tail, create_steps, register_body, register_workflow,
}
use antflow_server.Usecase.Registered.{AsRegistered, Holds, create-Leaves, create_steps-Leaves}

-- Rows that are in order stay in order.
by_index-AsRegistered :
    (def : String) (timeout idx : ℕ) (names comps : List String) (attempts : List ℕ)
    (rows : List WorkflowDefinitionStep)
    → AsRegistered def timeout idx names comps attempts rows
    → by_index rows ≡ rows
unfolding by_index insert_step
by_index-AsRegistered def timeout idx [] comps attempts [] h = refl
by_index-AsRegistered def timeout idx [] comps attempts (r ∷ rs) h = absurd h
by_index-AsRegistered def timeout idx (n ∷ ns) comps attempts [] h = absurd h
by_index-AsRegistered def timeout idx (n ∷ ns) comps attempts (r ∷ rs) h =
    rw (by_index-AsRegistered def timeout (idx + 1) ns (tail comps) (tail attempts) rs h.1) (
      at_front def timeout idx ns (tail comps) (tail attempts) r rs (ap (λ x. x.step_index) h.0)
        h.1)
  where
    at_front :
        (def : String) (timeout idx : ℕ) (names comps : List String) (attempts : List ℕ)
        (r : WorkflowDefinitionStep) (rs : List WorkflowDefinitionStep)
        → r.step_index ≡ idx + 1
        → AsRegistered def timeout (idx + 1) names comps attempts rs
        → insert_step r rs ≡ r ∷ rs
    at_front def timeout idx names comps attempts r [] e h = refl
    at_front def timeout idx [] comps attempts r (y ∷ ys) e h = absurd h
    at_front def timeout idx (n ∷ ns) comps attempts r (y ∷ ys) e h =
        let k : y.step_index ≡ idx + 1 + 1 = ap (λ x. x.step_index) h.0 in
        let l : leb r.step_index y.step_index ≡ true = ground arith in rw l refl

-- What a registration leaves, besides the definition that it returns.
pub record IsRegistered (name : String) (names comps : List String) (timeout : ℕ)
    (attempts : List ℕ) (def : WorkflowDefinition) (d : Db) : Type 0 where
  pub same_name : def.name ≡ name
  pub count : def.steps ≡ length names
  pub rows : List WorkflowDefinitionStep
  pub registered : AsRegistered def.id timeout 0 names comps attempts rows
  pub held : Holds (definition_row def) rows d

register_body-Leaves :
    (name : String) (t : WorkflowType) (names comps : List String) (timeout : ℕ) (attempts : List ℕ)
    → Leaves HasKeys
        (register_body name t names comps timeout attempts)
        (IsRegistered name names comps timeout attempts)
unfolding register_body
register_body-Leaves name t names comps timeout attempts =
    Leaves-bind _ _ _ _ _ (Leaves-keeps _ (search statement_rules)) λ found.
      Leaves-bind _ _ _ _ _ (Leaves-keeps _ (namespace_or_new-Keeps keys_frame name found)) λ ns.
        Leaves-bind _ _ _ _ _ (Leaves-keeps _ (search statement_rules)) λ existing.
          Leaves-bind _ _ _ _ _ (Leaves-keeps _ (next_version-Keeps keys_frame existing)) λ version.
            Leaves-bind _ _ _ _ _ (Leaves-new_uuid _) λ id.
              Leaves-bind _ _ _ _ _ (Leaves-gets _ _) λ now.
                written name t names comps timeout attempts
                  (new_definition id ns.id name t version (length names) timeout now) refl refl refl
  where
    Leaves-keeps : {A : Type 0} (m : M A) → Keeps keys_frame m → Leaves HasKeys m (λ a. HasKeys)
    Leaves-keeps m k = record { at = λ w a p h. Keeps-view keys_frame m k w p }

    written :
        (name : String) (t : WorkflowType) (names comps : List String) (timeout : ℕ)
        (attempts : List ℕ) (x : WorkflowDefinition)
        → x.is_active ≡ true
        → x.name ≡ name
        → x.steps ≡ length names
        → Leaves HasKeys
            (wrapping "failed to create workflow" (Definitions.create x) >>= λ u.
              create_steps x.id timeout 0 names comps attempts >>= λ v. pure x)
            (IsRegistered name names comps timeout attempts)
    written name t names comps timeout attempts x a e n =
        Leaves-bind _ _ _ _ _ (Leaves-wrapping _ _ _ _ (create-Leaves x a)) λ u.
          Leaves-bind _ _ _ _ _
            (create_steps-Leaves (definition_row x) [] timeout 0 names comps attempts)
            λ v. Leaves-pure _ _ _ λ d (rows, r, h). record {
              same_name = e;
              count = n;
              rows = rows;
              registered = r;
              held = h;
            }

-- A SELECT of one row on a database that answers.
read-row :
    {A : Type 0} (e : Err) (f : Db → Option A) (v : World) {a : A}
    → next_fault v.faults ≡ false
    → f v.db ≡ some a
    → ((base_query f >>= or_throw e) v).0 ≡ ok a
unfolding base_query base_stmt or_throw ◌>>=◌ pure
read-row e f v h k = rw h (rw k refl)

thrown :
    (e : Err) (v : World) (def : WorkflowDefinition)
    → ¬ ((throw {A = WorkflowDefinition} e v).0 ≡ ok def)
unfolding throw
thrown e v def h = absurd cc

register_workflow-IsRegistered :
    (name t : String) (names comps : List String) (timeout : ℕ) (attempts : List ℕ) (w : World)
    (def : WorkflowDefinition)
    → HasKeys w.db
    → (register_workflow name t names comps timeout attempts w).0 ≡ ok def
    → (d e : Db) × IsRegistered name names comps timeout attempts def d
      × ((register_workflow name t names comps timeout attempts w).1.db ≡ commit_db d e)
unfolding register_workflow
register_workflow-IsRegistered name t [] comps timeout attempts w def k h =
    let (parsed, _, q) = bind-ok (or_throw _ (parse_type t)) _ w h in
    absurd (thrown _ _ def (ap (λ r. r.0) (sym q) ∙ h))
register_workflow-IsRegistered name t (s ∷ ss) comps timeout attempts w def k h =
    let (parsed, p, q) = bind-ok (or_throw _ (parse_type t)) _ w h in
    let same : (or_throw _ (parse_type t) w).1 ≡ w = (or_throw-ok _ (parse_type t) w p).1 in
    let body = register_body name parsed (s ∷ ss) comps timeout attempts in
    let q' = q ∙ ap (run_in_tx body) same in
    let (d, e, r, c) =
      Leaves-run_in_tx HasKeys body _
        (register_body-Leaves name parsed (s ∷ ss) comps timeout attempts) w def k
        (ap (λ r. r.0) (sym q') ∙ h) in
    (d, e, r, ap (λ r. r.1.db) q' ∙ c)

-- Reading a workflow back: a RegisterWorkflow that returned a definition has stored it and its
-- steps. On a database that answers, GetByID and GetByName find that version, with the default
-- timeout as 0, and GetStepsByDefinitionID returns all of them, in the
-- order given, each with its index from 1, its compensation and its attempts (3 where none are
-- given) and the timeout (300 where none is given).
pub register_workflow-read :
    (name t : String) (names comps : List String) (timeout : ℕ) (attempts : List ℕ) (w v : World)
    (def : WorkflowDefinition)
    → HasKeys w.db
    → (register_workflow name t names comps timeout attempts w).0 ≡ ok def
    → v.db ≡ (register_workflow name t names comps timeout attempts w).1.db
    → next_fault v.faults ≡ false
    → (def.name ≡ name)
      × (def.steps ≡ length names)
      × ((Definitions.get_by_id def.id v).0 ≡ ok (scan_definition (definition_row def)))
      × ((Definitions.get_by_name def.namespace_id name v).0
          ≡ ok (scan_definition (definition_row def)))
      × ((rows : List WorkflowDefinitionStep) × ((Steps.get_steps_by_definition_id def.id v).0
            ≡ ok rows)
          × AsRegistered def.id timeout 0 names comps attempts rows)
unfolding Definitions.get_by_id Definitions.get_by_name Steps.get_steps_by_definition_id base_query
    base_stmt
register_workflow-read name t names comps timeout attempts w v def k h same quiet =
    let (d, e, r, c) =
      register_workflow-IsRegistered name t names comps timeout attempts w def k h in
    let db : v.db ≡ commit_db d e = same ∙ c in
    (
      r.same_name,
      r.count,
      read-row not_found _ v quiet (rw db (ap (Option.map scan_definition) r.held.by_id)),
      read-row not_found _ v quiet (
          rw db (
            ap (Option.map scan_definition) (
              subst
                (λ n.
                  find (active_name def.namespace_id n) d.definitions ≡ some (definition_row def))
                r.same_name r.held.by_name))),
      (
        r.rows,
        rw quiet (
            rw db (
              rw r.held.steps (
                ap ok (
                  by_index-AsRegistered def.id timeout 0 names comps attempts r.rows
                    r.registered)))),
        r.registered,
      ),
    )
