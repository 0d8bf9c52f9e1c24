-- ===== src/Handler/Statuses.antt =====
-- interface/grpc: what a client sees of the service.
use antflow_server.Base.{
  true, false, ◌≡◌, ◌≢◌, ◌↔◌, refl, ap, sym, subst, ◌∙◌, Option, none, some, List, [], ◌∷◌, String,
  str_eq, exists, find, Bool-cases, inl, inr,
}
use antflow_server.Domain.{
  WorkflowExecution, Err, is_not_found, is_invalid_state_transition, Result, ok, err,
}
use antflow_server.Store.World.{Db, World, view}
use antflow_server.Store.Inversion.{bind-ok, query-ok, or_throw-ok}
use antflow_server.Store.Executions.{open_row, has_id}
use antflow_server.Store.Executions
use antflow_server.Usecase.Registration.{parse_type}
use antflow_server.Usecase.Execution.{get_workflow_result}
use antflow_server.Usecase.Cancelling.{cancel_workflow_closed}
use antflow_server.System.{Event, run}
use antflow_server.System.Results.{NoResults, run-no_result}
use antflow_server.Handler.{
  internal, response, status, cancel_code, reply, is_workflow_type, handle_cancel, handle_result,
  Outcome, success, lookup_code, outcome,
}

cancel_code_internal :
    (e : Err)
    → is_not_found e ≡ false
    → is_invalid_state_transition e ≡ false
    → cancel_code e ≡ internal
cancel_code_internal e h k = rw h (rw k refl)

-- A client that cancels an execution that has ended, or that there is not, is told `Internal`, as if
-- the server had failed: neither NotFound nor FailedPrecondition, which the handler provides for it.
-- The id is not empty, and no statement fails otherwise.
pub handle_cancel_closed :
    (id : String) (w : World)
    → str_eq id "" ≡ false
    → exists (open_row id) w.db.executions ≡ false
    → w.faults ≡ []
    → ((handle_cancel id w).0 ≡ status internal)
      × ((handle_cancel id w).1.db.executions ≡ w.db.executions)
unfolding handle_cancel
handle_cancel_closed id w n h f =
    let (e, p, _, q, r, same) = cancel_workflow_closed id w h f in
    rw n (ap (reply cancel_code success) p ∙ ap status (cancel_code_internal e q r), same)

-- The handler and the service check the type of a workflow alike: the handler lets exactly those
-- texts through that the service has a type for.
pub is_workflow_type_iff : (s : String) → (is_workflow_type s ≡ true) ↔ (parse_type s ≢ none)
unfolding parse_type
is_workflow_type_iff s = elim (Bool-cases (str_eq s "CHAIN")) [
  | inl e ↦ rw e ((λ _ h. absurd cc), (λ _. refl))
  | inr e ↦ elim (Bool-cases (str_eq s "INDEPENDENT")) [
    | inl f ↦ rw e (rw f ((λ _ h. absurd cc), (λ _. refl)))
    | inr f ↦ elim (Bool-cases (str_eq s "SAGA")) [
      | inl g ↦ rw e (rw f (rw g ((λ _ h. absurd cc), (λ _. refl))))
      | inr g ↦ rw e (rw f (rw g ((λ h. absurd cc), (λ h. absurd (h refl)))))
    ]
  ]
]

found-NoResult :
    (id : String) (xs : List WorkflowExecution) {x : WorkflowExecution}
    → NoResults xs
    → find (has_id id) xs ≡ some x
    → x.result ≡ []
found-NoResult id [] n h = absurd cc
found-NoResult id (y ∷ xs) {x = x} n h = elim (Bool-cases (str_eq y.id id)) [
  | inl e ↦ (let q = rw e at h in let r : y ≡ x = cc in subst (λ z. z.result ≡ []) r n.0)
  | inr e ↦ found-NoResult id xs n.1 (rw e at h)
]

get_result :
    (id : String) (w : World) (x : WorkflowExecution)
    → NoResults (view w).executions
    → (get_workflow_result id w).0 ≡ ok x
    → x.result ≡ []
unfolding get_workflow_result Executions.get_by_id
get_result id w x n h =
    let f : Db → Option WorkflowExecution = λ d. find (has_id id) d.executions in
    let (o, e, q) = bind-ok _ _ w h in
    let (m, _) = query-ok f w e in
    let p = or_throw-ok _ o _ (ap (λ r. r.0) (sym q) ∙ h) in
    found-NoResult id (view w).executions n (m ∙ p.0)

answered :
    (v : World) (id : String) (o : Outcome) (r : Result WorkflowExecution)
    → NoResults (view v).executions
    → (get_workflow_result id v).0 ≡ r
    → reply lookup_code outcome r ≡ response o
    → o.result ≡ []
answered v id o (ok x) n e p =
    let q : outcome x ≡ o = cc in sym (ap (λ y. y.result) q) ∙ get_result id v x n e
answered v id o (err x) n e p = absurd cc

-- No client ever gets a result: whatever calls the server has served, from tables in which no
-- execution has a result, a GetWorkflowResult that answers with the state of an execution answers
-- with no result, a completed one included.
pub handle_result-run :
    (w v : World) (es : List Event) (id : String) (o : Outcome)
    → NoResults w.db.executions
    → view v ≡ (run w es).db
    → (handle_result id v).0 ≡ response o
    → o.result ≡ []
unfolding handle_result
handle_result-run w v es id o n s h = elim (Bool-cases (str_eq id "")) [
  | inl e ↦ absurd (let q = rw e at h in cc)
  | inr e ↦
      answered v id o (get_workflow_result id v).0
        (subst (λ d. NoResults d.executions) (sym s) (run-no_result w es n)) refl (rw e at h)
]
