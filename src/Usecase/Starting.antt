-- ===== src/Usecase/Starting.antt =====
-- usecase/execution.go: what StartWorkflow returns.
use mathlib.Core.Option
use antflow_server.Base.{
  ℕ, ◌≡◌, ◌+◌, ◌*◌, ◌/◌, ◌%◌, ◌≤◌, ltb, true, refl, ap, sym, ◌∙◌, Option, none, some, String,
  str_eq, find, arith, Bool-cases, Option-cases, inl, inr, if◌then◌else◌,
}
use antflow_server.Store.Inversion.{bind-ok}
use antflow_server.Domain.{WorkflowDefinition, WorkflowExecution, Bytes, running, ok}
use antflow_server.Store.World.{
  World, next_fault, base_query, base_stmt, or_throw, ◌>>=◌, ◌>>◌, pure, notify, run_in_tx,
  wrapping, new_uuid, gets,
}
use antflow_server.Store.Returns.{
  Returns, Returns-pure, Returns-wrapping, Returns-or_throw, Returns-base_query, Returns-run_in_tx,
  Returns-after, Returns-bind,
}
use antflow_server.Store.Definitions.{scan_definition}
use antflow_server.Store.Definitions
use antflow_server.Usecase.Execution.{
  start_workflow, start_body, new_execution, deadline, effective_timeout, after_seconds,
}

-- The definition that a SELECT returns has no default timeout.
abbrev HasNoDefault : WorkflowDefinition → Type 0
HasNoDefault d = d.default_timeout_seconds ≡ 0

scanned-HasNoDefault :
    (o o' : Option WorkflowDefinition) (d : WorkflowDefinition)
    → o' ≡ Option.map scan_definition o
    → o' ≡ some d
    → HasNoDefault d
scanned-HasNoDefault none o' d e h = absurd cc
scanned-HasNoDefault (some r) o' d e h =
    let q : scan_definition r ≡ d = cc in sym (ap (λ x. x.default_timeout_seconds) q)

get_by_id-HasNoDefault : (id : String) → Returns HasNoDefault (Definitions.get_by_id id)
unfolding Definitions.get_by_id
get_by_id-HasNoDefault id =
    Returns-after HasNoDefault
      (λ o. (r : Option WorkflowDefinition) × (o ≡ Option.map scan_definition r)) _ _
      (Returns-base_query _ _ (λ d. (find (λ r. str_eq r.id id) d.definitions, refl)))
      (λ o h. Returns-or_throw HasNoDefault _ o (λ d e. scanned-HasNoDefault h.0 o d h.1 e))

start_body-Returns :
    (P : WorkflowExecution → Type 0) (def : WorkflowDefinition) (exec : WorkflowExecution)
    (queue : String) (input : Bytes)
    → P (record exec { state = running })
    → Returns P (start_body def exec queue input)
unfolding start_body
start_body-Returns P def exec queue input h = Returns-bind P _ _ λ _. Returns-bind P _ _ λ _.
    Returns-bind P _ _ λ _.
      Returns-bind P _ _ λ _. Returns-bind P _ _ λ steps. Returns-bind P _ _ λ _. Returns-pure P _ h

-- The nanoseconds of up to 292 years fit.
after_seconds-fits :
    (now timeout : ℕ) → timeout ≤ 9223372036 → after_seconds now timeout ≡ now + timeout
unfolding after_seconds
after_seconds-fits now timeout l =
    let e : (timeout * 1000000000) % 18446744073709551616 ≡ timeout * 1000000000 =
      omega (arith, l) in
    let f : ltb (timeout * 1000000000) 9223372036854775808 ≡ true = ground (arith, l) in
    let g : (timeout * 1000000000) / 1000000000 ≡ timeout = omega arith in rw e (rw f (rw g refl))

get_by_id-now :
    (id : String) (w : World)
    → (wrapping "workflow definition ID not found" (Definitions.get_by_id id) w).1.now ≡ w.now
unfolding wrapping Definitions.get_by_id base_query base_stmt ◌>>=◌ or_throw
get_by_id-now id w = elim (Bool-cases (next_fault w.faults)) [
  | inl e ↦ rw e refl
  | inr e ↦ elim (Option-cases (find (λ r. str_eq r.id id) w.db.definitions)) [
    | inl f ↦ rw (e, f) refl
    | inr (d, f) ↦ rw (e, f) refl
  ]
]

timeout-override : (o d : ℕ) → d ≡ 0 → effective_timeout o d ≡ o
timeout-override o d e = ground arith

-- The deadline that an override asks for.
abbrev pub asked : ℕ → ℕ → Option ℕ
asked now override = if ltb 0 override then some (now + override) else none

deadline-asked : (now o : ℕ) → o ≤ 9223372036 → deadline now o ≡ asked now o
deadline-asked now o l = rw (after_seconds-fits now o l) refl

-- What follows the reads.
begun-deadline :
    (d : WorkflowDefinition) (id queue : String) (input : Bytes) (override now : ℕ)
    → override ≤ 9223372036
    → HasNoDefault d
    → Returns
        (λ x. (x.state ≡ running) × (x.deadline_at ≡ asked now override))
        (run_in_tx (start_body d (new_execution id d queue input override now) queue input) >>= λ y.
          notify queue >> pure y)
begun-deadline d id queue input override now l e =
    let P : WorkflowExecution → Type 0 =
      λ x. (x.state ≡ running) × (x.deadline_at ≡ asked now override) in
    let due =
      ap (deadline now) (timeout-override override d.default_timeout_seconds e)
      ∙ deadline-asked now override l in
    Returns-after P P _ _ (Returns-run_in_tx P _ (start_body-Returns P d _ queue input (refl, due)))
      (λ y k. Returns-bind P _ _ λ _. Returns-pure P y k)

-- Only the override of the request sets a deadline: a StartWorkflow that returns an execution
-- returns it as RUNNING, with the deadline as many seconds after the time of the call as its
-- override says, and with none for an override of 0, whatever default timeout the definition was
-- registered with. The override is at most 9223372036, the seconds that the nanoseconds of a
-- time.Duration can hold.
pub start_workflow-deadline :
    (def queue : String) (input : Bytes) (override : ℕ) (w : World) (x : WorkflowExecution)
    → override ≤ 9223372036
    → (start_workflow def queue input override w).0 ≡ ok x
    → (x.state ≡ running) × (x.deadline_at ≡ asked w.now override)
unfolding start_workflow new_uuid gets
start_workflow-deadline def queue input override w x l h =
    let (d, p, q) = bind-ok _ _ w h in
    let v = (wrapping "workflow definition ID not found" (Definitions.get_by_id def) w).1 in
    let h1 = ap (λ r. r.0) (sym q) ∙ h in
    let (id, _, q1) = bind-ok new_uuid _ v h1 in
    let h2 = ap (λ r. r.0) (sym q1) ∙ h1 in
    let (now, n, q2) = bind-ok _ _ (record v { uuids = v.uuids + 1 }) h2 in
    let h3 = ap (λ r. r.0) (sym q2) ∙ h2 in
    let k =
      (begun-deadline d id queue input override now l
          ((Returns-wrapping HasNoDefault _ _ (get_by_id-HasNoDefault def)).at w d p)).at
        _ x h3 in
    let same : now ≡ w.now = (let m : v.now ≡ now = cc in sym m ∙ get_by_id-now def w) in
    (k.0, k.1 ∙ ap (λ n. asked n override) same)
