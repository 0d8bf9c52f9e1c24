-- ===== src/Handler.antt =====
-- interface/grpc: the unary handlers. The text of a status is left out, its code is kept; a request
-- is the fields that its handler reads.
pub mod Streams
pub mod Statuses
use antflow_server.Base.{
  ℕ, Bool, true, false, ◌||◌, not, Option, none, some, List, [], ◌∷◌, String, str_eq, if◌then◌else◌,
}
use antflow_server.Domain.{
  WorkflowDefinition, WorkflowExecution, Bytes, State, Err, is_not_found,
  is_invalid_state_transition, is_signal_timeout, Result, ok, err,
}
use antflow_server.Signals.{SignalKey, send}
use antflow_server.Store.World.{World, M}
use antflow_server.Usecase.Registration.{register_workflow}
use antflow_server.Usecase.Execution.{
  start_workflow, cancel_workflow, get_workflow_result, get_workflow_id_for_execution,
}
use antflow_server.Usecase.Saga.{complete_compensation_task}
use antflow_server.Usecase.Completion.{complete_task}
use antflow_server.Usecase.Service.{heartbeat_task, heartbeat_compensation_task}

-- The codes of google.golang.org/grpc/codes that the handlers name.
pub data Code : Type 0 where
  invalid_argument not_found failed_precondition internal canceled : Code

pub data Reply (A : Type 0) : Type 0 where
  response : A → Reply A
  status : Code → Reply A

abbrev pub Handler : Type 0 → Type 0
Handler A = World → Reply A × World

module _ {A : Type 0} where
  abbrev pub refuse : Code → Handler A
  refuse c w = (status c, w)

module _ {A B : Type 0} where
  abbrev pub reply : (Err → Code) → (A → B) → Result A → Reply B
  reply code f (ok a) = response (f a)
  reply code f (err e) = status (code e)

  -- A call of the service, its error turned into a code and its value into the response.
  abbrev pub call : (Err → Code) → (A → B) → M A → Handler B
  call code f m w = let (r, w') = m w in (reply code f r, w')

  abbrev proceed : (Err → Code) → Result A → (A → Handler B) → Handler B
  proceed code (ok a) f w = f a w
  proceed code (err e) f w = (status (code e), w)

  -- A call of the service whose value the handler goes on with.
  abbrev pub then_call : (Err → Code) → M A → (A → Handler B) → Handler B
  then_call code m f w = let (r, w') = m w in proceed code r f w'

abbrev pub internal_code : Err → Code
internal_code e = internal

-- errors.Is(err, workflow.ErrNotFound)
abbrev pub lookup_code : Err → Code
lookup_code e = if is_not_found e then not_found else internal

abbrev pub cancel_code : Err → Code
cancel_code e =
    if is_not_found e
    then not_found
    else if is_invalid_state_transition e
    then failed_precondition
    else internal

abbrev is_empty : List String → Bool
is_empty [] = true
is_empty (x ∷ xs) = false

abbrev pub is_workflow_type : String → Bool
is_workflow_type s = str_eq s "CHAIN" || str_eq s "INDEPENDENT" || str_eq s "SAGA"

pub record Registered : Type 0 where
  pub id : String
  pub name : String
  pub created_at : ℕ

abbrev registered : WorkflowDefinition → Registered
registered wf = record { id = wf.id; name = wf.name; created_at = wf.created_at }

unfoldable pub handle_register :
    String → String → List String → List String → ℕ → List ℕ → Handler Registered
handle_register namespace type steps comps timeout attempts =
    if str_eq namespace ""
    then refuse invalid_argument
    else if is_empty steps
    then refuse invalid_argument
    else if not (is_workflow_type type)
    then refuse invalid_argument
    else call internal_code registered
        (register_workflow namespace type steps comps timeout attempts)

pub record Started : Type 0 where
  pub id : String
  pub workflow_id : String
  pub name : String
  pub state : State

abbrev started : WorkflowExecution → Started
started exec = record {
  id = exec.id;
  workflow_id = exec.workflow_name;
  name = exec.workflow_name;
  state = exec.state;
}

abbrev pub queue_of : String → String
queue_of q = if str_eq q "" then "default" else q

unfoldable pub handle_start : String → String → Bytes → ℕ → Handler Started
handle_start namespace queue input timeout =
    if str_eq namespace ""
    then refuse invalid_argument
    else then_call lookup_code (get_workflow_id_for_execution namespace)
        (λ id. call lookup_code started (start_workflow id (queue_of queue) input timeout))

pub record Outcome : Type 0 where
  pub state : State
  pub result : Bytes
  pub error : String

abbrev pub outcome : WorkflowExecution → Outcome
outcome exec = record { state = exec.state; result = exec.result; error = exec.error }

unfoldable pub handle_result : String → Handler Outcome
handle_result id =
    if str_eq id ""
    then refuse invalid_argument
    else call lookup_code outcome (get_workflow_result id)

abbrev pub success : Unit {0} → Bool
success u = true

unfoldable pub handle_cancel : String → Handler Bool
handle_cancel id =
    if str_eq id "" then refuse invalid_argument else call cancel_code success (cancel_workflow id)

unfoldable pub handle_complete : String → Bytes → String → Handler Bool
handle_complete id result error =
    if str_eq id ""
    then refuse invalid_argument
    else call internal_code success (complete_task id result error)

unfoldable pub handle_complete_compensation : String → Bytes → String → Handler Bool
handle_complete_compensation id result error =
    if str_eq id ""
    then refuse invalid_argument
    else call internal_code (λ b. b) (complete_compensation_task id result error)

-- Any error, a failing database included, tells the worker to stop.
abbrev accepted : Result (Unit {0}) → Bool
accepted (ok u) = true
accepted (err e) = false

abbrev heartbeat : M (Unit {0}) → Handler Bool
heartbeat m w = let (r, w') = m w in (response (accepted r), w')

unfoldable pub handle_heartbeat : String → Handler Bool
handle_heartbeat id =
    if str_eq id "" then refuse invalid_argument else heartbeat (heartbeat_task id)

unfoldable pub handle_heartbeat_compensation : String → Handler Bool
handle_heartbeat_compensation id =
    if str_eq id "" then refuse invalid_argument else heartbeat (heartbeat_compensation_task id)

-- The response says whether a goroutine took the payload.
abbrev signal_sent : String → String → Bytes → Handler Bool
signal_sent id name payload w =
    let (delivered, s) = send (record { execution_id = id; name = name }) payload w.signals in
    (response delivered, record w { signals = s })

unfoldable pub handle_send_signal : String → String → Bytes → Handler Bool
handle_send_signal id name payload =
    if str_eq id ""
    then refuse invalid_argument
    else if str_eq name ""
    then refuse invalid_argument
    else signal_sent id name payload

-- What PollSignal sends, once the wait of the service has ended.
pub record SignalEvent : Type 0 where
  pub name : String
  pub payload : Bytes
  pub timed_out : Bool

unfoldable pub poll_signal_reply : String → Result Bytes → Reply SignalEvent
poll_signal_reply name (ok p) = response (record { name = name; payload = p; timed_out = false })
poll_signal_reply name (err e) =
    if is_signal_timeout e
    then response (record { name = name; payload = []; timed_out = true })
    else status canceled
