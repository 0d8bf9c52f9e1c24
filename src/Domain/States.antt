-- ===== src/Domain/States.antt =====
-- domain/workflow/statemechine.go. The Go type is a string; the constructors are its constants, and
-- `scheduled`, which only the CHECK constraints of the two task tables admit.
use antflow_server.Base.{Bool, true, false, List, [], ◌∷◌, exists, String}

pub data State : Type 0 where
  created running compensating completed failed cancelled scheduled : State

abbrev pub state_eq : State → State → Bool
state_eq created created = true
state_eq running running = true
state_eq compensating compensating = true
state_eq completed completed = true
state_eq failed failed = true
state_eq cancelled cancelled = true
state_eq scheduled scheduled = true
state_eq _ _ = false

-- The map `validTransitions`; a key that it lacks has the empty list.
abbrev pub valid_transitions : State → List State
valid_transitions created = running ∷ cancelled ∷ []
valid_transitions running = completed ∷ failed ∷ cancelled ∷ compensating ∷ []
valid_transitions compensating = failed ∷ cancelled ∷ []
valid_transitions completed = []
valid_transitions failed = []
valid_transitions cancelled = []
valid_transitions scheduled = []

-- The loop of `ValidateTransition`: is `next` among the states allowed?
abbrev pub is_allowed : State → State → Bool
is_allowed current next = exists (λ s. state_eq s next) (valid_transitions current)

abbrev is_nil : List State → Bool
is_nil [] = true
is_nil (s ∷ ss) = false

abbrev pub is_terminal : State → Bool
is_terminal s = is_nil (valid_transitions s)

-- `string(state)`
unfoldable pub state_text : State → String
state_text created = "CREATED"
state_text running = "RUNNING"
state_text compensating = "COMPENSATING"
state_text completed = "COMPLETED"
state_text failed = "FAILED"
state_text cancelled = "CANCELLED"
state_text scheduled = "SCHEDULED"
