-- ===== src/Domain/Errors.antt =====
-- domain/workflow/errors.go, usecase/errors.go, and the errors that the code builds from them.
use antflow_server.Base.{Bool, true, false, String, str_append}
use antflow_server.Domain.States.{State, is_allowed, state_text}
use antflow_server.Base.{if◌then◌else◌}

-- `db_error` is any error of the driver, a violated constraint included; `no_rows` is sql.ErrNoRows
-- where the code passes it on; `message` is an error built with no `%w`, and `wrap` one with it.
pub data Err : Type 0 where
  not_found conflict canceled signal_timeout db_error no_rows marshal_error : Err
  invalid_state_transition : State → State → Err
  message : String → Err
  wrap : String → Err → Err

-- errors.Is(err, ErrNotFound) and its like look through every `%w`.
unfoldable pub is_not_found : Err → Bool
is_not_found not_found = true
is_not_found (wrap s e) = is_not_found e
is_not_found _ = false

unfoldable pub is_conflict : Err → Bool
is_conflict conflict = true
is_conflict (wrap s e) = is_conflict e
is_conflict _ = false

unfoldable pub is_invalid_state_transition : Err → Bool
is_invalid_state_transition (invalid_state_transition c n) = true
is_invalid_state_transition (wrap s e) = is_invalid_state_transition e
is_invalid_state_transition _ = false

unfoldable pub is_signal_timeout : Err → Bool
is_signal_timeout signal_timeout = true
is_signal_timeout (wrap s e) = is_signal_timeout e
is_signal_timeout _ = false

-- `err.Error()`. The driver's own texts are left out.
unfoldable pub error_text : Err → String
unfolding state_text
error_text not_found = "not found"
error_text conflict =
    "state conflict: execution is already in a terminal state or state transition is invalid"
error_text canceled = "context canceled"
error_text signal_timeout = "signal timeout"
error_text db_error = "database error"
error_text no_rows = "sql: no rows in result set"
error_text marshal_error = "json: error calling MarshalJSON"
error_text (invalid_state_transition c n) =
    str_append "invalid state transition: "
      (str_append (state_text c) (str_append " → " (state_text n)))
error_text (message s) = s
error_text (wrap s e) = str_append s (str_append ": " (error_text e))

-- What a Go call returns: a value, or an error.
pub data Result {ℓ} (A : Type ℓ) : Type ℓ where
  ok : A → Result A
  err : Err → Result A

abbrev pub validate_transition : State → State → Result (Unit {0})
validate_transition current next =
    if is_allowed current next then ok tt else err (invalid_state_transition current next)
