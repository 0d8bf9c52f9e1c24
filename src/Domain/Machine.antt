-- ===== src/Domain/Machine.antt =====
-- domain/workflow/statemechine.go: the end states of the state machine.
use antflow_server.Base.{true, ◌≡◌, refl, ◌≢◌, ◌↔◌}
use antflow_server.Domain.States.{
  State, created, running, compensating, completed, failed, cancelled, scheduled, is_terminal,
}
use antflow_server.Domain.Errors.{ok, validate_transition}

-- A state is terminal exactly when the transition to every state is refused.
pub is_terminal_iff :
    (s : State) → (is_terminal s ≡ true) ↔ ((t : State) → validate_transition s t ≢ ok tt)
is_terminal_iff created = (λ h. cc, λ all. absurd (all running refl))
is_terminal_iff running = (λ h. cc, λ all. absurd (all failed refl))
is_terminal_iff compensating = (λ h. cc, λ all. absurd (all failed refl))
is_terminal_iff completed = (λ h t e. cc, λ all. refl)
is_terminal_iff failed = (λ h t e. cc, λ all. refl)
is_terminal_iff cancelled = (λ h t e. cc, λ all. refl)
is_terminal_iff scheduled = (λ h t e. cc, λ all. refl)
