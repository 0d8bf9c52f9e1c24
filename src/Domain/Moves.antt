-- ===== src/Domain/Moves.antt =====
-- What the state column of an execution can do. The service asks `ValidateTransition` before some of
-- its updates of the state and not before others, so its moves are those of the machine in
-- domain/workflow/statemechine.go, and one more.
use antflow_server.Base.{◌≡◌, refl, ◌⊎◌, inl, inr, arith}
use antflow_server.Domain.States.{
  State, created, running, compensating, completed, failed, cancelled, scheduled,
}
use antflow_server.Domain.Errors.{ok, validate_transition}

-- The timeout of an execution, and the end of a rollback, write FAILED without a question.
pub data Moves : State → State → Type 0 where
  allowed : {s t : State} → validate_transition s t ≡ ok tt → Moves s t
  given_up : Moves created failed

pub data Travels : State → State → Type 0 where
  stays : {s : State} → Travels s s
  moves : {s t u : State} → Travels s t → Moves t u → Travels s u

pub Travels-trans : {s t u : State} → Travels s t → Travels t u → Travels s u
Travels-trans p stays = p
Travels-trans p (moves q m) = moves (Travels-trans p q) m

abbrev pub RollsBack : State → Type 0
RollsBack s = (s ≡ compensating) ⊎ (s ≡ failed) ⊎ (s ≡ cancelled)

allowed-RollsBack : (t u : State) → RollsBack t → validate_transition t u ≡ ok tt → RollsBack u
allowed-RollsBack compensating u h e = ground arith
allowed-RollsBack failed u h e = cc
allowed-RollsBack cancelled u h e = cc
allowed-RollsBack created u h e = ground arith
allowed-RollsBack running u h e = ground arith
allowed-RollsBack completed u h e = cc
allowed-RollsBack scheduled u h e = cc

Moves-RollsBack : {t u : State} → Moves t u → RollsBack t → RollsBack u
Moves-RollsBack (allowed e) h = allowed-RollsBack _ _ h e
Moves-RollsBack given_up h = inr (inl refl)

-- A rollback is left by failure or cancellation only.
pub Travels-RollsBack : {s t : State} → Travels s t → RollsBack s → RollsBack t
Travels-RollsBack stays h = h
Travels-RollsBack (moves p m) h = Moves-RollsBack m (Travels-RollsBack p h)
