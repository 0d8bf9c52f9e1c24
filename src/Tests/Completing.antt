-- ===== src/Tests/Completing.antt =====
-- A running execution, and one that is rolled back, whose workers report success to the end.
use Prim.Native.String.{count}
use text.Mathlib.TextLemmas.{length-append}
use antflow_server.Base.{
  ℕ, none, zero, suc, ◌+◌, false, ◌≡◌, refl, ◌∙◌, ap, some, [], ◌∷◌, String, str_eq, str_eq_iff,
  find, arith, Bool-cases, inl, inr,
}
use antflow_server.Domain.{
  WorkflowExecution, CompensationTask, running, compensating, completed, failed,
}
use antflow_server.Store.World.{World}
use antflow_server.Store.Executions.{has_id}
use antflow_server.Usecase.Progress.{Stands}
use antflow_server.Usecase.Advancing.{Fresh, IsInjective}
use antflow_server.System.Completing.{HasSteps, work, work-completed}
use antflow_server.System.RollingBack.{FreshUndos, unwind, unwind-failed}
use antflow_server.Usecase.Undoing.{Undoes}
use antflow_server.Tests.{server, tables, execution, busy, task, saga_steps, uuid}

busy-Stands : Stands busy task (server []).db
unfolding str_eq
busy-Stands = record {
  row = refl;
  is_running = refl;
  in_order = refl;
  owner = refl;
  task = refl;
  alone = refl;
}

three-HasSteps : HasSteps "d" 3 saga_steps
unfolding str_eq
three-HasSteps zero l = (_, refl, refl)
three-HasSteps (suc zero) l = (_, refl, refl)
three-HasSteps (suc (suc zero)) l = (_, refl, refl)
three-HasSteps (suc (suc (suc n))) l = absurd (omega (arith, l))

count-uuid : (n : ℕ) → count (uuid n) ≡ n + 1
count-uuid zero = refl
count-uuid (suc n) =
    length-append "u" (uuid n)
    ∙ (let i = count-uuid n in let o : count "u" ≡ 1 = refl in omega (arith, i, o))

uuid-IsInjective : IsInjective uuid
uuid-IsInjective m n e =
    let a = count-uuid m in let b = count-uuid n in let c = ap count e in omega (arith, a, b, c)

not_uuid : (s : String) → count s ≡ 1 → str_eq s "u" ≡ false → (n : ℕ) → str_eq s (uuid n) ≡ false
not_uuid s c h zero = h
not_uuid s c h (suc n) = elim (Bool-cases (str_eq s (uuid (suc n)))) [
  | inl e ↦ absurd (
      let k = ap count ((str_eq_iff s (uuid (suc n))).0 e) in
      let a = count-uuid (suc n) in omega (arith, a, c, k))
  | inr e ↦ e
]

not_t : str_eq "t" "u" ≡ false
unfolding str_eq
not_t = refl

not_c : str_eq "c" "u" ≡ false
unfolding str_eq
not_c = refl

uuids-Fresh : Fresh (server []) tables.tasks
uuids-Fresh n l = rw (not_uuid "t" refl not_t n) refl

work-completed_example :
    (y : WorkflowExecution) × (find
        (has_id "x")
        (work "x" ((1 ∷ []) ∷ (2 ∷ []) ∷ []) (server [])).db.executions
      ≡ some y)
    × (y.state ≡ completed)
work-completed_example =
    work-completed busy task (1 ∷ []) ((2 ∷ []) ∷ []) (server []) busy-Stands refl three-HasSteps
      uuid-IsInjective uuids-Fresh refl

-- Two compensations are left, of which the second step's is under way.
abbrev undoing : WorkflowExecution
undoing = record (execution "x" compensating none) { compensation_total = 2 }

abbrev refund : CompensationTask
refund = record {
  id = "c";
  workflow_execution_id = "x";
  step_index = 2;
  step_name = "book";
  compensation_step_name = "release";
  task_queue = "q";
  input = [];
  output = [];
  state = running;
  error = "";
  attempt = 1;
  max_attempts = 3;
  timeout_seconds = 10;
  scheduled_at = 3;
  started_at = some 4;
  completed_at = none;
  locked_until = some 14;
}

abbrev undoing_server : World
undoing_server = record (server []) {
  db = record tables { executions = undoing ∷ []; compensation_tasks = refund ∷ [] };
}

refund-Undoes : Undoes undoing refund undoing_server.db
unfolding str_eq
refund-Undoes = record { row = refl; is_undoing = refl; owner = refl; task = refl; alone = refl }

undos-Fresh : FreshUndos undoing_server (refund ∷ [])
undos-Fresh n l = rw (not_uuid "c" refl not_c n) refl

unwind-failed_example :
    (y : WorkflowExecution) × (find
        (has_id "x")
        (unwind "x" ([] ∷ [] ∷ []) undoing_server).db.executions
      ≡ some y)
    × (y.state ≡ failed)
unwind-failed_example =
    unwind-failed undoing refund [] ([] ∷ []) undoing_server refund-Undoes (inl (omega arith))
      uuid-IsInjective undos-Fresh
