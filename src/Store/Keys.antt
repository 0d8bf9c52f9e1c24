-- ===== src/Store/Keys.antt =====
-- The keys of the tables, as invariants of the rows: what the PRIMARY KEY, UNIQUE and FOREIGN KEY
-- constraints of the statements make of the tables.
pub mod Kept
use antflow_server.Base.{
  Bool, true, false, ◌&&◌, ◌≡◌, refl, ◌∙◌, List, [], ◌∷◌, ◌++◌, String, str_eq, str_eq_comm, ◌==◌,
  exists, update, delete, arith, AreDistinct, append-AreDistinct, update-AreDistinct,
  delete-AreDistinct,
}
use antflow_server.Domain.{WorkflowDefinition, WorkflowDefinitionStep, Task, CompensationTask}
use antflow_server.Store.World.{Db}
use antflow_server.Store.Steps.{step_fits}
use antflow_server.Store.Tasks.{task_fits, task_row}
use antflow_server.Store.CompensationTasks.{compensation_task_fits, compensation_task_row}
use antflow_server.Store.Frame.{KeepsTaskKey, KeepsCompensationKey}

-- The keys: a step of a definition, the id of a task, and its execution with its step.
abbrev pub step_key : WorkflowDefinitionStep → WorkflowDefinitionStep → Bool
step_key x y =
    str_eq y.workflow_definition_id x.workflow_definition_id && y.step_index == x.step_index

abbrev pub task_key : Task → Task → Bool
task_key x y = str_eq y.id x.id

abbrev pub task_step_key : Task → Task → Bool
task_step_key x y =
    str_eq y.workflow_execution_id x.workflow_execution_id && y.step_index == x.step_index

abbrev pub undo_key : CompensationTask → CompensationTask → Bool
undo_key x y = str_eq y.id x.id

abbrev pub undo_step_key : CompensationTask → CompensationTask → Bool
undo_step_key x y =
    str_eq y.workflow_execution_id x.workflow_execution_id && y.step_index == x.step_index

-- Every step is of a definition that is there.
abbrev pub AreOwned : List WorkflowDefinition → List WorkflowDefinitionStep → Type 0
AreOwned ds [] = Unit {0}
AreOwned ds (s ∷ ss) =
    (exists (λ r. str_eq r.id s.workflow_definition_id) ds ≡ true) × AreOwned ds ss

pub record StepKeys (ds : List WorkflowDefinition) (ss : List WorkflowDefinitionStep) : Type 0 where
  pub owned : AreOwned ds ss
  pub steps : AreDistinct step_key ss

pub record TaskKeys (ts : List Task) : Type 0 where
  pub ids : AreDistinct task_key ts
  pub steps : AreDistinct task_step_key ts

pub record UndoKeys (ts : List CompensationTask) : Type 0 where
  pub ids : AreDistinct undo_key ts
  pub steps : AreDistinct undo_step_key ts

pub record HasKeys (d : Db) : Type 0 where
  pub of_steps : StepKeys d.definitions d.steps
  pub of_tasks : TaskKeys d.tasks
  pub of_undos : UndoKeys d.compensation_tasks

-- What a statement on the other tables leaves.
pub untouched :
    (d e : Db)
    → e.definitions ≡ d.definitions
    → e.steps ≡ d.steps
    → e.tasks ≡ d.tasks
    → e.compensation_tasks ≡ d.compensation_tasks
    → HasKeys d
    → HasKeys e
untouched d e p q r u h = record {
  of_steps = rw p (rw q h.of_steps);
  of_tasks = rw r h.of_tasks;
  of_undos = rw u h.of_undos;
}

step_key_comm : (x y : WorkflowDefinitionStep) → step_key x y ≡ step_key y x
step_key_comm x y = ground (arith, str_eq_comm x.workflow_definition_id y.workflow_definition_id)

task_key_comm : (x y : Task) → task_key x y ≡ task_key y x
task_key_comm x y = str_eq_comm y.id x.id

task_step_key_comm : (x y : Task) → task_step_key x y ≡ task_step_key y x
task_step_key_comm x y = ground (arith, str_eq_comm x.workflow_execution_id y.workflow_execution_id)

undo_key_comm : (x y : CompensationTask) → undo_key x y ≡ undo_key y x
undo_key_comm x y = str_eq_comm y.id x.id

undo_step_key_comm : (x y : CompensationTask) → undo_step_key x y ≡ undo_step_key y x
undo_step_key_comm x y = ground (arith, str_eq_comm x.workflow_execution_id y.workflow_execution_id)

pub AreOwned-definition :
    (ds : List WorkflowDefinition) (x : WorkflowDefinition) (ss : List WorkflowDefinitionStep)
    → AreOwned ds ss
    → AreOwned (ds ++ x ∷ []) ss
AreOwned-definition ds x [] h = tt
AreOwned-definition ds x (s ∷ ss) h =
    (stays (λ r. str_eq r.id s.workflow_definition_id) ds x h.0, AreOwned-definition ds x ss h.1)
  where
    stays :
        (p : WorkflowDefinition → Bool) (ds : List WorkflowDefinition) (x : WorkflowDefinition)
        → exists p ds ≡ true
        → exists p (ds ++ x ∷ []) ≡ true
    stays p [] x h = absurd cc
    stays p (d ∷ ds) x h = ground (arith, stays p ds x)

pub AreOwned-deactivate :
    (p : WorkflowDefinition → Bool) (ds : List WorkflowDefinition)
    (ss : List WorkflowDefinitionStep)
    → AreOwned ds ss
    → AreOwned (update p (λ r. record r { is_active = false }) ds) ss
AreOwned-deactivate p ds [] h = tt
AreOwned-deactivate p ds (s ∷ ss) h =
    (there p s.workflow_definition_id ds ∙ h.0, AreOwned-deactivate p ds ss h.1)
  where
    there :
        (p : WorkflowDefinition → Bool) (i : String) (ds : List WorkflowDefinition)
        → exists (λ r. str_eq r.id i) (update p (λ r. record r { is_active = false }) ds)
          ≡ exists (λ r. str_eq r.id i) ds
    there p i [] = refl
    there p i (d ∷ ds) = ground (arith, there p i ds)

AreOwned-step :
    (ds : List WorkflowDefinition) (ss : List WorkflowDefinitionStep) (x : WorkflowDefinitionStep)
    → exists (λ r. str_eq r.id x.workflow_definition_id) ds ≡ true
    → AreOwned ds ss
    → AreOwned ds (ss ++ x ∷ [])
AreOwned-step ds [] x e h = (e, tt)
AreOwned-step ds (s ∷ ss) x e h = (h.0, AreOwned-step ds ss x e h.1)

pub new_step :
    (d : Db) (x : WorkflowDefinitionStep)
    → step_fits x d ≡ true
    → StepKeys d.definitions d.steps
    → StepKeys d.definitions (d.steps ++ x ∷ [])
unfolding step_fits
new_step d x f h = record {
  owned = AreOwned-step d.definitions d.steps x (ground arith) h.owned;
  steps = append-AreDistinct step_key step_key_comm d.steps x (ground arith) h.steps;
}

pub new_task :
    (d : Db) (x : Task)
    → task_fits x d ≡ true
    → TaskKeys d.tasks
    → TaskKeys (d.tasks ++ task_row x ∷ [])
unfolding task_fits
new_task d x f h = record {
  ids = append-AreDistinct task_key task_key_comm d.tasks (task_row x) (ground arith) h.ids;
  steps =
      append-AreDistinct task_step_key task_step_key_comm d.tasks (task_row x) (ground arith)
        h.steps;
}

pub new_undo :
    (d : Db) (x : CompensationTask)
    → compensation_task_fits x d ≡ true
    → UndoKeys d.compensation_tasks
    → UndoKeys (d.compensation_tasks ++ compensation_task_row x ∷ [])
unfolding compensation_task_fits
new_undo d x f h = record {
  ids =
      append-AreDistinct undo_key undo_key_comm d.compensation_tasks (compensation_task_row x)
        (ground arith) h.ids;
  steps =
      append-AreDistinct undo_step_key undo_step_key_comm d.compensation_tasks
        (compensation_task_row x) (ground arith) h.steps;
}

pub updated_tasks :
    (p : Task → Bool) (f : Task → Task) (ts : List Task)
    → KeepsTaskKey f
    → TaskKeys ts
    → TaskKeys (update p f ts)
updated_tasks p f ts k h = record {
  ids =
      update-AreDistinct task_key p f (λ x y. rw (k.same_id x) refl) (λ x y. rw (k.same_id y) refl)
        ts h.ids;
  steps =
      update-AreDistinct task_step_key p f
        (λ x y. rw (k.same_execution x) (rw (k.same_index x) refl))
        (λ x y. rw (k.same_execution y) (rw (k.same_index y) refl)) ts h.steps;
}

pub updated_undos :
    (p : CompensationTask → Bool) (f : CompensationTask → CompensationTask)
    (ts : List CompensationTask)
    → KeepsCompensationKey f
    → UndoKeys ts
    → UndoKeys (update p f ts)
updated_undos p f ts k h = record {
  ids =
      update-AreDistinct undo_key p f (λ x y. rw (k.same_id x) refl) (λ x y. rw (k.same_id y) refl)
        ts h.ids;
  steps =
      update-AreDistinct undo_step_key p f
        (λ x y. rw (k.same_execution x) (rw (k.same_index x) refl))
        (λ x y. rw (k.same_execution y) (rw (k.same_index y) refl)) ts h.steps;
}

pub deleted_tasks : (p : Task → Bool) (ts : List Task) → TaskKeys ts → TaskKeys (delete p ts)
deleted_tasks p ts h = record {
  ids = delete-AreDistinct task_key p ts h.ids;
  steps = delete-AreDistinct task_step_key p ts h.steps;
}

pub deleted_undos :
    (p : CompensationTask → Bool) (ts : List CompensationTask)
    → UndoKeys ts
    → UndoKeys (delete p ts)
deleted_undos p ts h = record {
  ids = delete-AreDistinct undo_key p ts h.ids;
  steps = delete-AreDistinct undo_step_key p ts h.steps;
}
