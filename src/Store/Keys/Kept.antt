-- ===== src/Store/Keys/Kept.antt =====
-- Every statement of the repositories keeps the keys of the tables.
use antflow_server.Base.{refl}
use antflow_server.Store.Definitions.{definition_row}
use antflow_server.Store.Frame.{Frame}
use antflow_server.Store.Keys.{
  HasKeys, untouched, AreOwned-definition, AreOwned-deactivate, new_step, new_task, updated_tasks,
  deleted_tasks, new_undo, updated_undos, deleted_undos,
}

abbrev pub keys_frame : Frame
keys_frame = record {
  Rel = λ d e. HasKeys d → HasKeys e;
  rel_refl = λ d h. h;
  rel_trans = λ a b c p q h. q (p h);
  on_sequence = λ d n k. untouched d _ refl refl refl refl;
  on_checkpoints = λ d cs n. untouched d _ refl refl refl refl;
  on_namespace = λ d x k. untouched d _ refl refl refl refl;
  on_definition = λ d x k h. record {
    of_steps = record {
      owned = AreOwned-definition d.definitions (definition_row x) d.steps h.of_steps.owned;
      steps = h.of_steps.steps;
    };
    of_tasks = h.of_tasks;
    of_undos = h.of_undos;
  };
  on_deactivate = λ d p h. record {
    of_steps = record {
      owned = AreOwned-deactivate p d.definitions d.steps h.of_steps.owned;
      steps = h.of_steps.steps;
    };
    of_tasks = h.of_tasks;
    of_undos = h.of_undos;
  };
  on_step = λ d x f h. record {
    of_steps = new_step d x f h.of_steps;
    of_tasks = h.of_tasks;
    of_undos = h.of_undos;
  };
  on_execution = λ d x k. untouched d _ refl refl refl refl;
  on_change = λ d p f c. untouched d _ refl refl refl refl;
  on_task = λ d x f h. record {
    of_steps = h.of_steps;
    of_tasks = new_task d x f h.of_tasks;
    of_undos = h.of_undos;
  };
  on_task_update = λ d p f k h. record {
    of_steps = h.of_steps;
    of_tasks = updated_tasks p f d.tasks k h.of_tasks;
    of_undos = h.of_undos;
  };
  on_task_delete = λ d p h. record {
    of_steps = h.of_steps;
    of_tasks = deleted_tasks p d.tasks h.of_tasks;
    of_undos = h.of_undos;
  };
  on_compensation = λ d x f h. record {
    of_steps = h.of_steps;
    of_tasks = h.of_tasks;
    of_undos = new_undo d x f h.of_undos;
  };
  on_compensation_update = λ d p f k h. record {
    of_steps = h.of_steps;
    of_tasks = h.of_tasks;
    of_undos = updated_undos p f d.compensation_tasks k h.of_undos;
  };
  on_compensation_delete = λ d p h. record {
    of_steps = h.of_steps;
    of_tasks = h.of_tasks;
    of_undos = deleted_undos p d.compensation_tasks h.of_undos;
  };
  on_event = λ d row k. untouched d _ refl refl refl refl;
}
