-- ===== src/Store/Checkpoints.antt =====
-- infrastructure/persistence/checkpoint_repository.go. Both statements run on `s.db`, past any
-- transaction of the context.
use antflow_server.Base.{
  ℕ, ◌+◌, Bool, not, ◌&&◌, [], ◌∷◌, ◌++◌, String, str_eq, exists, find, update, ◌==◌, if◌then◌else◌,
}
use antflow_server.Domain.{Checkpoint, Bytes, is_null, not_found}
use antflow_server.Store.World.{Db, M, ◌>>=◌, gets, insert_if, base_stmt, base_query, or_throw}

abbrev pub of_step : String → ℕ → Checkpoint → Bool
of_step id index r = str_eq r.workflow_execution_id id && r.step_index == index

-- The row of an INSERT: the execution must be committed, and the snapshot is NOT NULL.
unfoldable pub checkpoint_row : String → ℕ → Bytes → ℕ → ℕ → Checkpoint
checkpoint_row id index snapshot seq now = record {
  id = seq;
  workflow_execution_id = id;
  step_index = index;
  state_snapshot = snapshot;
  created_at = now;
}

-- INSERT ... ON CONFLICT (workflow_execution_id, step_index) DO UPDATE
unfoldable pub save_row : String → ℕ → Bytes → ℕ → Db → Db
unfolding checkpoint_row
save_row id index snapshot now d = record d {
  checkpoints =
      if exists (of_step id index) d.checkpoints
      then update (of_step id index) (λ r. record r { state_snapshot = snapshot; created_at = now })
          d.checkpoints
      else d.checkpoints ++ checkpoint_row id index snapshot d.checkpoint_seq now ∷ [];
  checkpoint_seq = d.checkpoint_seq + 1;
}

unfoldable pub has_execution : String → Db → Bool
has_execution id d = exists (λ r. str_eq r.id id) d.executions

unfoldable pub save : String → ℕ → Bytes → M (Unit {0})
unfolding save_row has_execution
save id index snapshot = do
  now ← gets λ w. w.now
  base_stmt λ d.
      insert_if (has_execution id d && not (is_null snapshot)) (save_row id index snapshot now d)

unfoldable pub get_latest : String → ℕ → M Checkpoint
get_latest id index = do
  row ← base_query λ d. find (of_step id index) d.checkpoints
  or_throw not_found row
