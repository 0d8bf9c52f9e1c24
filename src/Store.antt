-- ===== src/Store.antt =====
-- infrastructure/persistence: the tables, and the actions that a request makes on them.
pub mod World
pub mod Namespaces
pub mod Definitions
pub mod Steps
pub mod Executions
pub mod Tasks
pub mod CompensationTasks
pub mod History
pub mod Checkpoints
pub mod Frame
pub mod Keys
pub mod Covered
pub mod Inversion
pub mod Returns
pub mod Leaves
pub mod Calm
pub mod Polling
pub mod Rollback
