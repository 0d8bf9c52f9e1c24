-- ===== src/Domain.antt =====
-- domain/workflow: the states of an execution, the errors, the events and the rows of each table.
mod States
mod Errors
mod Events
mod Types
pub mod Machine
pub mod Moves
unfoldable pub use States.*
unfoldable pub use Errors.*
pub use Events.*
pub use Types.*
