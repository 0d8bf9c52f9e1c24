-- ===== src/Usecase.antt =====
-- usecase: the service that the gRPC handlers call, one action for each method.
pub mod Registration
pub mod Execution
pub mod Saga
pub mod Completion
pub mod Service
pub mod Frames
pub mod Closing
pub mod Bodies
pub mod Atomic
pub mod Retries
pub mod Unwinding
pub mod Starting
pub mod Registered
pub mod Progress
pub mod Advancing
pub mod Undoing
pub mod Expiring
pub mod Recovering
pub mod Cancelling
pub mod Cancelled
