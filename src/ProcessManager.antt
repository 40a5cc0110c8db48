-- ===== src/ProcessManager.antt =====
-- packages/process-manager: processes as values, their effects and their event-sourced runtime.
pub mod Result
pub mod Effect
pub mod Algebra
pub mod Mediator
pub mod EventStore
pub mod Runtime
pub mod CustomEffects
pub mod Tests
