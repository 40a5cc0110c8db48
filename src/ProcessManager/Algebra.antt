-- ===== src/ProcessManager/Algebra.antt =====
-- packages/process-manager/src/process-algebra.ts
pub mod State
pub mod Process
