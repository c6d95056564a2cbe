-- ===== src/Tracking.antt =====
-- Time entries, tasks and the progress of goals: src/modules/time-entries, src/modules/tasks and
-- `updateProgress` of src/modules/goals/goals.service.ts.
pub mod Progress
pub mod Goals
pub mod Entries
pub mod Sums
pub mod Synced
pub mod Keeps
pub mod Tasks
pub mod Complete
pub mod Recompute
pub mod Updates
pub mod Restore
pub mod Reorder
pub mod Examples
pub mod ReorderExamples
