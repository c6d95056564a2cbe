-- ===== src/Schedule.antt =====
-- The weekly schedule: src/modules/schedule/schedule.service.ts and its dto.
pub mod Clock
pub mod Conflict
pub mod Rows
pub mod Create
pub mod Batch
pub mod Update
pub mod Fixtures
pub mod Examples
pub mod UpdateExamples
