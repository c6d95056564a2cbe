-- ===== src/Coach.antt =====
-- The application of the proposals of the Coach: src/modules/coach-proposals and
-- src/modules/coach-ai/safety.
pub mod Payload
pub mod Safety
pub mod Shape
pub mod Refs
pub mod Titles
pub mod Blocks
pub mod Dispatch
pub mod Apply
pub mod Target
pub mod Operations
pub mod Keeps
pub mod Frame
pub mod BlockRows
pub mod SoundSchedule
pub mod RightBlock
pub mod GoalRows
pub mod Survive
pub mod Answers
pub mod Stale
pub mod Repeat
pub mod Fixtures
pub mod Examples
pub mod BlockExamples
