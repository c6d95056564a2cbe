-- ===== src/Timer.antt =====
-- The cross-device timer: src/modules/active-timer/active-timer.service.ts and its constants.
pub mod Session
pub mod Statements
pub mod Service
pub mod Races
pub mod Elapsed
pub mod Invariant
pub mod Stop
pub mod Examples
