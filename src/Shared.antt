-- ===== src/Shared.antt =====
-- What all modules of the application share: src/shared.
pub mod Idempotency
pub mod Replay
pub mod Examples
