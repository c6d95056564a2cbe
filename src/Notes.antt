-- ===== src/Notes.antt =====
-- The tree of notes and the text of a note: src/modules/notes.
pub mod Store
pub mod Text
pub mod Escape
pub mod Markup
pub mod Summary
pub mod Forest
pub mod Lookups
pub mod Move
pub mod Cycle
pub mod Examples
