-- ===== src/Board/History.antt =====
-- The histories of a board: which boards its operations lead to, and what holds of all of them.
pub mod Steps
pub mod Indexes
pub mod Unique
pub mod Repeats
