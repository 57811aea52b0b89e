-- ===== src/Board.antt =====
-- blackboard/board.py: the append-only event stream with its indexes.
pub mod Contract
pub mod State
pub mod Gate
pub mod Append
pub mod History
pub mod Poison
pub mod Leases
pub mod Reads
