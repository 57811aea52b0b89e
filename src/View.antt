-- ===== src/View.antt =====
-- blackboard/view.py: the views folded from the event stream.
pub mod Match
pub mod Task
pub mod Fold
pub mod Rounds
pub mod Actions
pub mod Busy
