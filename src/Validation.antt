-- ===== src/Validation.antt =====
-- blackboard/validation.py: the contract of an event's payload. A validator returns a rejection
-- code or `None`, and raises where the code raises.
pub mod Required
pub mod Common
pub mod Rounds
pub mod Plans
pub mod Actions
pub mod Outcomes
pub use Rounds.*
pub use Plans.*
pub use Actions.*
pub use Outcomes.*
