-- ===== src/Policy.antt =====
-- coordination/policy.py: the bids of a device, the plans, and the guard of a plan.
pub mod Data
pub mod Space
pub mod Violations
pub mod Validate
pub mod Bids
pub mod Matching
