-- ===== src/Examples.antt =====
-- The theorems at concrete boards, events and actions.
mod Data
mod History
mod Tasks
mod Safety
mod Poison
mod Policy
mod Sessions
mod Agent
mod Publisher
