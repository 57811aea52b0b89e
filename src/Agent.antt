-- ===== src/Agent.antt =====
-- coordination/agent_loop.py, with the action policy of coordination/action_executor.py: what an
-- agent does with one event.
pub mod Intents
pub mod Loop
pub mod Rounds
pub mod Assigned
pub mod Step
pub mod Moves
pub mod Laws
