-- ===== src/Sessions.antt =====
-- coordination/file_session_store.py: the durable state of an agent process or a coordinator.
pub mod Files
pub mod Codec
pub mod Outbox
pub mod Tasks
pub mod Steps
