-- ===== src/Safety.antt =====
-- safety/ and the deterministic services beside it.
pub mod Gate
pub mod Services
