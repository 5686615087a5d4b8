-- ===== src/State.antt =====
-- core/state: the state database that transactions run on.
pub mod Journal
