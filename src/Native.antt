-- ===== src/Native.antt =====
-- core/native: staking and the native transactions.
pub mod Staking
pub mod Executor
pub mod Orderbook
