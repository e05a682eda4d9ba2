-- ===== src/Hedging.antt =====
-- The self-hedging strategy canister (src/strategies/self_hedging/src/lib.rs).
pub mod State
pub mod Lifecycle
pub mod Split
pub mod Execution
pub mod Trades
pub mod Funds
pub mod Queries
mod Tests
