-- ===== src/Factory.antt =====
-- The factory canister (src/factory/src).
pub mod Types
pub mod State
pub mod Balances
pub mod Payment
pub mod Withdrawal
pub mod Deployment
pub mod Archive
pub mod Timer
pub mod Retry
pub mod Schedule
pub mod Api
pub mod Upgrade
pub mod System
pub mod Samples
mod Tests
