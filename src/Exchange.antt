-- ===== src/Exchange.antt =====
-- The crate `exchange` (src/exchange/src): the connectors to the exchanges.
pub mod Types
pub mod Requests
pub mod Utils
pub mod Trace
pub mod Emits
pub mod Calls
pub mod Tokens
pub mod Trades
pub mod Deposits
pub mod Pools
pub mod Factory
pub mod Samples
pub mod Tests
