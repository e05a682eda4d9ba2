-- ===== src/Common.antt =====
-- The crate `strategy_common` (src/strategy_common): shared types, the validation of strategy
-- configurations, the timer's clock arithmetic and the cycles thresholds.
pub mod Types
pub mod Config
pub mod Calls
pub mod Timer
pub mod Cycles
