-- ===== src/Hedging/Queries.antt =====
-- The queries of src/strategies/self_hedging/src/lib.rs. None changes the state.
use hunter_fi.Base.{ℕ, Option, String, gets, ◌>>◌}
use hunter_fi.Common.Types.{Principal, StrategyStatus, OrderSplitType, Float}
use hunter_fi.Common.Calls.{Call}
use hunter_fi.Hedging.State.{SelfHedgingState, Hedging, HedgingAction, verify_owner}

unfoldable pub get_status : Hedging → StrategyStatus
get_status s = s.cell.status

unfoldable pub get_state : Call → HedgingAction SelfHedgingState
unfolding verify_owner
get_state c = do verify_owner c; gets (λ s. s.cell)

pub record VolumeStats : Type 0 where
  pub total_volume : ℕ  -- u128
  pub execution_count : ℕ  -- u64
  pub last_execution : Option ℕ  -- u64
  pub transaction_size : ℕ  -- u128
  pub split_type : OrderSplitType
  pub token_symbol : String

unfoldable pub get_volume_stats : Hedging → VolumeStats
get_volume_stats s = record {
  total_volume = s.cell.volume_generated;
  execution_count = s.cell.execution_count;
  last_execution = s.cell.last_execution;
  transaction_size = s.cell.transaction_size;
  split_type = s.cell.order_split_type;
  token_symbol = s.cell.config.trading_pair.base_token.symbol;
}

pub record BalanceInfo : Type 0 where
  pub base_token_unused : ℕ  -- u128
  pub quote_token_unused : ℕ  -- u128
  pub canister_balance : ℕ  -- u128
  pub last_update : Option ℕ  -- u64

unfoldable pub get_balance_info : Call → Hedging → BalanceInfo
get_balance_info c s = record {
  base_token_unused = s.cell.base_token_unused_balance;
  quote_token_unused = s.cell.quote_token_unused_balance;
  canister_balance = c.cycles;
  last_update = s.cell.last_balance_check;
}

pub record TradingPairInfo : Type 0 where
  pub base_token_symbol : String
  pub base_token_decimals : ℕ  -- u8
  pub base_token_canister : Principal
  pub quote_token_symbol : String
  pub quote_token_decimals : ℕ  -- u8
  pub quote_token_canister : Principal

unfoldable pub get_trading_pair_info : Hedging → TradingPairInfo
get_trading_pair_info s = record {
  base_token_symbol = s.cell.config.trading_pair.base_token.symbol;
  base_token_decimals = s.cell.config.trading_pair.base_token.decimals;
  base_token_canister = s.cell.config.trading_pair.base_token.canister_id;
  quote_token_symbol = s.cell.config.trading_pair.quote_token.symbol;
  quote_token_decimals = s.cell.config.trading_pair.quote_token.decimals;
  quote_token_canister = s.cell.config.trading_pair.quote_token.canister_id;
}

pub record StrategyConfigInfo : Type 0 where
  pub transaction_size : ℕ  -- u128
  pub order_split_type : OrderSplitType
  pub check_interval_secs : ℕ  -- u64
  pub slippage_tolerance : Float

unfoldable pub get_strategy_config : Hedging → StrategyConfigInfo
get_strategy_config s = record {
  transaction_size = s.cell.config.transaction_size;
  order_split_type = s.cell.config.order_split_type;
  check_interval_secs = s.cell.config.check_interval_secs;
  slippage_tolerance = s.cell.config.slippage_tolerance;
}
