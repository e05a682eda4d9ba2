-- ===== src/Common/Config.antt =====
-- src/strategy_common/src/types.rs: the strategy configurations and the trait `StrategyConfig`.
use hunter_fi.Base.{
  ℕ, Bool, true, false, Option, List, [], ◌∷◌, eqb, if◌then◌else◌, Result, ok, err,
}
use hunter_fi.Common.Types.{
  Principal, StrategyType, dollar_cost_averaging, value_averaging, fixed_balance, limit_order,
  self_hedging, Exchange, OrderType, OrderSplitType, TokenMetadata, TradingPair, Float,
}

pub record DcaConfig : Type 0 where
  pub exchange : Exchange
  pub base_token : TokenMetadata
  pub quote_token : TokenMetadata
  pub amount_per_execution : ℕ  -- u128
  pub interval_secs : ℕ  -- u64
  pub max_executions : Option ℕ  -- u64
  pub slippage_tolerance : Float

pub record ValueAvgConfig : Type 0 where
  pub exchange : Exchange
  pub base_token : TokenMetadata
  pub quote_token : TokenMetadata
  pub target_value_increase : ℕ  -- u128
  pub interval_secs : ℕ  -- u64
  pub max_executions : Option ℕ  -- u64
  pub slippage_tolerance : Float

-- The `HashMap` of allocations as a list, in the order in which it iterates.
pub record FixedBalanceConfig : Type 0 where
  pub exchange : Exchange
  pub token_allocations : List (TokenMetadata × Float)
  pub rebalance_threshold : Float
  pub interval_secs : ℕ  -- u64
  pub slippage_tolerance : Float

pub record LimitOrderConfig : Type 0 where
  pub exchange : Exchange
  pub base_token : TokenMetadata
  pub quote_token : TokenMetadata
  pub order_type : OrderType
  pub price : ℕ  -- u128
  pub amount : ℕ  -- u128
  pub expiration : Option ℕ  -- u64

pub record SelfHedgingConfig : Type 0 where
  pub exchange : Exchange
  pub trading_pair : TradingPair
  pub hold_token : Principal
  pub transaction_size : ℕ  -- u128
  pub order_split_type : OrderSplitType
  pub check_interval_secs : ℕ  -- u64
  pub slippage_tolerance : Float

-- The types that implement `StrategyConfig`.
pub data StrategyConfig : Type 0 where
  dca : DcaConfig → StrategyConfig
  value_avg : ValueAvgConfig → StrategyConfig
  fixed : FixedBalanceConfig → StrategyConfig
  limit : LimitOrderConfig → StrategyConfig
  hedging : SelfHedgingConfig → StrategyConfig

-- The messages of `validate`: "Amount per execution must be greater than 0", and so on.
pub data ConfigError : Type 0 where
  zero_amount_per_execution zero_interval zero_target_value_increase : ConfigError
  empty_allocations zero_amount zero_price zero_transaction_size : ConfigError
  zero_check_interval : ConfigError

abbrev is_empty : {A : Type 0} → List A → Bool
is_empty [] = true
is_empty (_ ∷ _) = false

-- Two checks in a row, each with its message.
abbrev check_both : Bool → ConfigError → Bool → ConfigError → Result ConfigError (Unit {0})
check_both a e b e' = if a then err e else if b then err e' else ok tt

unfoldable pub validate : StrategyConfig → Result ConfigError (Unit {0})
validate (dca c) =
    check_both (eqb c.amount_per_execution 0) zero_amount_per_execution (eqb c.interval_secs 0)
      zero_interval
validate (value_avg c) =
    check_both (eqb c.target_value_increase 0) zero_target_value_increase (eqb c.interval_secs 0)
      zero_interval
validate (fixed c) =
    check_both (is_empty c.token_allocations) empty_allocations (eqb c.interval_secs 0)
      zero_interval
validate (limit c) = check_both (eqb c.amount 0) zero_amount (eqb c.price 0) zero_price
validate (hedging c) =
    check_both (eqb c.transaction_size 0) zero_transaction_size (eqb c.check_interval_secs 0)
      zero_check_interval

unfoldable pub get_strategy_type : StrategyConfig → StrategyType
get_strategy_type (dca _) = dollar_cost_averaging
get_strategy_type (value_avg _) = value_averaging
get_strategy_type (fixed _) = fixed_balance
get_strategy_type (limit _) = limit_order
get_strategy_type (hedging _) = self_hedging

unfoldable pub get_exchange : StrategyConfig → Exchange
get_exchange (dca c) = c.exchange
get_exchange (value_avg c) = c.exchange
get_exchange (fixed c) = c.exchange
get_exchange (limit c) = c.exchange
get_exchange (hedging c) = c.exchange
