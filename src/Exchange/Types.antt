-- ===== src/Exchange/Types.antt =====
-- src/exchange/src/types.rs and error.rs. A formatted text is its template with its arguments.
use hunter_fi.Base.{ℕ, Bool, Option, List, String, Result, Eq}
use hunter_fi.Common.Types.{Principal, Float}
use hunter_fi.Common.Calls.{RejectionCode}

pub data ExchangeType : Type 0 where
  icp_swap kong_swap sonic ic_dex : ExchangeType

pub data TokenStandard : Type 0 where
  icrc1 icrc2 dip20 ext icp : TokenStandard

unfoldable pub ExchangeType-discrete : Discrete ExchangeType
ExchangeType-discrete = hlevel

instance unfoldable pub exchange_type_eq : Eq ExchangeType
unfolding ExchangeType-discrete
exchange_type_eq = record { dec = ExchangeType-discrete }

pub record TokenInfo : Type 0 where
  pub canister_id : Principal
  pub symbol : String
  pub decimals : ℕ  -- u8
  pub standard : TokenStandard

pub record TradingPair : Type 0 where
  pub base_token : TokenInfo
  pub quote_token : TokenInfo
  pub exchange : ExchangeType

pub data TradeDirection : Type 0 where
  buy sell : TradeDirection

pub record TradeParams : Type 0 where
  pub pair : TradingPair
  pub direction : TradeDirection
  pub amount : ℕ  -- u128
  pub slippage_tolerance : Float
  pub deadline_secs : Option ℕ  -- u64

-- `format!("icpswap_{}_{}", pool, nanoseconds)`
pub record TransactionLabel : Type 0 where
  pub pool : Principal
  pub nanoseconds : ℕ

pub record TradeResult : Type 0 where
  pub input_amount : ℕ  -- u128
  pub output_amount : ℕ  -- u128
  pub fee_amount : ℕ  -- u128
  pub price : Float
  pub timestamp : ℕ  -- u64
  pub transaction_id : Option TransactionLabel

pub record QuoteResult : Type 0 where
  pub input_amount : ℕ  -- u128
  pub output_amount : ℕ  -- u128
  pub price : Float
  pub fee_amount : ℕ  -- u128
  pub price_impact : Float

pub record PoolInfo : Type 0 where
  pub pool_id : Principal
  pub token0 : TokenInfo
  pub token1 : TokenInfo
  pub fee : ℕ  -- u64
  pub total_liquidity : ℕ  -- u128
  pub token0_reserves : ℕ  -- u128
  pub token1_reserves : ℕ  -- u128

pub record ExchangeStatus : Type 0 where
  pub exchange_type : ExchangeType
  pub is_available : Bool
  pub supported_tokens : List TokenInfo
  pub supported_pairs : List TradingPair
  pub last_updated : ℕ  -- u64

pub record ExchangeConfig : Type 0 where
  pub exchange_type : ExchangeType
  pub canister_id : Principal
  pub default_slippage : Float
  pub max_slippage : Float
  pub timeout_secs : ℕ  -- u64
  pub retry_count : ℕ  -- u8

pub record BatchTradeParams : Type 0 where
  pub trades : List TradeParams
  pub require_all_success : Bool

-- The texts inside an error.
pub data Detail : Type 0 where
  plain : String → Detail
  of_num : String → ℕ → Detail
  of_text : String → String → Detail
  of_nums : String → ℕ → String → Detail
  of_rejection : String → RejectionCode → String → Detail
  of_detail : String → Detail → Detail
  of_standard : String → TokenStandard → Detail
  of_exchange : String → ExchangeType → Detail

pub data ExchangeError : Type 0 where
  not_implemented : ExchangeError
  internal_error canister_call_error : Detail → ExchangeError
  timeout rate_limit insufficient_funds slippage_exceeded price_changed : ExchangeError
  trade_rejected transaction_failed : Detail → ExchangeError
  insufficient_liquidity pool_not_found : ExchangeError
  unsupported_token : Detail → ExchangeError
  invalid_token_standard : ExchangeError
  token_transfer_failed token_approval_failed invalid_parameters : Detail → ExchangeError
  invalid_amount unauthorized user_rejected : ExchangeError
  unknown_error : Detail → ExchangeError

-- `ExchangeError::fmt`
unfoldable pub fmt : ExchangeError → Detail
fmt not_implemented = plain "Functionality not implemented yet"
fmt (internal_error m) = of_detail "Internal error: {}" m
fmt (canister_call_error m) = of_detail "Canister call error: {}" m
fmt timeout = plain "Operation timed out"
fmt rate_limit = plain "Rate limit reached"
fmt insufficient_funds = plain "Insufficient funds"
fmt slippage_exceeded = plain "Slippage tolerance exceeded"
fmt price_changed = plain "Price has changed"
fmt (trade_rejected m) = of_detail "Trade rejected: {}" m
fmt (transaction_failed m) = of_detail "Transaction failed: {}" m
fmt insufficient_liquidity = plain "Insufficient liquidity"
fmt pool_not_found = plain "Liquidity pool not found"
fmt (unsupported_token m) = of_detail "Unsupported token: {}" m
fmt invalid_token_standard = plain "Invalid token standard"
fmt (token_transfer_failed m) = of_detail "Token transfer failed: {}" m
fmt (token_approval_failed m) = of_detail "Token approval failed: {}" m
fmt (invalid_parameters m) = of_detail "Invalid parameters: {}" m
fmt invalid_amount = plain "Invalid amount"
fmt unauthorized = plain "Unauthorized operation"
fmt user_rejected = plain "User rejected operation"
fmt (unknown_error m) = of_detail "Unknown error: {}" m

pub record BatchTradeResult : Type 0 where
  pub results : List (Result Detail TradeResult)
  pub all_succeeded : Bool
  pub timestamp : ℕ  -- u64
