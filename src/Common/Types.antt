-- ===== src/Common/Types.antt =====
-- src/strategy_common/src/types.rs: the types that the factory and the strategies exchange.
-- A `Principal` is only compared, so it is a number; `anonymous` is `Principal::anonymous()`.
use hunter_fi.Base.{ℕ, ◌^◌, Bool, true, false, String, nat_eq, Eq, leb, ltb}

abbrev pub Principal : Type 0
Principal = ℕ

abbrev pub anonymous : Principal
anonymous = 0

pub data StrategyType : Type 0 where
  dollar_cost_averaging value_averaging fixed_balance limit_order self_hedging : StrategyType

pub data StrategyStatus : Type 0 where
  created running paused emergency_stopped terminated : StrategyStatus

pub data Exchange : Type 0 where
  icp_swap kong_swap sonic infinity_swap ic_dex : Exchange

pub data OrderType : Type 0 where
  buy sell : OrderType

pub data OrderSplitType : Type 0 where
  no_split split_buy split_sell split_both : OrderSplitType

pub data DeploymentStatus : Type 0 where
  pending_payment authorization_confirmed payment_received canister_created : DeploymentStatus
  code_installed initialized deployed deployment_cancelled : DeploymentStatus
  deployment_failed refunding refunded : DeploymentStatus

unfoldable pub StrategyType-discrete : Discrete StrategyType
StrategyType-discrete = hlevel

unfoldable pub StrategyStatus-discrete : Discrete StrategyStatus
StrategyStatus-discrete = hlevel

unfoldable pub DeploymentStatus-discrete : Discrete DeploymentStatus
DeploymentStatus-discrete = hlevel

instance unfoldable pub strategy_type_eq : Eq StrategyType
unfolding StrategyType-discrete
strategy_type_eq = record { dec = StrategyType-discrete }

instance unfoldable pub strategy_status_eq : Eq StrategyStatus
unfolding StrategyStatus-discrete
strategy_status_eq = record { dec = StrategyStatus-discrete }

instance unfoldable pub deployment_status_eq : Eq DeploymentStatus
unfolding DeploymentStatus-discrete
deployment_status_eq = record { dec = DeploymentStatus-discrete }

pub record TokenMetadata : Type 0 where
  pub canister_id : Principal
  pub symbol : String
  pub decimals : ℕ  -- u8
  pub standard : String
  pub fee : ℕ  -- u128

pub record TradingPair : Type 0 where
  pub base_token : TokenMetadata
  pub quote_token : TokenMetadata

pub record StrategyMetadata : Type 0 where
  pub canister_id : Principal
  pub strategy_type : StrategyType
  pub owner : Principal
  pub created_at : ℕ  -- u64
  pub status : StrategyStatus
  pub exchange : Exchange
  pub trading_pair : TradingPair

-- An `f64`, as far as the code compares it. Every finite double is a whole number of units of
-- 2 ^ -1074: `pos n` is n units and `neg n` is -n units, both zeros included.
pub data Float : Type 0 where
  nan : Float
  pos : ℕ → Float
  neg : ℕ → Float
  inf : Float
  neg_inf : Float

-- 1.0 in these units
unfoldable pub one : ℕ
one = 2 ^ 1074

-- `x <= 0.0`
abbrev pub le_zero : Float → Bool
le_zero nan = false
le_zero (pos n) = leb n 0
le_zero (neg _) = true
le_zero inf = false
le_zero neg_inf = true

-- `x >= k` and `x > k` for a positive `k`, in units
abbrev pub ge_units : ℕ → Float → Bool
ge_units k nan = false
ge_units k (pos n) = leb k n
ge_units k (neg _) = false
ge_units k inf = true
ge_units k neg_inf = false

abbrev pub gt_units : ℕ → Float → Bool
gt_units k nan = false
gt_units k (pos n) = ltb k n
gt_units k (neg _) = false
gt_units k inf = true
gt_units k neg_inf = false
