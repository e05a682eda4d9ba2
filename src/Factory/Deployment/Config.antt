-- ===== src/Factory/Deployment/Config.antt =====
-- The configuration of a deployment record, decoded by its strategy type, and the metadata that is
-- made of it (`initialize_strategy` and `create_strategy_metadata` of
-- src/factory/src/deployment_manager.rs). Candid is a library: its codec is a parameter.
use hunter_fi.Base.{List, [], ◌∷◌, String, Result, ok, err, map_err}
use hunter_fi.Common.Types.{
  Principal, StrategyType, dollar_cost_averaging, value_averaging, fixed_balance, limit_order,
  self_hedging, created, Exchange, TokenMetadata, TradingPair, StrategyMetadata, Float,
}
use hunter_fi.Common.Config.{
  DcaConfig, ValueAvgConfig, FixedBalanceConfig, LimitOrderConfig, SelfHedgingConfig,
  StrategyConfig, dca, value_avg, fixed, limit, hedging,
}
use hunter_fi.Factory.Types.{Bytes, Message, plain, of_message, DeploymentRecord, Call}

-- `candid::encode_one` and `candid::decode_one` at the configuration types, and the principal that
-- `Principal::from_text` reads from the ledger's id.
pub record Codec : Type 0 where
  pub encode : StrategyConfig → Result Message Bytes
  pub decode_dca : Bytes → Result Message DcaConfig
  pub decode_value_avg : Bytes → Result Message ValueAvgConfig
  pub decode_fixed_balance : Bytes → Result Message FixedBalanceConfig
  pub decode_limit_order : Bytes → Result Message LimitOrderConfig
  pub decode_self_hedging : Bytes → Result Message SelfHedgingConfig
  pub icp_ledger : Principal

abbrev and_then : {A B : Type 0} → Result Message A → (A → Result Message B) → Result Message B
and_then (ok a) f = f a
and_then (err e) f = err e

abbrev decode_as :
    {A B : Type 0} → String → Result Message A → (A → Result Message B) → Result Message B
decode_as text r f = and_then (map_err (of_message text) r) f

abbrev made :
    Call → DeploymentRecord → Principal → StrategyType → Exchange → TradingPair → StrategyMetadata
made c r cid t exchange pair = record {
  canister_id = cid;
  strategy_type = t;
  owner = r.owner;
  created_at = c.time;
  status = created;
  exchange = exchange;
  trading_pair = pair;
}

abbrev pair_of : TokenMetadata → TokenMetadata → TradingPair
pair_of base quote = record { base_token = base; quote_token = quote }

module _ (codec : Codec) where
  -- What `initialize_strategy` decodes before it calls the strategy.
  unfoldable pub decode_config : StrategyType → Bytes → Result Message StrategyConfig
  decode_config dollar_cost_averaging b =
      decode_as "Failed to decode DCA config: {}" (codec.decode_dca b) (λ x. ok (dca x))
  decode_config value_averaging b =
      decode_as "Failed to decode Value Averaging config: {}" (codec.decode_value_avg b)
        (λ x. ok (value_avg x))
  decode_config fixed_balance b =
      decode_as "Failed to decode Fixed Balance config: {}" (codec.decode_fixed_balance b)
        (λ x. ok (fixed x))
  decode_config limit_order b =
      decode_as "Failed to decode Limit Order config: {}" (codec.decode_limit_order b)
        (λ x. ok (limit x))
  decode_config self_hedging b =
      decode_as "Failed to decode Self Hedging config: {}" (codec.decode_self_hedging b)
        (λ x. ok (hedging x))

  -- "Use ICP as quote token"
  abbrev icp_token : TokenMetadata
  icp_token = record {
    canister_id = codec.icp_ledger;
    symbol = "ICP";
    decimals = 8;
    standard = "";
    fee = 0;
  }

  -- The first allocation's token is the base token. The fallback behind the check for an empty map
  -- cannot be reached.
  abbrev fixed_pair : FixedBalanceConfig → List (TokenMetadata × Float) → Result Message TradingPair
  fixed_pair x [] = err (plain "Fixed Balance strategy must have at least one token allocation")
  fixed_pair x ((token, _) ∷ _) = ok (pair_of token icp_token)

  abbrev metadata_by :
      StrategyType → Call → DeploymentRecord → Principal → Result Message StrategyMetadata
  metadata_by dollar_cost_averaging c r cid =
      decode_as "Failed to decode DCA config: {}" (codec.decode_dca r.config_data)
        λ x. ok (made c r cid dollar_cost_averaging x.exchange (pair_of x.base_token x.quote_token))
  metadata_by value_averaging c r cid =
      decode_as "Failed to decode Value Averaging config: {}" (codec.decode_value_avg r.config_data)
        λ x. ok (made c r cid value_averaging x.exchange (pair_of x.base_token x.quote_token))
  metadata_by fixed_balance c r cid =
      decode_as "Failed to decode Fixed Balance config: {}"
        (codec.decode_fixed_balance r.config_data)
        λ x.
          and_then (fixed_pair x x.token_allocations)
            λ pair. ok (made c r cid fixed_balance x.exchange pair)
  metadata_by limit_order c r cid =
      decode_as "Failed to decode Limit Order config: {}" (codec.decode_limit_order r.config_data)
        λ x. ok (made c r cid limit_order x.exchange (pair_of x.base_token x.quote_token))
  metadata_by self_hedging c r cid =
      decode_as "Failed to decode Self Hedging config: {}" (codec.decode_self_hedging r.config_data)
        λ x. ok (
          made c r cid self_hedging x.exchange
            (pair_of x.trading_pair.base_token x.trading_pair.quote_token))

  unfoldable pub create_strategy_metadata :
      Call → DeploymentRecord → Principal → Result Message StrategyMetadata
  create_strategy_metadata c r cid = metadata_by r.strategy_type c r cid
