-- ===== src/Exchange/Factory.antt =====
-- src/exchange/src/factory.rs: the configurations of the exchanges and the connectors made of them.
pub mod Laws
use hunter_fi.Base.{
  ℕ, ◌*◌, ◌/◌, ◌^◌, Bool, true, false, Option, none, some, List, [], ◌∷◌, Result, ok, err, map,
  Action, fail,
}
use hunter_fi.Base.Dict.{Dict, insert, lookup}
use hunter_fi.Common.Types.{Principal, anonymous, pos, one}
use hunter_fi.Exchange.Types.{
  exchange_type_eq, ExchangeType, icp_swap, kong_swap, TradingPair, TradeParams, TradeResult,
  ExchangeConfig, of_exchange, ExchangeError, not_implemented, invalid_parameters,
}
use hunter_fi.Exchange.Trades.{execute_icpswap_trade}
use hunter_fi.Exchange.Requests.{IcpSwapConnector, new, Session}

pub record ExchangeFactory : Type 0 where
  pub exchange_configs : Dict ExchangeType ExchangeConfig

-- `0.5`, `5.0`, a minute and three attempts, for the factory canister `canister_id`.
unfoldable pub default_config : ExchangeType → Principal → ExchangeConfig
unfolding one
default_config exchange_type canister_id = record {
  exchange_type = exchange_type;
  canister_id = canister_id;
  default_slippage = pos (one / 2);
  max_slippage = pos (5 * one);
  timeout_secs = 60;
  retry_count = 3;
}

-- `Principal::from_text(text).unwrap_or_else(|_| Principal::anonymous())`
abbrev pub or_anonymous : Option Principal → Principal
or_anonymous (some p) = p
or_anonymous none = anonymous

unfoldable pub add_default_configs : Option Principal → ExchangeFactory → ExchangeFactory
unfolding insert default_config
add_default_configs icp_swap_factory factory = record {
  exchange_configs = insert kong_swap (default_config kong_swap anonymous) (
      insert icp_swap (default_config icp_swap (or_anonymous icp_swap_factory))
        factory.exchange_configs);
}

-- `ExchangeFactory::new`, where `icp_swap_factory` is what the text of ICPSwap's factory reads as.
unfoldable pub new_factory : Option Principal → ExchangeFactory
unfolding add_default_configs
new_factory icp_swap_factory =
    add_default_configs icp_swap_factory (record { exchange_configs = [] })

unfoldable pub update_config : ExchangeConfig → ExchangeFactory → ExchangeFactory
unfolding insert
update_config config factory = record {
  exchange_configs = insert config.exchange_type config factory.exchange_configs;
}

unfoldable pub get_config : ExchangeType → ExchangeFactory → Result ExchangeError ExchangeConfig
unfolding lookup
get_config exchange_type factory = elim (lookup exchange_type factory.exchange_configs) [
  | none ↦ err (invalid_parameters (of_exchange "Unsupported exchange type: {:?}" exchange_type))
  | some config ↦ ok config
]

-- `KongSwapConnector`
pub record KongSwapConnector : Type 0 where
  pub config : ExchangeConfig
  pub factory_canister_id : Principal

-- `Box<dyn Trading>`: the connectors that the factory makes.
pub data Trading : Type 0 where
  icp_swap_trading : IcpSwapConnector → Trading
  kong_swap_trading : KongSwapConnector → Trading

unfoldable pub create_icpswap : ExchangeFactory → Result ExchangeError IcpSwapConnector
unfolding get_config new
create_icpswap factory = elim (get_config icp_swap factory) [
  | ok config ↦ ok (new config)
  | err e ↦ err e
]

unfoldable pub create_kongswap : ExchangeFactory → Result ExchangeError KongSwapConnector
unfolding get_config
create_kongswap factory = elim (get_config kong_swap factory) [
  | ok config ↦ ok (record { config = config; factory_canister_id = config.canister_id })
  | err e ↦ err e
]

unfoldable pub create_exchange : ExchangeType → ExchangeFactory → Result ExchangeError Trading
unfolding create_icpswap create_kongswap
create_exchange icp_swap factory = elim (create_icpswap factory) [
  | ok connector ↦ ok (icp_swap_trading connector)
  | err e ↦ err e
]
create_exchange kong_swap factory = elim (create_kongswap factory) [
  | ok connector ↦ ok (kong_swap_trading connector)
  | err e ↦ err e
]
create_exchange _ factory = err not_implemented

unfoldable pub create_exchange_for_pair :
    TradingPair → ExchangeFactory → Result ExchangeError Trading
unfolding create_exchange
create_exchange_for_pair pair factory = create_exchange pair.exchange factory

unfoldable pub get_supported_exchanges : ExchangeFactory → List ExchangeType
get_supported_exchanges factory = map (λ entry. entry.0) factory.exchange_configs

-- `execute_trade` of the connectors. That of KongSwap calls nobody.
unfoldable pub execute_trade :
    {W : Type 0} → Trading → Session W → TradeParams → Action W ExchangeError TradeResult
unfolding execute_icpswap_trade
execute_trade (icp_swap_trading connector) session params =
    execute_icpswap_trade (record session { connector = connector }) params
execute_trade (kong_swap_trading connector) session params = fail not_implemented
