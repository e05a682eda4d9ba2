-- ===== src/Exchange/Factory/Laws.antt =====
-- The configurations and the connectors of the exchange factory.
use hunter_fi.Base.{◌≡◌, ok, arith, ◌==◌, if◌then◌else◌}
use hunter_fi.Base.Dict.{lookup-insert}
use hunter_fi.Exchange.Types.{exchange_type_eq, ExchangeType, ExchangeConfig}
use hunter_fi.Exchange.Factory.{ExchangeFactory, update_config, get_config}

-- After an update the exchange's configuration is the new one, and that of every other exchange is
-- as before.
pub get_config-update_config :
    (config : ExchangeConfig) (exchange_type : ExchangeType) (factory : ExchangeFactory)
    → get_config exchange_type (update_config config factory) ≡ (
        if exchange_type == config.exchange_type
        then ok config
        else get_config exchange_type factory)
unfolding get_config update_config
get_config-update_config config exchange_type factory =
    ground (arith, lookup-insert exchange_type config.exchange_type config factory.exchange_configs)
