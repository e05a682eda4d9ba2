-- ===== src/Hedging/Funds.antt =====
-- The deposits and withdrawals of the strategy, with the exchange's connector: what
-- src/strategies/self_hedging/src/lib.rs makes of a configuration for the crate exchange, and
-- `deposit_to_exchange`, `withdraw_from_exchange` and `refresh_balance`. The world is the canister's
-- state beside anything else; what a call of another canister does to it, while the reply is awaited,
-- is up to the network.
pub mod Guarded
pub mod Tests
use hunter_fi.Base.{
  ℕ, ◌*◌, ◌/◌, Bool, true, false, Option, none, some, List, [], ◌∷◌, String, Result, ok, err,
  Action, pure, fail, fail_if, gets, with_err, from_result, ◌>>=◌, ◌>>◌, ltb, if◌then◌else◌,
}
use hunter_fi.Common.Types.{Principal, TokenMetadata, pos, one}
use hunter_fi.Common.Config.{SelfHedgingConfig}
use hunter_fi.Common.Calls.{Call}
use hunter_fi.Exchange.Types.{
  icp_swap, TokenStandard, icrc1, icrc2, dip20, ext, icp, TokenInfo, buy, TradeParams,
  ExchangeError,
}
use hunter_fi.Exchange.Requests.{Address, canonical, malformed, IcpSwapConnector, new, Session}
use hunter_fi.Exchange.Deposits.{deposit_token, withdraw_token, get_unused_balance}
use hunter_fi.Hedging.State.{
  SelfHedgingState, Hedging, HedgingAction, StrategyError, no_balance_reply, invalid_token_type,
  not_deposited, not_withdrawn, no_balance_check, not_refreshed, short_of_unused, verify_owner,
}
use hunter_fi.Hedging.Lifecycle.{Unused, check_icpswap_balance}
use text.Mathlib.Text

-- `create_icpswap_connector`, where `factory` is what the text of ICPSwap's factory reads as.
unfoldable pub create_icpswap_connector : Principal → IcpSwapConnector
unfolding new one
create_icpswap_connector factory = new (record {
  exchange_type = icp_swap;
  canister_id = factory;
  default_slippage = pos (one / 2);
  max_slippage = pos one;
  timeout_secs = 30;
  retry_count = 3;
})

-- `str::to_uppercase` and `str::to_lowercase`
pub record Letters : Type 0 where
  pub to_uppercase : String → String
  pub to_lowercase : String → String

module _ (letters : Letters) where
  unfoldable pub token_standard_from_string : String → TokenStandard
  token_standard_from_string standard =
      let text = letters.to_uppercase standard in
      if Text.◌==◌ text "ICRC1"
      then icrc1
      else if Text.◌==◌ text "ICRC2"
      then icrc2
      else if Text.◌==◌ text "DIP20"
      then dip20
      else if Text.◌==◌ text "EXT"
      then ext
      else if Text.◌==◌ text "ICP"
      then icp
      else icrc1

  unfoldable pub create_token_info : TokenMetadata → TokenInfo
  unfolding token_standard_from_string
  create_token_info metadata = record {
    canister_id = metadata.canister_id;
    symbol = metadata.symbol;
    decimals = metadata.decimals;
    standard = token_standard_from_string metadata.standard;
  }

  unfoldable pub create_trade_params : SelfHedgingConfig → TradeParams
  unfolding create_token_info
  create_trade_params config = record {
    pair = record {
      base_token = create_token_info config.trading_pair.base_token;
      quote_token = create_token_info config.trading_pair.quote_token;
      exchange = icp_swap;
    };
    direction = buy;
    amount = config.transaction_size;
    slippage_tolerance = config.slippage_tolerance;
    deadline_secs = none;
  }

-- The reply of `get_unused_balance`, for a base token. An address that no principal has is not the
-- base token's, so the balances are the other way round.
unfoldable pub unused_of :
    Principal → Result ExchangeError ((ℕ × ℕ) × Address) → Result StrategyError Unused
unused_of base (err e) = err no_balance_reply
unused_of base (ok ((a, b), canonical p)) =
    ok (record { token0_balance = a; token1_balance = b; token0 = p; base_token = base })
unused_of base (ok ((a, b), malformed text)) =
    ok (record { token0_balance = b; token1_balance = a; token0 = base; base_token = base })

-- An action of the canister alone.
abbrev pub at_home : {V A : Type 0} → HedgingAction A → Action (Hedging × V) StrategyError A
at_home m w = let (r, h) = m w.0 in (r, (h, w.1))

-- A choice of one of the two tokens.
pub data Side : Type 0 where
  base_side quote_side : Side

module _ (letters : Letters) where
  unfoldable pub side_of : String → Result StrategyError Side
  side_of token_type =
      if Text.◌==◌ (letters.to_lowercase token_type) "base"
      then ok base_side
      else if Text.◌==◌ (letters.to_lowercase token_type) "quote"
      then ok quote_side
      else err invalid_token_type

abbrev pub on_side : {A : Type 0} → Side → A → A → A
on_side base_side a b = a
on_side quote_side a b = b

module _ {V : Type 0} (letters : Letters) (fits : SelfHedgingState → Bool) (factory : Principal)
    (self : Session (Hedging × V)) where
  -- The session of the strategy's own connector.
  unfoldable pub exchange : Session (Hedging × V)
  unfolding create_icpswap_connector
  exchange = record {
    connector = create_icpswap_connector factory;
    caller = self.caller;
    id = self.id;
    io = self.io;
    net = self.net;
  }

  -- What a message reads from the system, in the state `w`.
  abbrev pub call_at : Hedging × V → Call
  call_at w = record { caller = self.caller; time = self.net.now w; id = self.id; cycles = 0 }

  unfoldable pub check_balance : Action (Hedging × V) StrategyError (ℕ × ℕ)
  unfolding unused_of create_trade_params
  check_balance w =
      let config = w.0.cell.config in
      let (reply, w') =
        get_unused_balance exchange (create_trade_params letters config) self.id w in
      at_home
        (check_icpswap_balance fits (call_at w')
          (unused_of config.trading_pair.base_token.canister_id reply))
        w'

  -- `let _ = check_icpswap_balance().await;`
  abbrev pub and_check : Action (Hedging × V) StrategyError (Unit {0})
  unfolding check_balance
  and_check w = (ok tt, (check_balance w).1)

  unfoldable pub verified : Action (Hedging × V) StrategyError (Unit {0})
  unfolding verify_owner
  verified w = at_home (verify_owner (call_at w)) w

  unfoldable pub deposit_to_exchange : String → ℕ → Action (Hedging × V) StrategyError (Unit {0})
  unfolding verified check_balance side_of create_trade_params
  deposit_to_exchange token_type amount = do
    verified
    config ← gets (λ w. w.0.cell.config)
    side ← from_result (side_of letters token_type)
    with_err not_deposited (
        deposit_token exchange (create_trade_params letters config)
          (on_side side (create_trade_params letters config).pair.base_token
            (create_trade_params letters config).pair.quote_token)
          amount)
    and_check

  -- From the balances on: a withdrawal that they cover.
  unfoldable pub withdraw_covered :
      SelfHedgingConfig → Side → ℕ → ℕ × ℕ → Action (Hedging × V) StrategyError (Unit {0})
  unfolding check_balance create_trade_params
  withdraw_covered config side amount balances = do
    fail_if (ltb (on_side side balances.0 balances.1) amount)
        (short_of_unused (on_side side balances.0 balances.1) amount)
    with_err not_withdrawn (
        withdraw_token exchange (create_trade_params letters config)
          (on_side side (create_trade_params letters config).pair.base_token
            (create_trade_params letters config).pair.quote_token)
          amount)
    and_check

  -- From the choice of the token on.
  unfoldable pub withdraw_side :
      SelfHedgingConfig → ℕ → Side → Action (Hedging × V) StrategyError (Unit {0})
  unfolding withdraw_covered
  withdraw_side config amount side =
      with_err no_balance_check check_balance >>= withdraw_covered config side amount

  unfoldable pub withdraw_from_exchange : String → ℕ → Action (Hedging × V) StrategyError (Unit {0})
  unfolding verified withdraw_side
  withdraw_from_exchange token_type amount = do
    verified
    config ← gets (λ w. w.0.cell.config)
    from_result (side_of letters token_type) >>= withdraw_side config amount

  unfoldable pub refresh_balance : Action (Hedging × V) StrategyError (Unit {0})
  unfolding check_balance
  refresh_balance = with_err not_refreshed check_balance >> pure tt
