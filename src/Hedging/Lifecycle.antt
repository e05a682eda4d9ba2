-- ===== src/Hedging/Lifecycle.antt =====
-- `init_self_hedging`, `start`, `pause`, `stop`, `update_volume_config` and `update_config`.
-- `start` awaits three calls, so it is four functions.
pub mod Invariant
use hunter_fi.Base.{
  ℕ, ◌*◌, Bool, true, false, Option, none, some, List, [], ◌∷◌, if◌then◌else◌, ◌==◌, eqb, leb, not,
  ◌&&◌, ◌||◌, Result, ok, err, map_err, Action, fail_if, fail, from_result, modify, gets, pure,
  with_err, ◌>>=◌, ◌>>◌, nat_eq,
}
use hunter_fi.Common.Types.{
  Principal, anonymous, StrategyStatus, created, running, paused, terminated, OrderSplitType, Float,
  one, le_zero, ge_units, gt_units,
}
use hunter_fi.Common.Config.{SelfHedgingConfig}
use hunter_fi.Factory.Types.{Call}
use hunter_fi.Hedging.State.{
  SelfHedgingState, Hedging, HedgingAction, StrategyError, already_initialized, zero_size,
  zero_interval, invalid_tokens, invalid_hold_token, invalid_slippage, anonymous_hold_token,
  pause_first, no_pool, no_balance, no_balance_reply, not_approved, verify_owner, verify_status,
  set_cell, set_status, update_unused_balance,
}

-- What `init_self_hedging` asks of a configuration.
unfoldable pub check_config : SelfHedgingConfig → HedgingAction (Unit {0})
check_config config = do
  fail_if (eqb config.transaction_size 0) zero_size
  fail_if (eqb config.check_interval_secs 0) zero_interval
  fail_if
      (config.trading_pair.base_token.canister_id == anonymous
        || config.trading_pair.quote_token.canister_id == anonymous)
      invalid_tokens
  fail_if
      (config.hold_token == anonymous
        || (not (config.trading_pair.base_token.canister_id == config.hold_token)
            && not (config.trading_pair.quote_token.canister_id == config.hold_token)))
      invalid_hold_token
  fail_if (le_zero config.slippage_tolerance || ge_units one config.slippage_tolerance)
      invalid_slippage

abbrev pub initial : Principal → SelfHedgingConfig → SelfHedgingState
initial owner config = record {
  owner = owner;
  config = config;
  status = created;
  last_execution = none;
  execution_count = 0;
  volume_generated = 0;
  order_split_type = config.order_split_type;
  transaction_size = config.transaction_size;
  base_token_unused_balance = 0;
  quote_token_unused_balance = 0;
  last_balance_check = none;
}

-- The reply to `get_unused_balance`: the balances of the pool's two tokens, and its first token; with
-- the base token of the configuration that `check_icpswap_balance` read before the call.
pub record Unused : Type 0 where
  pub token0_balance : ℕ
  pub token1_balance : ℕ
  pub token0 : Principal
  pub base_token : Principal

-- `start`, up to the call of `get_pool_info`: the state that it has read.
unfoldable pub start_request : Call → HedgingAction SelfHedgingState
unfolding verify_owner verify_status
start_request c = do
  verify_owner c
  verify_status (created ∷ paused ∷ terminated ∷ [])
  gets (λ s. s.cell)

-- From the reply about the pool to the call of `get_unused_balance`.
unfoldable pub start_pool : Result StrategyError (Unit {0}) → HedgingAction (Unit {0})
start_pool (err e) = fail no_pool
start_pool (ok _) = pure tt

module _ (fits : SelfHedgingState → Bool) where
  unfoldable pub init_self_hedging : Principal → SelfHedgingConfig → HedgingAction (Unit {0})
  unfolding check_config set_cell
  init_self_hedging owner config = do
    current ← gets (λ s. s.cell.owner)
    fail_if (not (current == anonymous)) already_initialized
    check_config config
    set_cell fits (initial owner config)

  -- `check_icpswap_balance` from the reply on: the balances of the base and the quote token.
  unfoldable pub check_icpswap_balance : Call → Result StrategyError Unused → HedgingAction (ℕ × ℕ)
  unfolding update_unused_balance
  check_icpswap_balance c (err e) s = (err no_balance_reply, s)
  check_icpswap_balance c (ok u) s =
      if u.base_token == u.token0
      then (
        ok (u.token0_balance, u.token1_balance),
        update_unused_balance fits c u.token0_balance u.token1_balance s,
      )
      else (
        ok (u.token1_balance, u.token0_balance),
        update_unused_balance fits c u.token1_balance u.token0_balance s,
      )

  -- From the reply about the balances to the call of `approve_token`.
  unfoldable pub start_balances : Call → Result StrategyError Unused → HedgingAction (Unit {0})
  unfolding check_icpswap_balance
  start_balances c reply = do
    (base_balance, quote_balance) ← check_icpswap_balance c reply
    fail_if (eqb base_balance 0 && eqb quote_balance 0) no_balance

  -- From the reply to `approve_token` to the end. `state_data` is the state that `start` has read.
  unfoldable pub start_approved :
      SelfHedgingState → Result StrategyError (Unit {0}) → HedgingAction (Unit {0})
  unfolding set_status
  start_approved state_data (err e) = fail not_approved
  start_approved state_data (ok _) = do
    modify (λ s. record s { timer = some state_data.config.check_interval_secs })
    set_status fits running

  unfoldable pub pause : Call → HedgingAction (Unit {0})
  unfolding verify_owner verify_status set_status
  pause c = do
    verify_owner c
    verify_status (running ∷ [])
    modify (λ s. record s { timer = none })
    set_status fits paused

  unfoldable pub stop : Call → HedgingAction (Unit {0})
  unfolding verify_owner set_status
  stop c = do verify_owner c; modify (λ s. record s { timer = none }); set_status fits terminated

  unfoldable pub update_volume_config : Call → ℕ → OrderSplitType → HedgingAction (Unit {0})
  unfolding verify_owner verify_status set_cell
  update_volume_config c transaction_size split_type = do
    verify_owner c
    with_err pause_first (verify_status (created ∷ paused ∷ []))
    fail_if (eqb transaction_size 0) zero_size
    current ← gets (λ s. s.cell)
    set_cell fits (record current {
      config = record current.config {
        transaction_size = transaction_size;
        order_split_type = split_type;
      };
      transaction_size = transaction_size;
      order_split_type = split_type;
    })

  unfoldable pub update_config :
      Call → ℕ → OrderSplitType → ℕ → Float → Principal → HedgingAction (Unit {0})
  unfolding verify_owner verify_status set_cell
  update_config c transaction_size split_type check_interval_secs slippage_tolerance hold_token = do
    verify_owner c
    with_err pause_first (verify_status (created ∷ paused ∷ []))
    fail_if (hold_token == anonymous) anonymous_hold_token
    fail_if (eqb transaction_size 0) zero_size
    fail_if (eqb check_interval_secs 0) zero_interval
    fail_if (le_zero slippage_tolerance || gt_units (100 * one) slippage_tolerance) invalid_slippage
    current ← gets (λ s. s.cell)
    set_cell fits (record current {
      config = record current.config {
        transaction_size = transaction_size;
        order_split_type = split_type;
        check_interval_secs = check_interval_secs;
        slippage_tolerance = slippage_tolerance;
        hold_token = hold_token;
      };
      transaction_size = transaction_size;
      order_split_type = split_type;
    })
