-- ===== src/Hedging/State.antt =====
-- The state of the self-hedging canister, and the checks and updates that its handlers share.
use hunter_fi.Base.{
  ℕ, ◌+◌, ◌%◌, Bool, false, Option, none, some, List, if◌then◌else◌, ◌==◌, not, ◌&&◌, contains, ok,
  err, Action, fail_if, nat_eq,
}
use hunter_fi.Base.Words.{u64_mod, u128_mod}
use hunter_fi.Common.Types.{
  Principal, anonymous, StrategyStatus, created, strategy_status_eq, OrderSplitType, no_split,
  TokenMetadata, pos, icp_swap,
}
use hunter_fi.Exchange.Types.{ExchangeError}
use hunter_fi.Common.Config.{SelfHedgingConfig}
use hunter_fi.Factory.Types.{Call}

pub record SelfHedgingState : Type 0 where
  pub owner : Principal
  pub config : SelfHedgingConfig
  pub status : StrategyStatus
  pub last_execution : Option ℕ  -- u64
  pub execution_count : ℕ  -- u64
  pub volume_generated : ℕ  -- u128
  pub order_split_type : OrderSplitType
  pub transaction_size : ℕ  -- u128
  pub base_token_unused_balance : ℕ  -- u128
  pub quote_token_unused_balance : ℕ  -- u128
  pub last_balance_check : Option ℕ  -- u64

-- The canister: the stable cell, the flag of the running execution, and the interval of the
-- periodic timer in `TIMERS`, if it is set. There is one timer, so its name is left out.
pub record Hedging : Type 0 where
  pub cell : SelfHedgingState
  pub in_progress : Bool
  pub timer : Option ℕ

-- What the handlers answer when they fail, one constructor for each message.
pub data StrategyError : Type 0 where
  not_owner : StrategyError
  invalid_status : StrategyStatus → List StrategyStatus → StrategyError
  pause_first : StrategyError → StrategyError
  already_initialized zero_size zero_interval invalid_tokens invalid_hold_token : StrategyError
  invalid_slippage anonymous_hold_token cell_not_set : StrategyError
  no_pool no_balance no_balance_reply not_approved : StrategyError
  in_execution cooling_down trade_failed : StrategyError
  paused_for_balance : ℕ → ℕ → StrategyError
  not_paused_for_balance : ℕ → ℕ → StrategyError → StrategyError
  invalid_token_type : StrategyError
  not_deposited not_withdrawn : ExchangeError → StrategyError
  no_balance_check not_refreshed : StrategyError → StrategyError
  short_of_unused : ℕ → ℕ → StrategyError

-- `StrategyResult` as a result of an action.
abbrev pub HedgingAction : Type 0 → Type 0
HedgingAction A = Action Hedging StrategyError A

abbrev pub no_token : TokenMetadata
no_token = record { canister_id = anonymous; symbol = ""; decimals = 0; standard = ""; fee = 0 }

-- The state of a canister whose code has just been installed.
abbrev pub fresh : Hedging
fresh = record {
  cell = record {
    owner = anonymous;
    config = record {
      exchange = icp_swap;
      trading_pair = record { base_token = no_token; quote_token = no_token };
      hold_token = anonymous;
      transaction_size = 0;
      order_split_type = no_split;
      check_interval_secs = 0;
      slippage_tolerance = pos 0;
    };
    status = created;
    last_execution = none;
    execution_count = 0;
    volume_generated = 0;
    order_split_type = no_split;
    transaction_size = 0;
    base_token_unused_balance = 0;
    quote_token_unused_balance = 0;
    last_balance_check = none;
  };
  in_progress = false;
  timer = none;
}

-- The owner and the canister itself pass.
unfoldable pub verify_owner : Call → HedgingAction (Unit {0})
verify_owner c s = fail_if (not (c.caller == s.cell.owner) && not (c.id == c.caller)) not_owner s

unfoldable pub verify_status : List StrategyStatus → HedgingAction (Unit {0})
verify_status expected s =
    fail_if (not (contains expected s.cell.status)) (invalid_status s.cell.status expected) s

-- `StableCell::set`, which is an error if the stable memory does not grow: `fits` says when it does.
unfoldable pub set_cell : (SelfHedgingState → Bool) → SelfHedgingState → HedgingAction (Unit {0})
set_cell fits new s = if fits new then (ok tt, record s { cell = new }) else (err cell_not_set, s)

unfoldable pub set_status : (SelfHedgingState → Bool) → StrategyStatus → HedgingAction (Unit {0})
unfolding set_cell
set_status fits status s = set_cell fits (record s.cell { status = status }) s

unfoldable pub update_unused_balance : (SelfHedgingState → Bool) → Call → ℕ → ℕ → Hedging → Hedging
unfolding set_cell
update_unused_balance fits c base_balance quote_balance s =
    (set_cell fits
      (record s.cell {
        base_token_unused_balance = base_balance;
        quote_token_unused_balance = quote_balance;
        last_balance_check = some c.time;
      })
      s).1

unfoldable pub update_state_after_execution :
    (SelfHedgingState → Bool) → Call → ℕ → HedgingAction (Unit {0})
unfolding set_cell
update_state_after_execution fits c volume s =
    set_cell fits
      (record s.cell {
        execution_count = (s.cell.execution_count + 1) % u64_mod;
        last_execution = some c.time;
        volume_generated = (s.cell.volume_generated + volume) % u128_mod;
      })
      s
