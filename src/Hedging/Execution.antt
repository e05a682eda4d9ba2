-- ===== src/Hedging/Execution.antt =====
-- `execute_once`, up to the call for the balances, from their reply to the first trade, and from the
-- outcome of the trades to the end. The guard `ExecutionGuard` resets the flag at every return.
pub mod Guard
use hunter_fi.Base.{
  ℕ, ◌/◌, Bool, true, false, Option, none, some, List, [], ◌∷◌, if◌then◌else◌, ◌==◌, eqb, ltb, leb,
  Result, ok, err, Action, fail_if, gets, modify, pure, ◌>>=◌, ◌>>◌, nat_eq,
}
use hunter_fi.Base.Words.{sat_add64}
use hunter_fi.Common.Types.{Principal, running}
use hunter_fi.Factory.Types.{Call}
use hunter_fi.Hedging.State.{
  SelfHedgingState, Hedging, HedgingAction, StrategyError, in_execution, cooling_down, trade_failed,
  paused_for_balance, not_paused_for_balance, verify_status, update_state_after_execution,
}
use hunter_fi.Hedging.Lifecycle.{Unused, check_icpswap_balance, pause}
use hunter_fi.Hedging.Split.{get_split_order_count, split_amount}

pub data TradeDirection : Type 0 where
  buy_base sell_base : TradeDirection

-- What a run does with the balance: nothing, or orders in one direction.
pub data Plan : Type 0 where
  idle : Plan
  orders : TradeDirection → List ℕ → Plan

abbrev pub cooldown_ns : ℕ
cooldown_ns = 5000000000

unfoldable pub release : Hedging → Hedging
release s = record s { in_progress = false }

unfoldable pub is_cooling_down : Call → Option ℕ → Bool
is_cooling_down c none = false
is_cooling_down c (some last_execution) = ltb c.time (sat_add64 last_execution cooldown_ns)

-- Up to the call of `get_unused_balance`: the state that the run has read.
unfoldable pub execute_begin : Call → HedgingAction SelfHedgingState
unfolding verify_status is_cooling_down release
execute_begin c = do
  verify_status (running ∷ [])
  busy ← gets (λ s. s.in_progress)
  fail_if busy in_execution
  modify (λ s. record s { in_progress = true })
  last_execution ← gets (λ s. s.cell.last_execution)
  (if is_cooling_down c last_execution
      then (λ s. (err cooling_down, release s))
      else gets (λ s. s.cell))

abbrev pub holds_base : SelfHedgingState → Bool
holds_base d = d.config.hold_token == d.config.trading_pair.base_token.canister_id

-- The amount to trade, and how it is split.
unfoldable pub plan_orders : Call → SelfHedgingState → ℕ → Plan
unfolding split_amount get_split_order_count
plan_orders c d balance =
    let amount = if leb d.transaction_size balance then d.transaction_size else balance in
    if eqb amount 0
    then idle
    else orders (if holds_base d then sell_base else buy_base)
        (split_amount c.time amount (get_split_order_count c.time))

module _ (fits : SelfHedgingState → Bool) where
  -- The balance is too low: the strategy is paused, if the caller may.
  unfoldable pub pause_for_balance : Call → SelfHedgingState → ℕ → HedgingAction Plan
  unfolding pause
  pause_for_balance c d balance s =
      let (r, s') = pause fits c s in
      elim r [
        | ok _ ↦ (err (paused_for_balance balance d.transaction_size), s')
        | err e ↦ (err (not_paused_for_balance balance d.transaction_size e), s')
      ]

  -- What the balances lead to. `d` is the state that the run has read.
  unfoldable pub decide : Call → SelfHedgingState → Result StrategyError Unused → HedgingAction Plan
  unfolding check_icpswap_balance pause_for_balance plan_orders
  decide c d reply = do
    (base_balance, quote_balance) ← check_icpswap_balance fits c reply
    (let balance = if holds_base d then base_balance else quote_balance in
        if ltb balance (d.transaction_size / 20)
        then pause_for_balance c d balance
        else pure (plan_orders c d balance))

  -- From the reply about the balances to the first trade, or to the end.
  unfoldable pub execute_balances :
      Call → SelfHedgingState → Result StrategyError Unused → HedgingAction Plan
  unfolding decide release
  execute_balances c d reply s =
      let (r, s') = decide c d reply s in
      elim r [
        | ok plan ↦ elim plan [
          | idle ↦ (ok idle, release s')
          | orders t xs ↦ (ok (orders t xs), s')
        ]
        | err e ↦ (err e, release s')
      ]

  -- From the outcome of `execute_hedge_trades` to the end.
  unfoldable pub execute_finish : Call → Result StrategyError ℕ → HedgingAction (Unit {0})
  unfolding update_state_after_execution release
  execute_finish c (err e) s = (err trade_failed, release s)
  execute_finish c (ok volume) s =
      let (r, s') = update_state_after_execution fits c volume s in (r, release s')
