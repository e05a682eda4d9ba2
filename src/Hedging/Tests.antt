-- ===== src/Hedging/Tests.antt =====
-- The self-hedging canister at concrete inputs.
use hunter_fi.Base.{
  Result, suc, [], ◌∷◌, err, ℕ, ◌≤◌, ◌≡◌, ◌≢◌, ◌⊎◌, refl, Bool, true, false, none, some, List, ok,
  arith, length, sum, nat_eq,
}
use hunter_fi.Common.Types.{running, terminated}
use hunter_fi.Factory.Samples.{user_call, hedge}
use hunter_fi.Hedging.State.{StrategyError, SelfHedgingState, Hedging, fresh}
use hunter_fi.Hedging.Lifecycle.{Unused, initial, init_self_hedging, pause, stop, start_approved}
use hunter_fi.Hedging.Lifecycle.Invariant.{
  IsSound, by_init, by_pause, stay, then_step, reachable-IsSound, Step-owner,
}
use hunter_fi.Hedging.Split.{split_amount}
use hunter_fi.Hedging.Split.Total.{split_amount-sum, split_amount_exceeds}
use hunter_fi.Hedging.Execution.{
  TradeDirection, orders, is_cooling_down, execute_begin, plan_orders,
}
use hunter_fi.Hedging.Execution.Guard.{execute_begin_lem, plan_orders-sum, start_approved-stop}
use hunter_fi.Hedging.State.{trade_failed}
use hunter_fi.Hedging.Execution.{sell_base}
use hunter_fi.Common.Types.{split_both, no_split}
use hunter_fi.Hedging.Trades.{
  Trade, execute_hedge_trades, first_stage, should_split_first, should_split_second,
  reverse_direction, place, gather,
}
use hunter_fi.Hedging.Trades.Volume.{
  fills, execute_hedge_trades-volume, execute_hedge_trades_second_split,
}

-- A stable memory that always grows.
abbrev always : SelfHedgingState → Bool
always _ = true

abbrev running_state : SelfHedgingState
running_state = record (initial 7 hedge) { status = running }

abbrev canister : Hedging
canister = record { cell = running_state; in_progress = false; timer = some 60 }

abbrev balances : Unused
balances = record { token0_balance = 2000000; token1_balance = 0; token0 = 21; base_token = 21 }

reachable-IsSound_example : IsSound (init_self_hedging always 7 hedge fresh).1
reachable-IsSound_example = reachable-IsSound always (init_self_hedging always 7 hedge fresh).1 (
    then_step fresh fresh (init_self_hedging always 7 hedge fresh).1 (stay fresh)
      (by_init 7 hedge fresh))

Step-owner_example : (pause always user_call canister).1.cell.owner ≡ 7
Step-owner_example =
    Step-owner always canister (pause always user_call canister).1 (by_pause user_call canister)
      (λ e. omega (arith, e))

split_amount-sum_example :
    (sum (split_amount 5000 1000000 3) ≡ 1000000) × (length (split_amount 5000 1000000 3) ≡ 3)
split_amount-sum_example =
    split_amount-sum 5000 1000000 3 (omega arith) (omega arith) (omega arith) (omega arith)

-- Five units in ten orders become nine.
split_amount_exceeds_example : sum (split_amount 5000 5 10) ≡ 9
split_amount_exceeds_example =
    split_amount_exceeds 5000 5 10 (omega arith) (omega arith) (omega arith)

execute_begin_lem_example :
    ((execute_begin user_call canister ≡ (ok running_state, record canister { in_progress = true }))
      × (running ≡ running)
      × (false ≡ false)
      × (is_cooling_down user_call none ≡ false))
    ⊎ (((execute_begin user_call canister).0 ≢ ok running_state)
        × ((execute_begin user_call canister).1 ≡ canister))
execute_begin_lem_example = execute_begin_lem user_call canister running_state

plan_orders-sum_example :
    (t : TradeDirection) × (xs : List ℕ) × (plan_orders user_call running_state 2000000
      ≡ orders t xs)
    × (sum xs ≡ 1000000)
    × (3 ≤ length xs)
    × (length xs ≤ 10)
plan_orders-sum_example =
    plan_orders-sum user_call running_state 2000000 (omega arith) (omega arith)

start_approved-stop_example :
    let stopped = stop always user_call canister in
    let started = start_approved always running_state (ok tt) stopped.1 in
    (stopped.0 ≡ ok tt)
    × (stopped.1.cell.status ≡ terminated)
    × (stopped.1.timer ≡ none)
    × (started.0 ≡ ok tt)
    × (started.1.cell.status ≡ running)
    × (started.1.timer ≡ some 60)
start_approved-stop_example =
    start_approved-stop always user_call running_state canister refl refl refl

-- One order each way, on an exchange that gives one unit for one. The world counts the refreshes.
execute_hedge_trades-volume_example :
    execute_hedge_trades suc
      (ok tt)
      (fills (λ _ x. x))
      (fills (λ _ x. x))
      5000
      true
      sell_base
      (400000 ∷ 600000 ∷ [])
      no_split
      3
    ≡ (ok 2000000, 4)
unfolding should_split_first
execute_hedge_trades-volume_example =
    execute_hedge_trades-volume suc (λ _ x. x) (λ _ x. x) 5000 true sell_base (400000 ∷ 600000 ∷ [])
      no_split 1000000 3 refl (omega arith) (omega arith) (omega arith) (omega arith)

abbrev rejects : Trade
rejects _ _ = err trade_failed

nothing_traded :
    execute_hedge_trades suc
      (ok tt)
      rejects
      (fills (λ _ x. x))
      5000
      true
      sell_base
      (5 ∷ [])
      split_both
      3
    ≡ (err trade_failed, 3)
unfolding execute_hedge_trades first_stage should_split_first place gather
nothing_traded = refl

abbrev pool_found : Result StrategyError (Unit {0})
pool_found = ok tt

execute_hedge_trades_second_split_example :
    ((pool_found ≡ err trade_failed)
      ⊎ (first_stage rejects (should_split_first split_both true) (5 ∷ []) ≡ err trade_failed))
    × (◌≡◌ {A = ℕ} 3 3)
unfolding should_split_second reverse_direction
execute_hedge_trades_second_split_example =
    execute_hedge_trades_second_split suc pool_found rejects (fills (λ _ x. x)) 5000 true sell_base
      (5 ∷ []) split_both trade_failed 3 3 refl nothing_traded
