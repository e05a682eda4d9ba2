-- ===== src/Hedging/Trades.antt =====
-- `execute_hedge_trades` of src/strategies/self_hedging/src/lib.rs: sell the held token, then buy it
-- back. The exchange is a parameter: what it answers to the orders of the first and of the second
-- stage, by the number of the order and its amount.
pub mod Volume
use hunter_fi.Base.{
  ℕ, zero, suc, ◌+◌, ◌%◌, Bool, true, false, not, List, [], ◌∷◌, ◌++◌, eqb, if◌then◌else◌, Result,
  ok, err, Action, sum,
}
use hunter_fi.Base.Words.{u128_mod, sat_add128}
use hunter_fi.Common.Types.{OrderSplitType, no_split, split_buy, split_sell, split_both}
use hunter_fi.Hedging.State.{StrategyError, trade_failed}
use hunter_fi.Hedging.Split.{split_amount, get_split_order_count}
use hunter_fi.Hedging.Execution.{TradeDirection, buy_base, sell_base}

-- The part of `TradeResult` that the strategy reads.
pub record Filled : Type 0 where
  pub input_amount : ℕ
  pub output_amount : ℕ

abbrev pub Trade : Type 0
Trade = ℕ → ℕ → Result StrategyError Filled

unfoldable pub reverse_direction : TradeDirection → TradeDirection
reverse_direction buy_base = sell_base
reverse_direction sell_base = buy_base

unfoldable pub should_split_first : OrderSplitType → Bool → Bool
should_split_first no_split hold_token_is_base = false
should_split_first split_buy hold_token_is_base = not hold_token_is_base
should_split_first split_sell hold_token_is_base = hold_token_is_base
should_split_first split_both hold_token_is_base = true

unfoldable pub should_split_second : OrderSplitType → TradeDirection → Bool
should_split_second no_split d = false
should_split_second split_buy buy_base = true
should_split_second split_buy sell_base = false
should_split_second split_sell buy_base = false
should_split_second split_sell sell_base = true
should_split_second split_both d = true

-- The results of the orders from number `i` on; an order of nothing is not placed.
unfoldable pub place : Trade → ℕ → List ℕ → List (Result StrategyError Filled)
place trade i [] = []
place trade i (x ∷ xs) =
    let rest = place trade (suc i) xs in if eqb x 0 then rest else trade i x ∷ rest

-- The first stage stops at the first order that failed.
unfoldable pub gather :
    List (Result StrategyError Filled) → ℕ → List ℕ → Result StrategyError (ℕ × List ℕ)
gather [] volume outputs = ok (volume, outputs)
gather (ok f ∷ rs) volume outputs =
    gather rs (sat_add128 volume f.input_amount) (outputs ++ f.output_amount ∷ [])
gather (err e ∷ rs) volume outputs = err trade_failed

-- The second stage passes over the orders that failed.
unfoldable pub gather_filled : List (Result StrategyError Filled) → ℕ → ℕ
gather_filled [] volume = volume
gather_filled (ok f ∷ rs) volume = gather_filled rs (sat_add128 volume f.input_amount)
gather_filled (err e ∷ rs) volume = gather_filled rs volume

unfoldable pub first_stage : Trade → Bool → List ℕ → Result StrategyError (ℕ × List ℕ)
unfolding gather place
first_stage trade true amounts = gather (place trade 0 amounts) 0 []
first_stage trade false amounts =
    let amount = sum amounts % u128_mod in
    if eqb amount 0 then ok (0, []) else elim (trade 0 amount) [
      | ok f ↦ ok (sat_add128 0 f.input_amount, f.output_amount ∷ [])
      | err e ↦ err trade_failed
    ]

unfoldable pub second_stage : Trade → ℕ → Bool → ℕ → ℕ → Result StrategyError ℕ
unfolding gather_filled place
second_stage trade now true volume output =
    ok (gather_filled (place trade 0 (split_amount now output (get_split_order_count now))) volume)
second_stage trade now false volume output = elim (trade 0 output) [
  | ok f ↦ ok (sat_add128 volume f.input_amount)
  | err e ↦ err trade_failed
]

-- `pool` is what `get_pool_info` returned, with its error as the strategy reports it, and `refresh` what `check_icpswap_balance` does to the world,
-- whose result is ignored. `now` is the time at which the second stage begins.
module _ {W : Type 0} (refresh : W → W) where
  -- The second stage, and the refresh at its end.
  unfoldable pub second_stage_refreshed : Trade → ℕ → Bool → ℕ → ℕ → Action W StrategyError ℕ
  unfolding second_stage
  second_stage_refreshed trade now split volume output w =
      elim (second_stage trade now split volume output) [
        | err e ↦ (err e, w)
        | ok total ↦ (ok total, refresh w)
      ]

  unfoldable pub execute_hedge_trades :
      Result StrategyError (Unit {0})
      → Trade
      → Trade
      → ℕ
      → Bool
      → TradeDirection
      → List ℕ
      → OrderSplitType
      → Action W StrategyError ℕ
  unfolding first_stage second_stage_refreshed should_split_first should_split_second
      reverse_direction
  execute_hedge_trades pool trade trade' now hold_token_is_base direction amounts split_type w =
      elim pool [
        | err e ↦ (err e, w)
        | ok _ ↦
            elim (first_stage trade (should_split_first split_type hold_token_is_base) amounts) [
              | err e ↦ (err e, w)
              | ok (volume, outputs) ↦
                  let output = sum outputs % u128_mod in
                  if eqb output 0
                  then (ok volume, refresh w)
                  else second_stage_refreshed trade' now
                      (should_split_second split_type (reverse_direction direction)) volume output w
            ]
      ]
