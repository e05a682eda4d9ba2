-- ===== src/Hedging/Execution/Guard.antt =====
-- One run at a time: who may begin, when the flag is reset, and what a run orders.
use hunter_fi.Base.{
  ℕ, ◌*◌, ◌≤◌, ◌<◌, ◌≡◌, ◌≢◌, ◌⊎◌, inl, inr, Bool, true, false, none, some, List, Result, ok, arith,
  leb, if◌then◌else◌, length, sum, Result-cases, nat_eq,
}
use Prim.Native.Nat.{min}
use hunter_fi.Base.Words.{u128_mod}
use hunter_fi.Common.Types.{running, terminated, strategy_status_eq}
use hunter_fi.Factory.Types.{Call}
use hunter_fi.Hedging.State.{SelfHedgingState, Hedging, StrategyError}
use hunter_fi.Hedging.Lifecycle.{Unused, stop, start_approved}
use hunter_fi.Hedging.Split.{get_split_order_count, split_amount}
use hunter_fi.Hedging.Split.Total.{split_amount-sum}
use hunter_fi.Hedging.Execution.{
  TradeDirection, sell_base, buy_base, holds_base, decide, idle, orders, is_cooling_down,
  execute_begin, execute_balances, execute_finish, plan_orders,
}

-- A run begins only if the strategy is running, no other run is in progress and the cooldown is
-- over; then it sets the flag, changes nothing else, and has read the state. Otherwise the call is
-- an error, and nothing has changed.
pub execute_begin_lem :
    (c : Call) (s : Hedging) (d : SelfHedgingState)
    → (((execute_begin c s) ≡ (ok s.cell, record s { in_progress = true }))
        × (s.cell.status ≡ running)
        × (s.in_progress ≡ false)
        × (is_cooling_down c s.cell.last_execution ≡ false))
      ⊎ (((execute_begin c s).0 ≢ ok d) × ((execute_begin c s).1 ≡ s))
unfolding execute_begin
execute_begin_lem c s d = ground arith

-- Whatever the balances are, a run that does not go on to trade has reset the flag.
pub execute_balances_releases :
    (fits : SelfHedgingState → Bool) (c : Call) (d : SelfHedgingState)
    (reply : Result StrategyError Unused) (s : Hedging)
    → ((t : TradeDirection) × (xs : List ℕ) × ((execute_balances fits c d reply s).0
          ≡ ok (orders t xs)))
      ⊎ ((execute_balances fits c d reply s).1.in_progress ≡ false)
unfolding execute_balances
execute_balances_releases fits c d reply s = elim (Result-cases (decide fits c d reply s).0) [
  | inl (idle, made) ↦ inr (ground arith)
  | inl (orders t xs, made) ↦ inl (t, xs, ground arith)
  | inr (e, failed) ↦ inr (ground arith)
]

-- Whatever the trades lead to, the run ends with the flag reset.
pub execute_finish_releases :
    (fits : SelfHedgingState → Bool) (c : Call) (outcome : Result StrategyError ℕ) (s : Hedging)
    → (execute_finish fits c outcome s).1.in_progress ≡ false
unfolding execute_finish
execute_finish_releases fits c outcome s = ground arith

pub split_order_count_bounds :
    (now : ℕ) → (3 ≤ get_split_order_count now) × (get_split_order_count now ≤ 10)
unfolding get_split_order_count
split_order_count_bounds now = (omega arith, omega arith)

-- The orders of a run are 3 to 10, and they add up to the transaction size or to the balance,
-- whichever is less, if that is 9 at least and a hundred times it fits a `u128`.
pub plan_orders-sum :
    (c : Call) (d : SelfHedgingState) (balance : ℕ)
    → 9 ≤ min d.transaction_size balance
    → min d.transaction_size balance * 100 < u128_mod
    → (t : TradeDirection) × (xs : List ℕ) × (plan_orders c d balance ≡ orders t xs)
      × (sum xs ≡ min d.transaction_size balance)
      × (3 ≤ length xs)
      × (length xs ≤ 10)
unfolding plan_orders
plan_orders-sum c d balance enough fits =
    let amount = min d.transaction_size balance in
    let count = get_split_order_count c.time in
    let few = split_order_count_bounds c.time in
    let parts =
      split_amount-sum c.time amount count (omega arith) (omega (arith, few)) (omega (arith, few))
        fits in
    let least : (if leb d.transaction_size balance then d.transaction_size else balance) ≡ amount =
      ground arith in
    (
      if holds_base d then sell_base else buy_base,
      split_amount c.time amount count,
      ground (arith, least),
      parts.0,
      omega (arith, parts, few),
      omega (arith, parts, few),
    )

-- The last part of `start` does not look at the status again: if the owner stops the strategy
-- while `start` awaits a reply, and the stable memory takes both writes, the stop succeeds, and
-- yet the strategy runs afterwards and its timer is set.
pub start_approved-stop :
    (fits : SelfHedgingState → Bool) (c : Call) (d : SelfHedgingState) (s : Hedging)
    → c.caller ≡ s.cell.owner
    → fits (record s.cell { status = terminated }) ≡ true
    → fits (record s.cell { status = running }) ≡ true
    → let stopped = stop fits c s in
      let started = start_approved fits d (ok tt) stopped.1 in
      (stopped.0 ≡ ok tt)
      × (stopped.1.cell.status ≡ terminated)
      × (stopped.1.timer ≡ none)
      × (started.0 ≡ ok tt)
      × (started.1.cell.status ≡ running)
      × (started.1.timer ≡ some d.config.check_interval_secs)
unfolding stop start_approved
start_approved-stop fits c d s owned room room' = ground arith
