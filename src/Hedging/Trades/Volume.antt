-- ===== src/Hedging/Trades/Volume.antt =====
-- The volume of a hedge: what goes in and what comes back.
use hunter_fi.Base.{
  ℕ, suc, ◌+◌, ◌*◌, ◌%◌, ◌≤◌, ◌<◌, ◌≡◌, inl, inr, Bool, true, false, List, [], ◌∷◌, ◌++◌, eqb, ◌⊎◌,
  Result, if◌then◌else◌, ok, err, arith, sum, sum-append, Bool-cases,
}
use hunter_fi.Base.Words.{u128_mod, sat_add128}
use hunter_fi.Common.Types.{OrderSplitType}
use hunter_fi.Hedging.State.{StrategyError}
use hunter_fi.Hedging.Split.{split_amount, get_split_order_count}
use hunter_fi.Hedging.Split.Total.{split_amount-sum}
use hunter_fi.Hedging.Execution.{TradeDirection}
use hunter_fi.Hedging.Execution.Guard.{split_order_count_bounds}
use hunter_fi.Hedging.Trades.{
  Trade, place, gather, gather_filled, first_stage, second_stage, execute_hedge_trades,
  should_split_first, should_split_second, reverse_direction, second_stage_refreshed,
}

-- An exchange that fills every order in full, and gives `g i x` for `x` in order number `i`.
abbrev pub fills : (ℕ → ℕ → ℕ) → Trade
fills g i x = ok (record { input_amount = x; output_amount = g i x })

-- What such an exchange gives for the orders of a list.
abbrev pub given : (ℕ → ℕ → ℕ) → ℕ → List ℕ → ℕ
given g i [] = 0
given g i (x ∷ xs) = let rest = given g (suc i) xs in if eqb x 0 then rest else g i x + rest

module _ (g : ℕ → ℕ → ℕ) where
  gather-fills :
      (i : ℕ) (xs : List ℕ) (volume : ℕ) (outputs : List ℕ)
      → volume + sum xs < u128_mod
      → (outs : List ℕ) × (gather (place (fills g) i xs) volume outputs
          ≡ ok (volume + sum xs, outs))
        × (sum outs ≡ sum outputs + given g i xs)
  unfolding gather place
  gather-fills i [] volume outputs fits = (outputs, ground arith, omega arith)
  gather-fills i (x ∷ xs) volume outputs fits = elim (Bool-cases (eqb x 0)) [
    | inl nothing ↦
        let rest = gather-fills (suc i) xs volume outputs (omega arith) in
        (rest.0, ground (arith, rest.1), ground (arith, rest.2))
    | inr placed ↦
        let rest = gather-fills (suc i) xs (volume + x) (outputs ++ g i x ∷ []) (omega arith) in
        let added : sat_add128 volume x ≡ volume + x = omega arith in
        (
          rest.0,
          ground (arith, added, rest.1),
          ground (arith, rest.2, sum-append outputs (g i x ∷ [])),
        )
  ]

  gather_filled-fills :
      (i : ℕ) (xs : List ℕ) (volume : ℕ)
      → volume + sum xs < u128_mod
      → gather_filled (place (fills g) i xs) volume ≡ volume + sum xs
  unfolding gather_filled place
  gather_filled-fills i [] volume fits = omega arith
  gather_filled-fills i (x ∷ xs) volume fits =
      let added : sat_add128 volume x ≡ volume + x = omega arith in
      ground (
        arith,
        added,
        gather_filled-fills (suc i) xs volume,
        gather_filled-fills (suc i) xs (volume + x),
      )

-- What the first stage gives for its amounts, split or in one order.
abbrev pub first_output : (ℕ → ℕ → ℕ) → Bool → List ℕ → ℕ
first_output g true amounts = given g 0 amounts
first_output g false amounts = g 0 (sum amounts)

first_stage-fills :
    (g : ℕ → ℕ → ℕ) (split : Bool) (amounts : List ℕ)
    → 1 ≤ sum amounts
    → sum amounts < u128_mod
    → (outs : List ℕ) × (first_stage (fills g) split amounts ≡ ok (sum amounts, outs))
      × (sum outs ≡ first_output g split amounts)
unfolding first_stage
first_stage-fills g true amounts pos fits =
    let all = gather-fills g 0 amounts 0 [] (omega arith) in
    (all.0, ground (arith, all.1), ground (arith, all.2))
first_stage-fills g false amounts pos fits = (g 0 (sum amounts) ∷ [], ground arith, omega arith)

second_stage-fills :
    (g : ℕ → ℕ → ℕ) (now : ℕ) (split : Bool) (volume output : ℕ)
    → 9 ≤ output
    → output * 100 < u128_mod
    → volume + output < u128_mod
    → second_stage (fills g) now split volume output ≡ ok (volume + output)
unfolding second_stage
second_stage-fills g now true volume output enough room fits =
    let few = split_order_count_bounds now in
    let parts =
      split_amount-sum now output (get_split_order_count now) (omega arith) (omega (arith, few))
        (omega (arith, few)) room in
    ground (
      arith,
      parts,
      gather_filled-fills g 0 (split_amount now output (get_split_order_count now)) volume
          (omega (arith, parts)),
    )
second_stage-fills g now false volume output enough room fits = ground arith

module _ {W : Type 0} (refresh : W → W) where
  -- When the pool is known, on an exchange that fills every order in full, a hedge succeeds, however
  -- its two stages are split, and refreshes the balances once; its volume is what was sold and what
  -- the first stage gave for it, if that is 9 at least, a hundred times it fits a `u128`, and so
  -- does the volume.
  pub execute_hedge_trades-volume :
      (g h : ℕ → ℕ → ℕ) (now : ℕ) (hold_token_is_base : Bool) (direction : TradeDirection)
      (amounts : List ℕ) (split_type : OrderSplitType) (output : ℕ) (w : W)
      → output ≡ first_output g (should_split_first split_type hold_token_is_base) amounts
      → 1 ≤ sum amounts
      → 9 ≤ output
      → output * 100 < u128_mod
      → sum amounts + output < u128_mod
      → execute_hedge_trades refresh
          (ok tt)
          (fills g)
          (fills h)
          now
          hold_token_is_base
          direction
          amounts
          split_type
          w
        ≡ (ok (sum amounts + output), refresh w)
  unfolding execute_hedge_trades second_stage_refreshed
  execute_hedge_trades-volume g h now hold_token_is_base direction amounts split_type output w same
        pos enough room fits =
      let (outs, first, total) =
        first_stage-fills g (should_split_first split_type hold_token_is_base) amounts pos
          (omega arith) in
      let back : sum outs % u128_mod ≡ output = omega (arith, total) in
      let no_zero : eqb output 0 ≡ false = ground arith in
      ground (
        arith,
        first,
        back,
        no_zero,
        second_stage-fills h now (should_split_second split_type (reverse_direction direction))
            (sum amounts) output enough room fits,
      )

  -- A hedge whose second stage is split fails only if the pool was not found or the first stage
  -- failed, with that error, whatever the exchange answers to the orders of the second stage; and
  -- then the balances are not refreshed.
  pub execute_hedge_trades_second_split :
      (pool : Result StrategyError (Unit {0})) (trade trade' : Trade) (now : ℕ)
      (hold_token_is_base : Bool) (direction : TradeDirection) (amounts : List ℕ)
      (split_type : OrderSplitType) (e : StrategyError) (w w' : W)
      → should_split_second split_type (reverse_direction direction) ≡ true
      → execute_hedge_trades refresh pool trade trade' now hold_token_is_base direction amounts
          split_type w
        ≡ (err e, w')
      → ((pool ≡ err e)
          ⊎ (first_stage trade (should_split_first split_type hold_token_is_base) amounts ≡ err e))
        × (w' ≡ w)
  unfolding execute_hedge_trades second_stage second_stage_refreshed
  execute_hedge_trades_second_split pool trade trade' now hold_token_is_base direction amounts
        split_type e w w' split failed =
      ground arith
