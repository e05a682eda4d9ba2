-- ===== src/Exchange/Trades.antt =====
-- Quotes and trades of src/exchange/src/icpswap.rs.
pub mod Order
pub mod Funding
pub mod Delivered
pub mod Delivery
pub mod Batch
pub mod Direction
use hunter_fi.Base.{
  ℕ, ◌*◌, ◌%◌, ◌++◌, Bool, true, false, Option, some, List, [], ◌∷◌, String, Result, ok, err,
  Action, from_result, fail, pure, gets, ltb, if◌then◌else◌, ◌>>=◌, ◌>>◌,
}
use hunter_fi.Base.Words.{u64_mod, u128_mod}
use hunter_fi.Common.Types.{Principal, Float, pos, one}
use hunter_fi.Common.Calls.{Rejection}
use hunter_fi.Exchange.Types.{
  TokenStandard, icrc1, icrc2, dip20, ext, icp, TradeParams, TradeResult, QuoteResult, PoolInfo,
  BatchTradeParams, Detail, plain, ExchangeError, transaction_failed, fmt, BatchTradeResult,
}
use hunter_fi.Exchange.Requests.{IcpSwapAmountArgs, IcpSwapSwapArgs, quote, swap, Session}
use hunter_fi.Exchange.Utils.{validate_trade_params, current_timestamp_secs}
use hunter_fi.Exchange.Calls.{
  to_u64, to_u128, input_token, output_token, is_zero_for_one, get_pool_canister, call_quote,
  call_swap, call_deposit, call_deposit_from, call_withdraw,
}
use hunter_fi.Exchange.Tokens.{transfer_token_to_pool_subaccount, approve_token}

-- The fee that a token's ledger takes for the transfer of a trade's tokens.
unfoldable pub token_fee : TokenStandard → ℕ
token_fee icrc1 = 10000
token_fee icp = 10000
token_fee icrc2 = 10
token_fee dip20 = 0
token_fee ext = 0

-- The arguments of `deposit` and `depositFrom`, and those of `withdraw`.
unfoldable pub deposit_args : TradeParams → IcpSwapAmountArgs
unfolding token_fee
deposit_args params = record {
  fee = token_fee (input_token params).standard;
  token = (input_token params).canister_id;
  amount = params.amount;
}

unfoldable pub withdraw_args : TradeParams → ℕ → IcpSwapAmountArgs
unfolding token_fee
withdraw_args params swapped = record {
  fee = token_fee (output_token params).standard;
  token = (output_token params).canister_id;
  amount = swapped;
}

module _ {W : Type 0} (self : Session W) where
  -- `a as f64 / b as f64`, or 0.0 for a `b` that is not above 0
  unfoldable pub price_of : ℕ → ℕ → Float
  price_of a b = if ltb 0 b then self.io.over (self.io.to_float a) (self.io.to_float b) else pos 0

  unfoldable pub quote_result : TradeParams → ℕ → QuoteResult
  unfolding price_of
  quote_result params out = record {
    input_amount = params.amount;
    output_amount = out;
    price = price_of out params.amount;
    fee_amount =
        self.io.to_u128 (self.io.times (self.io.to_float params.amount) self.io.quote_fee_rate);
    price_impact = pos 0;
  }

  -- The arguments of `quote` and of `swap`, for the least output `least`.
  unfoldable pub swap_args : TradeParams → ℕ → IcpSwapSwapArgs
  unfolding is_zero_for_one
  swap_args params least = record {
    zero_for_one = is_zero_for_one self (input_token params) (output_token params);
    amount_in = params.amount;
    amount_out_minimum = least;
  }

  unfoldable pub get_quote_internal : Principal → TradeParams → Action W ExchangeError QuoteResult
  unfolding swap_args quote_result
  get_quote_internal pool params = do
    quote_amount_nat ← call_quote self pool (swap_args params 0)
    quote_amount ←
        from_result (to_u128 "Failed to convert quote BigUint {:?} to u128: {}" quote_amount_nat)
    pure (quote_result params quote_amount)

  unfoldable pub get_quote : TradeParams → Action W ExchangeError QuoteResult
  unfolding get_quote_internal
  get_quote params = do
    pool_data ← get_pool_canister self params.pair.base_token params.pair.quote_token
    get_quote_internal pool_data.canister_id params

  -- The least output that the slippage tolerance allows, of a quoted output.
  unfoldable pub minimum_output : TradeParams → QuoteResult → ℕ
  minimum_output params quoted = self.io.to_u128 (
      self.io.times (self.io.to_float quoted.output_amount)
        (self.io.minus (pos one) (self.io.over params.slippage_tolerance (self.io.to_float 100))))

  -- The result of a trade in the pool `pool` with the fee `pool_fee`, at the time of `s`.
  unfoldable pub trade_result : TradeParams → Principal → ℕ → ℕ → W → TradeResult
  unfolding price_of current_timestamp_secs
  trade_result params pool pool_fee out s = record {
    input_amount = params.amount;
    output_amount = out;
    fee_amount = self.io.to_u128 (
        self.io.times (self.io.to_float params.amount)
          (self.io.over (self.io.to_float pool_fee) (self.io.to_float 1000000)));
    price = price_of out params.amount;
    timestamp = current_timestamp_secs (self.net.now s);
    transaction_id = some (record { pool = pool; nanoseconds = self.net.now s });
  }

  -- Workflow 1: the tokens go to the pool's subaccount and are deposited from there.
  unfoldable pub workflow1 : TradeParams → Principal → ℕ → Action W ExchangeError ℕ
  unfolding token_fee deposit_args swap_args
  workflow1 params pool least = do
    transfer_token_to_pool_subaccount self (input_token params) pool params.amount
        (token_fee (input_token params).standard)
    call_deposit self pool (deposit_args params)
    call_swap self pool (swap_args params least)

  -- Workflow 2: the pool is approved and takes the tokens itself.
  unfoldable pub workflow2 : TradeParams → Principal → ℕ → Action W ExchangeError ℕ
  unfolding token_fee deposit_args swap_args
  workflow2 params pool least = do
    approve_token self (input_token params) pool (params.amount * 100 % u128_mod)
    call_deposit_from self pool (deposit_args params)
    call_swap self pool (swap_args params least)

  -- The choice of a workflow by the standard of the input token.
  unfoldable pub workflow : TokenStandard → TradeParams → Principal → ℕ → Action W ExchangeError ℕ
  unfolding workflow1 workflow2
  workflow icrc1 = workflow1
  workflow dip20 = workflow2
  workflow ext = workflow2
  workflow icrc2 = workflow2
  workflow icp = workflow2

  unfoldable pub fund_and_swap : TradeParams → Principal → ℕ → Action W ExchangeError ℕ
  unfolding workflow
  fund_and_swap params = workflow (input_token params).standard params

  unfoldable pub execute_icpswap_trade : TradeParams → Action W ExchangeError TradeResult
  unfolding get_quote_internal minimum_output fund_and_swap trade_result withdraw_args
  execute_icpswap_trade params = do
    now ← gets self.net.now
    from_result (validate_trade_params now params)
    pool_data ← get_pool_canister self params.pair.base_token params.pair.quote_token
    quoted ← get_quote_internal pool_data.canister_id params
    pool_fee ← from_result (to_u64 "Failed to convert pool fee Nat {:?} to u64: {}" pool_data.fee)
    swapped ← fund_and_swap params pool_data.canister_id (minimum_output params quoted)
    call_withdraw self pool_data.canister_id (withdraw_args params swapped)
    out ← from_result (to_u128 "Failed to convert final swap result Nat {:?} to u128: {}" swapped)
    gets (trade_result params pool_data.canister_id pool_fee out)

  -- A swap of tokens that are in the pool already.
  unfoldable pub execute_call_trade : TradeParams → Action W ExchangeError TradeResult
  unfolding get_quote_internal minimum_output swap_args trade_result
  execute_call_trade params = do
    pool_data ← get_pool_canister self params.pair.base_token params.pair.quote_token
    quoted ← get_quote_internal pool_data.canister_id params
    swapped ← call_swap self pool_data.canister_id (swap_args params (minimum_output params quoted))
    out ← from_result (to_u128 "Failed to convert final swap result Nat {:?} to u128: {}" swapped)
    pool_fee ← from_result (to_u64 "Failed to convert pool fee Nat {:?} to u64: {}" pool_data.fee)
    gets (trade_result params pool_data.canister_id pool_fee out)

  -- The same without a quote, in a pool that the caller names. Its fee is a `u64` already.
  unfoldable pub execute_call_trade_no_slippage :
      TradeParams → PoolInfo → Action W ExchangeError TradeResult
  unfolding swap_args trade_result
  execute_call_trade_no_slippage params pool_data = do
    swapped ← call_swap self pool_data.pool_id (swap_args params 0)
    out ← from_result (to_u128 "Failed to convert final swap result Nat {:?} to u128: {}" swapped)
    gets (trade_result params pool_data.pool_id pool_data.fee out)

  -- The loop over the trades, with the results and the flag so far.
  unfoldable pub batch_loop :
      Bool
      → List TradeParams
      → List (Result Detail TradeResult)
      → Bool
      → Action W ExchangeError (List (Result Detail TradeResult) × Bool)
  unfolding execute_icpswap_trade
  batch_loop require_all_success [] results all_succeeded s = (ok (results, all_succeeded), s)
  batch_loop require_all_success (p ∷ ps) results all_succeeded s =
      let (result, s') = execute_icpswap_trade p s in
      elim result [
        | ok r ↦ batch_loop require_all_success ps (results ++ ok r ∷ []) all_succeeded s'
        | err e ↦ elim require_all_success [
          | true ↦ (
            err (transaction_failed (plain "Batch trade failed, one or more trades errored")),
            s',
          )
          | false ↦ batch_loop require_all_success ps (results ++ err (fmt e) ∷ []) false s'
        ]
      ]

  unfoldable pub execute_batch_trade : BatchTradeParams → Action W ExchangeError BatchTradeResult
  unfolding batch_loop current_timestamp_secs
  execute_batch_trade params = do
    (results, all_succeeded) ← batch_loop params.require_all_success params.trades [] true
    now ← gets self.net.now
    pure (record {
      results = results;
      all_succeeded = all_succeeded;
      timestamp = current_timestamp_secs now;
    })
