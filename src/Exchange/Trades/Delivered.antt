-- ===== src/Exchange/Trades/Delivered.antt =====
-- What a trade that succeeds has done: the calls, the answers that they rest on, and the result.
use hunter_fi.Base.{Bool, ℕ, List, [], ◌∷◌, ◌++◌, ◌≡◌, ok, ◌<◌}
use hunter_fi.Base.Words.{u128_mod}
use hunter_fi.Common.Types.{Principal, pos, one}
use hunter_fi.Exchange.Types.{TradeParams, TradeResult}
use hunter_fi.Exchange.Requests.{
  IcpSwapSwapArgs, Session, IcpSwapPoolData, Request, get_pool, quote, swap, withdraw,
}
use hunter_fi.Exchange.Calls.{input_token, output_token, pool_args}
use hunter_fi.Exchange.Trades.Funding.{whole_amount, funding_requests}

-- The arguments of a quote or a swap of `amount`.
abbrev pub whole : Bool → ℕ → ℕ → IcpSwapSwapArgs
whole zero_for_one amount least = record {
  zero_for_one = zero_for_one;
  amount_in = amount;
  amount_out_minimum = least;
}

module _ {W : Type 0} (self : Session W) where
  abbrev pub forward : TradeParams → Bool
  forward params =
      self.io.text_before (input_token params).canister_id (output_token params).canister_id

  abbrev pub pool_request : TradeParams → Request
  pool_request params =
      get_pool self.connector.factory_canister_id
        (pool_args self params.pair.base_token params.pair.quote_token)

  -- What the slippage tolerance, in percent, leaves of a quoted output.
  abbrev pub least_output : TradeParams → ℕ → ℕ
  least_output params quoted = self.io.to_u128 (
      self.io.times (self.io.to_float quoted)
        (self.io.minus (pos one) (self.io.over params.slippage_tolerance (self.io.to_float 100))))

  -- The requests of a trade in the pool `pool`, with the least output `least`, that gives `out`.
  abbrev pub trade_requests : TradeParams → Principal → ℕ → ℕ → List Request
  trade_requests params pool least out =
      pool_request params
      ∷ quote pool (whole (forward params) params.amount 0)
      ∷ (funding_requests self (input_token params).standard params pool
          ++ swap pool (whole (forward params) params.amount least)
            ∷ withdraw pool (whole_amount (output_token params) out)
            ∷ [])

  -- The answers on the pool and the quote of a trade that begins in the world `w`.
  abbrev pub IsFound : TradeParams → W → IcpSwapPoolData → Type 0
  IsFound params w pool_data = (self.net.ask (pool_request params) w).0 ≡ ok (ok pool_data)

  abbrev pub IsQuoted : TradeParams → W → Principal → ℕ → Type 0
  IsQuoted params w pool q =
      (self.net.ask (quote pool (whole (forward params) params.amount 0))
        (self.net.ask (pool_request params) w).1).0
      ≡ ok (ok q)

  -- A trade with the result `r` that began in the world `w` has asked for the requests of a trade in
  -- the pool that the factory answered, for the output that this pool quoted. It gave all of
  -- `params.amount`, and reports and withdraws what the pool answered to the swap.
  pub record Delivered (params : TradeParams) (w : W) (r : TradeResult) (asked : List Request)
      : Type 0 where
    pub pool_data : IcpSwapPoolData
    pub quoted_output : ℕ
    pub found : IsFound params w pool_data
    pub quoted : IsQuoted params w pool_data.canister_id quoted_output
    pub swapped :
        (v : W) × ((self.net.ask
            (swap pool_data.canister_id
              (whole (forward params) params.amount (least_output params quoted_output)))
            v).0
          ≡ ok (ok r.output_amount))
    pub exactly :
        asked
        ≡ trade_requests params pool_data.canister_id
            (least_output params quoted_output)
            r.output_amount
    pub gives : r.input_amount ≡ params.amount
    pub fits : r.output_amount < u128_mod
