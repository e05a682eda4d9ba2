-- ===== src/Exchange/Trades/Direction.antt =====
-- The direction of a trade in the pool of its pair.
use hunter_fi.Base.{ℕ, not, ◌≡◌, if◌then◌else◌, arith}
use hunter_fi.Exchange.Types.{TradeParams}
use hunter_fi.Exchange.Requests.{Session}
use hunter_fi.Exchange.Calls.{
  is_zero_for_one, pool_args, token_to_icpswap_token, input_token, output_token,
}
use hunter_fi.Exchange.Trades.{swap_args}

module _ {W : Type 0} (self : Session W) where
  -- The arguments of a quote or a swap, for any least output, say to go from the pool's first token
  -- to its second exactly when the trade's input token is the one that `getPool` was given as the
  -- first, and otherwise the input token is the second, where the texts of the two tokens are ordered
  -- one way.
  pub swap_args-pool_args :
      (params : TradeParams) (least : ℕ)
      → self.io.text_before params.pair.base_token.canister_id params.pair.quote_token.canister_id
        ≡ not (
            self.io.text_before params.pair.quote_token.canister_id
              params.pair.base_token.canister_id)
      → ((pool_args self params.pair.base_token params.pair.quote_token).token0
          ≡ token_to_icpswap_token (
              if (swap_args self params least).zero_for_one
              then input_token params
              else output_token params))
        × ((pool_args self params.pair.base_token params.pair.quote_token).token1
            ≡ token_to_icpswap_token (
                if (swap_args self params least).zero_for_one
                then output_token params
                else input_token params))
  unfolding pool_args swap_args is_zero_for_one
  swap_args-pool_args params least h = ground arith
