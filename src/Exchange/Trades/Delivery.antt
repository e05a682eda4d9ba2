-- ===== src/Exchange/Trades/Delivery.antt =====
-- What a trade has asked for when it succeeds, and what it returns.
use hunter_fi.Base.{
  gets, from_result, ◌>>=◌, ◌>>◌, arith, ℕ, List, [], ◌∷◌, ◌++◌, ◌≡◌, refl, ok, ap, sym, ◌∙◌,
}
use mathlib.Core.Path.{subst}
use mathlib.Core.List.{append_assoc}
use hunter_fi.Common.Types.{Principal}
use hunter_fi.Exchange.Types.{TradeParams, TradeResult, QuoteResult}
use hunter_fi.Exchange.Requests.{Session, IcpSwapPoolData, Request, quote, swap, withdraw}
use hunter_fi.Exchange.Trace.{Logged, logged}
use hunter_fi.Exchange.Emits.{
  >>=-Emits_at, Emits, done-Emits, >>=-Emits, Emits-ok, from_result->>=-Emits,
}
use hunter_fi.Exchange.Calls.{
  call_withdraw, is_zero_for_one, input_token, to_u64, to_u128, pool_args, to_u128-ok,
}
use hunter_fi.Exchange.Calls.Effects.{
  get_pool_canister->>=-Emits, call_quote->>=-Emits, call_withdraw->>=-Emits,
}
use hunter_fi.Exchange.Utils.{validate_trade_params}
use hunter_fi.Exchange.Trades.Funding.{IsSwapped, funding_requests, fund_and_swap-Emits}
use hunter_fi.Exchange.Trades.{
  fund_and_swap, get_quote_internal, execute_icpswap_trade, withdraw_args, swap_args, price_of,
  quote_result, minimum_output, trade_result,
}
use hunter_fi.Exchange.Trades.Delivered.{
  whole, forward, pool_request, least_output, trade_requests, IsFound, IsQuoted, Delivered,
}

module _ {W : Type 0} (self : Session W) where
  -- A quote in the world `s.1` is what the pool answers there.
  abbrev HasQuote : TradeParams → Principal → W → QuoteResult → Type 0
  HasQuote params pool v quoted =
      (q : ℕ) × (quoted ≡ quote_result self params q)
      × ((self.net.ask (quote pool (whole (forward self params) params.amount 0)) v).0 ≡ ok (ok q))

  get_quote_internal-Emits :
      (pool : Principal) (params : TradeParams) (s : Logged W)
      → Emits
          (λ quoted asked.
            (asked ≡ quote pool (swap_args self params 0) ∷ []) × HasQuote params pool s.1 quoted)
          s.0
          (get_quote_internal (logged self) pool params s)
  unfolding get_quote_internal swap_args quote_result price_of is_zero_for_one
  get_quote_internal-Emits pool params s =
      call_quote->>=-Emits self pool (swap_args (logged self) params 0) s (λ n e.
        from_result->>=-Emits (to_u128 "Failed to convert quote BigUint {:?} to u128: {}" n)
          (λ q small s1.
            done-Emits (quote_result (logged self) params q) s1
              (refl, (q, refl, e ∙ ap (λ x. ok (ok x)) (sym (to_u128-ok _ n small).0)))))

  delivered :
      (params : TradeParams) (w : W) (pool_data : IcpSwapPoolData) (quoted : QuoteResult)
      (q pool_fee swapped out : ℕ)
      → IsFound self params w pool_data
      → IsQuoted self params w pool_data.canister_id q
      → quoted ≡ quote_result self params q
      → IsSwapped self params pool_data.canister_id (minimum_output self params quoted) swapped
      → to_u128 "Failed to convert final swap result Nat {:?} to u128: {}" swapped ≡ ok out
      → (s : Logged W)
      → Delivered self params w
          (trade_result (logged self) params pool_data.canister_id pool_fee out s)
          (pool_request self params
              ∷ quote pool_data.canister_id (swap_args self params 0)
              ∷ (funding_requests self (input_token params).standard params pool_data.canister_id
                  ++ swap pool_data.canister_id
                      (swap_args self params (minimum_output self params quoted))
                    ∷ [])
            ++ withdraw pool_data.canister_id (withdraw_args params swapped) ∷ [])
  unfolding trade_result swap_args withdraw_args is_zero_for_one minimum_output quote_result
  delivered params w pool_data quoted q pool_fee swapped out found answered e (v, gave) h s =
      let same : out ≡ swapped = (to_u128-ok _ swapped h).0 in
      record {
        pool_data = pool_data;
        quoted_output = q;
        found = found;
        quoted = answered;
        swapped = (
          v,
          subst
                (λ x.
                  (self.net.ask
                    (swap pool_data.canister_id
                      (swap_args self params (minimum_output self params x)))
                    v).0
                  ≡ ok (ok swapped))
                e gave
              ∙ ap (λ x. ok (ok x)) (sym same),
        );
        exactly =
            ap
              (λ l.
                pool_request self params
                ∷ quote pool_data.canister_id (swap_args self params 0)
                ∷ l)
              (append_assoc
                (funding_requests self (input_token params).standard params pool_data.canister_id)
                (swap pool_data.canister_id
                    (swap_args self params (minimum_output self params quoted))
                  ∷ [])
                (withdraw pool_data.canister_id (withdraw_args params swapped) ∷ []))
            ∙ ap
                (λ x.
                  trade_requests self params pool_data.canister_id (minimum_output self params x)
                    swapped)
                e
            ∙ ap (trade_requests self params pool_data.canister_id (least_output self params q))
                (sym same);
        gives = refl;
        fits = omega (arith, to_u128-ok _ swapped h);
      }

  -- From the pool on.
  traded_in :
      (params : TradeParams) (w : W) (pool_data : IcpSwapPoolData) (s1 : Logged W)
      → IsFound self params w pool_data
      → s1.1 ≡ (self.net.ask (pool_request self params) w).1
      → Emits
          (λ r asked. Delivered self params w r (pool_request self params ∷ asked))
          s1.0
          ((do
            quoted ← get_quote_internal (logged self) pool_data.canister_id params
            pool_fee ←
                from_result (to_u64 "Failed to convert pool fee Nat {:?} to u64: {}" pool_data.fee)
            swapped ←
                fund_and_swap
                  (logged self)
                  params
                  pool_data.canister_id
                  (minimum_output (logged self) params quoted)
            call_withdraw (logged self) pool_data.canister_id (withdraw_args params swapped)
            out ←
                from_result
                  (to_u128 "Failed to convert final swap result Nat {:?} to u128: {}" swapped)
            gets (trade_result (logged self) params pool_data.canister_id pool_fee out))
            s1)
  unfolding swap_args is_zero_for_one minimum_output
  traded_in params w pool_data s1 found after =
      >>=-Emits_at (get_quote_internal (logged self) pool_data.canister_id params)
        (quote pool_data.canister_id (swap_args self params 0) ∷ []) s1
        (get_quote_internal-Emits pool_data.canister_id params s1)
        (λ quoted (q, e, answered).
          from_result->>=-Emits
            (to_u64 "Failed to convert pool fee Nat {:?} to u64: {}" pool_data.fee)
            (λ pool_fee _.
              >>=-Emits
                (funding_requests self (input_token params).standard params pool_data.canister_id
                  ++ swap pool_data.canister_id
                      (swap_args self params (minimum_output self params quoted))
                    ∷ [])
                (fund_and_swap-Emits self params pool_data.canister_id
                  (minimum_output (logged self) params quoted))
                (λ swapped gave.
                  call_withdraw->>=-Emits self pool_data.canister_id (withdraw_args params swapped)
                    (λ _ _ _.
                      from_result->>=-Emits
                        (to_u128 "Failed to convert final swap result Nat {:?} to u128: {}" swapped)
                        (λ out h s.
                          done-Emits
                            (trade_result (logged self) params pool_data.canister_id pool_fee out s)
                            s
                            (delivered params w pool_data quoted q pool_fee swapped out found
                              (subst
                                (λ v.
                                  (self.net.ask
                                    (quote pool_data.canister_id
                                      (whole (forward self params) params.amount 0))
                                    v).0
                                  ≡ ok (ok q))
                                after answered)
                              e gave h s))))))

  traded :
      (params : TradeParams) (s : Logged W)
      → Emits (Delivered self params s.1) s.0 (execute_icpswap_trade (logged self) params s)
  unfolding execute_icpswap_trade pool_args
  traded params s =
      from_result->>=-Emits {P = λ s1. Delivered self params s1.1}
        (validate_trade_params (self.net.now s.1) params)
        (λ _ _ s.
          get_pool_canister->>=-Emits self params.pair.base_token params.pair.quote_token s
            (λ pool_data found s1 after. traded_in params s.1 pool_data s1 found after))
        s

  -- A trade that succeeds has made the calls of its workflow and no others: in the pool that
  -- ICPSwap's factory answered for the pair, with the least output that the slippage tolerance
  -- leaves of the output that this pool quoted. It reports that it gave all of the amount, and the
  -- output that it reports, which fits a `u128`, is what the pool answered to the swap and what it
  -- withdrew.
  pub execute_icpswap_trade-Delivered :
      (params : TradeParams) (s s' : Logged W) (r : TradeResult)
      → execute_icpswap_trade (logged self) params s ≡ (ok r, s')
      → (asked : List Request) × (s'.0 ≡ s.0 ++ asked) × Delivered self params s.1 r asked
  execute_icpswap_trade-Delivered params s s' r e = Emits-ok (traded params s) e
