-- ===== src/Exchange/Trades/Order.antt =====
-- The order of the calls that a trade makes.
use hunter_fi.Base.{ℕ, ◌*◌, ◌%◌, List, [], ◌∷◌, ◌++◌, ◌≡◌, refl, ok}
use mathlib.Core.Path.{subst}
use hunter_fi.Base.Words.{u128_mod}
use hunter_fi.Common.Types.{Principal}
use hunter_fi.Exchange.Types.{TokenStandard, icrc1, TradeParams, PoolInfo}
use hunter_fi.Exchange.Requests.{Session}
use hunter_fi.Exchange.Trace.{
  Method, getting_pool, quoting, swapping, depositing, depositing_from, withdrawing, transferring,
  approving, Logged, logged, Follows, >>=-Follows, quiet-Follows, from_result->>=-Follows,
}
use hunter_fi.Exchange.Calls.{input_token, to_u64, to_u128}
use hunter_fi.Exchange.Calls.Scripts.{
  get_pool_canister-Follows, call_quote-Follows, call_swap-Follows, call_deposit-Follows,
  call_deposit_from-Follows, call_withdraw-Follows, transfer, transfer-Follows,
  approve_token-Follows, approval,
}
use hunter_fi.Exchange.Utils.{validate_trade_params}
use hunter_fi.Exchange.Trades.{
  get_quote_internal, workflow1, workflow2, workflow, fund_and_swap, execute_icpswap_trade,
  token_fee, minimum_output, trade_result, swap_args, deposit_args, withdraw_args, quote_result,
  execute_call_trade, execute_call_trade_no_slippage,
}

-- The calls between the quote and the withdrawal, by the standard of the input token.
abbrev pub funding : TokenStandard → List Method
funding icrc1 = transferring ∷ depositing ∷ swapping ∷ []
funding _ = approving ∷ depositing_from ∷ swapping ∷ []

module _ {W : Type 0} (self : Session W) where
  pub get_quote_internal-Follows :
      (pool : Principal) (params : TradeParams) (s : Logged W)
      → Follows s.0 (quoting ∷ []) (get_quote_internal (logged self) pool params s)
  unfolding get_quote_internal
  get_quote_internal-Follows pool params =
      >>=-Follows (call_quote-Follows self pool (swap_args (logged self) params 0)) (λ n.
        from_result->>=-Follows (to_u128 "Failed to convert quote BigUint {:?} to u128: {}" n)
          (λ q. quiet-Follows (ok (quote_result (logged self) params q))))

  workflow1-Follows :
      (params : TradeParams) (pool : Principal) (least : ℕ) (s : Logged W)
      → Follows s.0
          (transfer (input_token params).standard ++ depositing ∷ swapping ∷ [])
          (workflow1 (logged self) params pool least s)
  unfolding workflow1
  workflow1-Follows params pool least =
      >>=-Follows
        (transfer-Follows self (input_token params) pool params.amount
          (token_fee (input_token params).standard))
        (λ _.
          >>=-Follows (call_deposit-Follows self pool (deposit_args params))
            (λ _. call_swap-Follows self pool (swap_args (logged self) params least)))

  workflow2-Follows :
      (params : TradeParams) (pool : Principal) (least : ℕ) (s : Logged W)
      → Follows s.0
          (approval (input_token params).standard ++ depositing_from ∷ swapping ∷ [])
          (workflow2 (logged self) params pool least s)
  unfolding workflow2
  workflow2-Follows params pool least =
      >>=-Follows
        (approve_token-Follows self (input_token params) pool (params.amount * 100 % u128_mod))
        (λ _.
          >>=-Follows (call_deposit_from-Follows self pool (deposit_args params))
            (λ _. call_swap-Follows self pool (swap_args (logged self) params least)))

  workflow-Follows :
      (standard : TokenStandard) (params : TradeParams) (pool : Principal) (least : ℕ)
      → (input_token params).standard ≡ standard
      → (s : Logged W)
      → Follows s.0 (funding standard) (workflow (logged self) standard params pool least s)
  unfolding workflow
  workflow-Follows icrc1 params pool least e s =
      subst
        (λ st.
          Follows s.0 (transfer st ++ depositing ∷ swapping ∷ [])
            (workflow1 (logged self) params pool least s))
        e (workflow1-Follows params pool least s)
  workflow-Follows standard params pool least e s =
      subst
        (λ st.
          Follows s.0 (approval st ++ depositing_from ∷ swapping ∷ [])
            (workflow2 (logged self) params pool least s))
        e (workflow2-Follows params pool least s)

  fund_and_swap-Follows :
      (params : TradeParams) (pool : Principal) (least : ℕ) (s : Logged W)
      → Follows s.0
          (funding (input_token params).standard)
          (fund_and_swap (logged self) params pool least s)
  unfolding fund_and_swap
  fund_and_swap-Follows params pool least =
      workflow-Follows (input_token params).standard params pool least refl

  -- From any state on, a trade looks up the pool, asks for a quote, transfers and deposits an
  -- ICRC-1 token or approves a token of another standard and has the pool take it, swaps, and
  -- withdraws, in this order. It leaves out calls only at the end, and only when it fails.
  pub execute_icpswap_trade-Follows :
      (params : TradeParams) (s : Logged W)
      → Follows s.0
          (getting_pool ∷ quoting ∷ funding (input_token params).standard ++ withdrawing ∷ [])
          (execute_icpswap_trade (logged self) params s)
  unfolding execute_icpswap_trade
  execute_icpswap_trade-Follows params =
      >>=-Follows (λ s. quiet-Follows (ok (self.net.now s.1)) s)
        (λ now. from_result->>=-Follows (validate_trade_params now params) (λ _.
          >>=-Follows
            (get_pool_canister-Follows self params.pair.base_token params.pair.quote_token)
            (λ pool_data.
              >>=-Follows (get_quote_internal-Follows pool_data.canister_id params) (λ quoted.
                from_result->>=-Follows
                  (to_u64 "Failed to convert pool fee Nat {:?} to u64: {}" pool_data.fee)
                  (λ pool_fee.
                    >>=-Follows
                      (fund_and_swap-Follows params pool_data.canister_id
                        (minimum_output (logged self) params quoted))
                      (λ swapped.
                        >>=-Follows
                          (call_withdraw-Follows self pool_data.canister_id
                            (withdraw_args params swapped))
                          (λ _.
                            from_result->>=-Follows
                              (to_u128 "Failed to convert final swap result Nat {:?} to u128: {}"
                                swapped)
                              (λ out s.
                                quiet-Follows
                                  (ok (
                                    trade_result (logged self) params pool_data.canister_id pool_fee
                                      out s))
                                  s))))))))

  pub execute_call_trade-Follows :
      (params : TradeParams) (s : Logged W)
      → Follows s.0
          (getting_pool ∷ quoting ∷ swapping ∷ [])
          (execute_call_trade (logged self) params s)
  unfolding execute_call_trade
  execute_call_trade-Follows params =
      >>=-Follows (get_pool_canister-Follows self params.pair.base_token params.pair.quote_token)
        (λ pool_data.
          >>=-Follows (get_quote_internal-Follows pool_data.canister_id params) (λ quoted.
            >>=-Follows
              (call_swap-Follows self pool_data.canister_id
                (swap_args (logged self) params (minimum_output (logged self) params quoted)))
              (λ swapped.
                from_result->>=-Follows
                  (to_u128 "Failed to convert final swap result Nat {:?} to u128: {}" swapped)
                  (λ out.
                    from_result->>=-Follows
                      (to_u64 "Failed to convert pool fee Nat {:?} to u64: {}" pool_data.fee)
                      (λ pool_fee s.
                        quiet-Follows
                          (ok (
                            trade_result (logged self) params pool_data.canister_id pool_fee out s))
                          s)))))

  pub execute_call_trade_no_slippage-Follows :
      (params : TradeParams) (pool_data : PoolInfo) (s : Logged W)
      → Follows s.0
          (swapping ∷ [])
          (execute_call_trade_no_slippage (logged self) params pool_data s)
  unfolding execute_call_trade_no_slippage
  execute_call_trade_no_slippage-Follows params pool_data =
      >>=-Follows (call_swap-Follows self pool_data.pool_id (swap_args (logged self) params 0))
        (λ swapped.
          from_result->>=-Follows
            (to_u128 "Failed to convert final swap result Nat {:?} to u128: {}" swapped)
            (λ out s.
              quiet-Follows
                (ok (trade_result (logged self) params pool_data.pool_id pool_data.fee out s)) s))
