-- ===== src/Exchange/Trades/Funding.antt =====
-- What funds a trade: the requests of each workflow, up to the swap.
use hunter_fi.Base.{◌≡◌, ok, ok, ℕ, ◌*◌, ◌%◌, List, [], ◌∷◌, ◌++◌, ◌≡◌, refl}
use mathlib.Core.Path.{subst}
use hunter_fi.Base.Words.{u128_mod}
use hunter_fi.Common.Types.{Principal}
use hunter_fi.Exchange.Types.{TokenStandard, icrc1, icrc2, dip20, ext, icp, TokenInfo, TradeParams}
use hunter_fi.Exchange.Requests.{
  IcpSwapAmountArgs, Session, Request, swap, deposit, deposit_from, dip20_approve, ext_approve,
  icrc2_approve,
}
use hunter_fi.Exchange.Trace.{Logged, logged}
use hunter_fi.Exchange.Emits.{Emits, done-Emits, last-Emits, >>=-Emits}
use hunter_fi.Exchange.Calls.{input_token}
use hunter_fi.Exchange.Calls.Effects.{
  call_deposit->>=-Emits, call_deposit_from->>=-Emits, call_swap-Emits,
}
use hunter_fi.Exchange.Tokens.{
  transfer_request, ledger_request, transfer_by, transfer_token_to_pool_subaccount, approve_by,
  approve_token,
}
use hunter_fi.Exchange.Trades.{
  workflow1, workflow2, workflow, fund_and_swap, token_fee, deposit_args, swap_args,
}

-- What `approve_token` asks of a token's ledger.
abbrev pub approve_requests : TokenStandard → Principal → Principal → ℕ → List Request
approve_requests icrc1 token pool amount = []
approve_requests icrc2 token pool amount = icrc2_approve token pool amount ∷ []
approve_requests dip20 token pool amount = dip20_approve token pool amount ∷ []
approve_requests ext token pool amount = ext_approve token pool amount ∷ []
approve_requests icp token pool amount = icrc2_approve token pool amount ∷ []

-- The arguments of a deposit or a withdrawal of `amount`, under the fee of the token's standard.
abbrev pub whole_amount : TokenInfo → ℕ → IcpSwapAmountArgs
whole_amount token amount = record {
  fee = token_fee token.standard;
  token = token.canister_id;
  amount = amount;
}

module _ {W : Type 0} (self : Session W) where
  -- What `transfer_token_to_pool_subaccount` asks of a token's ledger.
  abbrev pub transfer_requests : TokenStandard → TokenInfo → Principal → ℕ → ℕ → List Request
  transfer_requests icrc1 token pool amount fee = transfer_request self token pool amount fee ∷ []
  transfer_requests icrc2 token pool amount fee = transfer_request self token pool amount fee ∷ []
  transfer_requests icp token pool amount fee = ledger_request self pool amount ∷ []
  transfer_requests dip20 token pool amount fee = []
  transfer_requests ext token pool amount fee = []

  -- What a workflow asks before the swap.
  abbrev pub funding_requests : TokenStandard → TradeParams → Principal → List Request
  funding_requests icrc1 params pool =
      transfer_request self (input_token params) pool params.amount (token_fee icrc1)
      ∷ deposit pool (whole_amount (input_token params) params.amount)
      ∷ []
  funding_requests standard params pool =
      approve_requests standard (input_token params).canister_id pool
        (params.amount * 100 % u128_mod)
      ++ deposit_from pool (whole_amount (input_token params) params.amount) ∷ []

  -- What the pool answered to the swap of a trade, in some state.
  abbrev pub IsSwapped : TradeParams → Principal → ℕ → ℕ → Type 0
  IsSwapped params pool least swapped =
      (v : W) × ((self.net.ask (swap pool (swap_args self params least)) v).0 ≡ ok (ok swapped))

module _ {W : Type 0} (self : Session W) where
  transfer_by-Emits :
      (standard : TokenStandard) (token : TokenInfo) (pool : Principal) (amount fee : ℕ)
      (s : Logged W)
      → Emits
          (λ _ asked. (asked ≡ transfer_requests self standard token pool amount fee) × Unit {0})
          s.0
          (transfer_by (logged self) standard token pool amount fee s)
  unfolding transfer_by transfer_request ledger_request
  transfer_by-Emits dip20 token pool amount fee s = done-Emits tt s (refl, tt)
  transfer_by-Emits ext token pool amount fee s = done-Emits tt s (refl, tt)
  transfer_by-Emits _ token pool amount fee s = last-Emits _ _ s.0 _ (λ a e. (refl, tt))

  approve_by-Emits :
      (standard : TokenStandard) (token : TokenInfo) (pool : Principal) (amount : ℕ) (s : Logged W)
      → Emits
          (λ _ asked. (asked ≡ approve_requests standard token.canister_id pool amount) × Unit {0})
          s.0
          (approve_by (logged self) standard token pool amount s)
  unfolding approve_by
  approve_by-Emits icrc1 token pool amount s = record { requests = λ a wrong. cc }
  approve_by-Emits _ token pool amount s = last-Emits _ _ s.0 _ (λ a e. (refl, tt))

  pub approve_token-Emits :
      (token : TokenInfo) (pool : Principal) (amount : ℕ) (s : Logged W)
      → Emits
          (λ _ asked.
            (asked ≡ approve_requests token.standard token.canister_id pool amount) × Unit {0})
          s.0
          (approve_token (logged self) token pool amount s)
  unfolding approve_token
  approve_token-Emits token = approve_by-Emits token.standard token

  workflow1-Emits :
      (params : TradeParams) (pool : Principal) (least : ℕ) (s : Logged W)
      → Emits
          (λ swapped asked.
            (asked
              ≡ transfer_requests self
                  (input_token params).standard
                  (input_token params)
                  pool
                  params.amount
                  (token_fee (input_token params).standard)
                ++ deposit pool (deposit_args params)
                  ∷ swap pool (swap_args (logged self) params least)
                  ∷ [])
            × IsSwapped self params pool least swapped)
          s.0
          (workflow1 (logged self) params pool least s)
  unfolding workflow1 transfer_token_to_pool_subaccount
  workflow1-Emits params pool least =
      >>=-Emits
        (transfer_requests self (input_token params).standard (input_token params) pool
          params.amount (token_fee (input_token params).standard))
        (transfer_by-Emits (input_token params).standard (input_token params) pool params.amount
          (token_fee (input_token params).standard))
        (λ _ _. call_deposit->>=-Emits self pool (deposit_args params) (λ _ s.
          call_swap-Emits self pool (swap_args (logged self) params least) s
            (λ a e. (refl, (s.1, e)))))

  workflow2-Emits :
      (params : TradeParams) (pool : Principal) (least : ℕ) (s : Logged W)
      → Emits
          (λ swapped asked.
            (asked
              ≡ approve_requests
                  (input_token params).standard
                  (input_token params).canister_id
                  pool
                  (params.amount * 100 % u128_mod)
                ++ deposit_from pool (deposit_args params)
                  ∷ swap pool (swap_args (logged self) params least)
                  ∷ [])
            × IsSwapped self params pool least swapped)
          s.0
          (workflow2 (logged self) params pool least s)
  unfolding workflow2 approve_token
  workflow2-Emits params pool least =
      >>=-Emits
        (approve_requests (input_token params).standard (input_token params).canister_id pool
          (params.amount * 100 % u128_mod))
        (approve_by-Emits (input_token params).standard (input_token params) pool
          (params.amount * 100 % u128_mod))
        (λ _ _. call_deposit_from->>=-Emits self pool (deposit_args params) (λ _ _ _ s.
          call_swap-Emits self pool (swap_args (logged self) params least) s
            (λ a e. (refl, (s.1, e)))))

  by_approval :
      (standard : TokenStandard) (params : TradeParams) (pool : Principal) (least : ℕ)
      → (input_token params).standard ≡ standard
      → (s : Logged W)
      → Emits
          (λ swapped asked.
            (asked
              ≡ approve_requests standard
                  (input_token params).canister_id
                  pool
                  (params.amount * 100 % u128_mod)
                ++ deposit_from pool (deposit_args params)
                  ∷ swap pool (swap_args (logged self) params least)
                  ∷ [])
            × IsSwapped self params pool least swapped)
          s.0
          (workflow2 (logged self) params pool least s)
  by_approval standard params pool least e s =
      subst
        (λ st.
          Emits
            (λ swapped asked.
              (asked
                ≡ approve_requests st (input_token params).canister_id pool
                    (params.amount * 100 % u128_mod)
                  ++ deposit_from pool (deposit_args params)
                    ∷ swap pool (swap_args (logged self) params least)
                    ∷ [])
              × IsSwapped self params pool least swapped)
            s.0 (workflow2 (logged self) params pool least s))
        e (workflow2-Emits params pool least s)

  workflow-Emits :
      (standard : TokenStandard) (params : TradeParams) (pool : Principal) (least : ℕ)
      → (input_token params).standard ≡ standard
      → (s : Logged W)
      → Emits
          (λ swapped asked.
            (asked
              ≡ funding_requests self standard params pool
                ++ swap pool (swap_args (logged self) params least) ∷ [])
            × IsSwapped self params pool least swapped)
          s.0
          (workflow (logged self) standard params pool least s)
  unfolding workflow deposit_args
  workflow-Emits icrc1 params pool least e s =
      subst
        (λ st.
          Emits
            (λ swapped asked.
              (asked
                ≡ transfer_requests self st (input_token params) pool params.amount (token_fee st)
                  ++ deposit pool (deposit_args params)
                    ∷ swap pool (swap_args (logged self) params least)
                    ∷ [])
              × IsSwapped self params pool least swapped)
            s.0 (workflow1 (logged self) params pool least s))
        e (workflow1-Emits params pool least s)
  workflow-Emits icrc2 params pool least e s = by_approval icrc2 params pool least e s
  workflow-Emits dip20 params pool least e s = by_approval dip20 params pool least e s
  workflow-Emits ext params pool least e s = by_approval ext params pool least e s
  workflow-Emits icp params pool least e s = by_approval icp params pool least e s

  pub fund_and_swap-Emits :
      (params : TradeParams) (pool : Principal) (least : ℕ) (s : Logged W)
      → Emits
          (λ swapped asked.
            (asked
              ≡ funding_requests self (input_token params).standard params pool
                ++ swap pool (swap_args (logged self) params least) ∷ [])
            × IsSwapped self params pool least swapped)
          s.0
          (fund_and_swap (logged self) params pool least s)
  unfolding fund_and_swap
  fund_and_swap-Emits params pool least =
      workflow-Emits (input_token params).standard params pool least refl
