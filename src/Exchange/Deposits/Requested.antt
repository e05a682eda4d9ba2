-- ===== src/Exchange/Deposits/Requested.antt =====
-- What deposits and withdrawals ask for.
use hunter_fi.Base.{sym, ap, ◌∙◌, ℕ, ◌*◌, ◌%◌, ◌<◌, ◌≡◌, refl, List, [], ◌∷◌, ◌++◌, ok, err, arith}
use hunter_fi.Base.Words.{u128_mod}
use hunter_fi.Common.Types.{Principal}
use hunter_fi.Exchange.Types.{
  TokenStandard, icrc1, icrc2, dip20, ext, icp, TokenInfo, TradeParams, internal_error, plain,
}
use hunter_fi.Exchange.Requests.{
  IcpSwapPoolData, Session, Request, get_pool, deposit_from, withdraw,
}
use hunter_fi.Exchange.Trace.{Logged, logged}
use hunter_fi.Exchange.Emits.{quiet-Emits, Emits, Emits-ok, >>=-Emits}
use hunter_fi.Exchange.Calls.{pool_args, to_u128, to_u128-ok}
use hunter_fi.Exchange.Calls.Effects.{
  get_pool_canister->>=-Emits, call_deposit_from->>=-Emits, call_withdraw->>=-Emits,
}
use hunter_fi.Exchange.Trades.Funding.{approve_requests, approve_token-Emits}
use hunter_fi.Exchange.Deposits.{
  transfer_fee, IcpSwapAmountArgs, amount_args, deposit_approved, deposit_by, deposit_token,
  withdraw_token,
}

-- The arguments of a deposit or a withdrawal of `amount`.
abbrev whole_amount : TokenInfo → ℕ → IcpSwapAmountArgs
whole_amount token amount = record {
  fee = transfer_fee token.standard;
  token = token.canister_id;
  amount = amount;
}

module _ {W : Type 0} (self : Session W) where
  -- The requests of a deposit in the pool `pool`: an approval of a hundred times the amount, which
  -- wraps at 2 ^ 128, and the deposit of the amount.
  abbrev pub deposit_requests : TradeParams → TokenInfo → ℕ → Principal → List Request
  deposit_requests params token amount pool =
      get_pool self.connector.factory_canister_id
          (pool_args self params.pair.base_token params.pair.quote_token)
        ∷ approve_requests token.standard token.canister_id pool (amount * 100 % u128_mod)
      ++ deposit_from pool (whole_amount token amount) ∷ []

  abbrev pub withdraw_requests : TradeParams → TokenInfo → ℕ → Principal → List Request
  withdraw_requests params token amount pool =
      get_pool self.connector.factory_canister_id
        (pool_args self params.pair.base_token params.pair.quote_token)
      ∷ withdraw pool (whole_amount token amount)
      ∷ []

module _ {W : Type 0} (self : Session W) where
  -- The pool that ICPSwap's factory answers, in the state `w`, for the pair of a trade.
  abbrev pub IsPool : TradeParams → W → IcpSwapPoolData → Type 0
  IsPool params w pool_data =
      (self.net.ask
        (get_pool self.connector.factory_canister_id
          (pool_args self params.pair.base_token params.pair.quote_token))
        w).0
      ≡ ok (ok pool_data)

  abbrev pub IsDeposited : TradeParams → TokenInfo → ℕ → W → ℕ → List Request → Type 0
  IsDeposited params token amount w n asked =
      (n < u128_mod)
      × ((pool_data : IcpSwapPoolData) × (IsPool params w pool_data)
          × (asked ≡ deposit_requests self params token amount pool_data.canister_id)
          × (v : W) × ((self.net.ask
                (deposit_from pool_data.canister_id (whole_amount token amount)) v).0
              ≡ ok (ok n)))

  abbrev pub IsWithdrawn : TradeParams → TokenInfo → ℕ → W → ℕ → List Request → Type 0
  IsWithdrawn params token amount w n asked =
      (n < u128_mod)
      × ((pool_data : IcpSwapPoolData) × (IsPool params w pool_data)
          × (asked ≡ withdraw_requests self params token amount pool_data.canister_id)
          × (v : W) × ((self.net.ask (withdraw pool_data.canister_id (whole_amount token amount))
                v).0
              ≡ ok (ok n)))

module _ {W : Type 0} (self : Session W) where
  deposit_approved-IsDeposited :
      (params : TradeParams) (token : TokenInfo) (amount : ℕ) (s : Logged W)
      → Emits
          (IsDeposited self params token amount s.1)
          s.0
          (deposit_approved (logged self) params token amount s)
  unfolding deposit_approved pool_args amount_args
  deposit_approved-IsDeposited params token amount s =
      get_pool_canister->>=-Emits self params.pair.base_token params.pair.quote_token s
        (λ pool_data found s1 _.
          >>=-Emits
            (approve_requests token.standard token.canister_id pool_data.canister_id
              (amount * 100 % u128_mod))
            (approve_token-Emits self token pool_data.canister_id (amount * 100 % u128_mod))
            (λ _ _.
              call_deposit_from->>=-Emits self pool_data.canister_id (amount_args token amount)
                (λ n v gave.
                  quiet-Emits (to_u128 "Failed to convert withdraw result Nat {:?} to u128: {}" n)
                    (λ m e. (
                      omega (arith, to_u128-ok _ n e),
                      (
                        pool_data,
                        found,
                        refl,
                        v,
                        gave ∙ ap (λ x. ok (ok x)) (sym (to_u128-ok _ n e).0),
                      ),
                    ))))
            s1)

  deposit_by-IsDeposited :
      (standard : TokenStandard) (params : TradeParams) (token : TokenInfo) (amount : ℕ)
      (s : Logged W)
      → Emits
          (IsDeposited self params token amount s.1)
          s.0
          (deposit_by (logged self) standard params token amount s)
  unfolding deposit_by
  deposit_by-IsDeposited icrc1 params token amount s = record { requests = λ n wrong. cc }
  deposit_by-IsDeposited icrc2 params token amount s =
      deposit_approved-IsDeposited params token amount s
  deposit_by-IsDeposited dip20 params token amount s =
      deposit_approved-IsDeposited params token amount s
  deposit_by-IsDeposited ext params token amount s =
      deposit_approved-IsDeposited params token amount s
  deposit_by-IsDeposited icp params token amount s =
      deposit_approved-IsDeposited params token amount s

  -- A deposit that succeeds has asked ICPSwap's factory for the pair's pool, approved a hundred
  -- times the amount, modulo 2 ^ 128, for the pool that the factory answered, and had that pool take
  -- the amount, in this order and without any other call; its result, which fits
  -- a `u128`, is what the pool answered to the deposit.
  pub deposit_token-requests :
      (params : TradeParams) (token : TokenInfo) (amount n : ℕ) (s s' : Logged W)
      → deposit_token (logged self) params token amount s ≡ (ok n, s')
      → (asked : List Request) × (s'.0 ≡ s.0 ++ asked)
        × IsDeposited self params token amount s.1 n asked
  unfolding deposit_token
  deposit_token-requests params token amount n s s' e =
      Emits-ok (deposit_by-IsDeposited token.standard params token amount s) e

  withdraw_token-IsWithdrawn :
      (params : TradeParams) (token : TokenInfo) (amount : ℕ) (s : Logged W)
      → Emits
          (IsWithdrawn self params token amount s.1)
          s.0
          (withdraw_token (logged self) params token amount s)
  unfolding withdraw_token pool_args amount_args
  withdraw_token-IsWithdrawn params token amount s =
      get_pool_canister->>=-Emits self params.pair.base_token params.pair.quote_token s
        (λ pool_data found s1 _.
          call_withdraw->>=-Emits self pool_data.canister_id (amount_args token amount)
            (λ n v gave.
              quiet-Emits (to_u128 "Failed to convert withdraw result Nat {:?} to u128: {}" n)
                (λ m e. (
                  omega (arith, to_u128-ok _ n e),
                  (
                    pool_data,
                    found,
                    refl,
                    v,
                    gave ∙ ap (λ x. ok (ok x)) (sym (to_u128-ok _ n e).0),
                  ),
                )))
            s1)

  -- A withdrawal that succeeds has asked ICPSwap's factory for the pair's pool and had the pool that
  -- the factory answered pay the amount, and made no other call; its result, which fits a `u128`, is
  -- what the pool answered to the withdrawal.
  pub withdraw_token-requests :
      (params : TradeParams) (token : TokenInfo) (amount n : ℕ) (s s' : Logged W)
      → withdraw_token (logged self) params token amount s ≡ (ok n, s')
      → (asked : List Request) × (s'.0 ≡ s.0 ++ asked)
        × IsWithdrawn self params token amount s.1 n asked
  withdraw_token-requests params token amount n s s' e =
      Emits-ok (withdraw_token-IsWithdrawn params token amount s) e

  -- An ICRC-1 token cannot be deposited: the call fails without calling anybody.
  pub deposit_token-icrc1 :
      (params : TradeParams) (token : TokenInfo) (amount : ℕ) (s : Logged W)
      → token.standard ≡ icrc1
      → deposit_token (logged self) params token amount s
        ≡ (err (internal_error (plain "Unsupported type: ICRC1")), s)
  unfolding deposit_token deposit_by
  deposit_token-icrc1 params token amount s h = rw h
