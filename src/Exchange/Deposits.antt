-- ===== src/Exchange/Deposits.antt =====
-- `TokenOperations` of src/exchange/src/icpswap.rs: deposits, withdrawals and unused balances.
pub mod Requested
use hunter_fi.Base.{
  ℕ, ◌*◌, ◌%◌, String, Result, ok, err, Action, from_result, fail, pure, ◌>>=◌, ◌>>◌,
}
use hunter_fi.Base.Words.{u128_mod}
use hunter_fi.Common.Types.{Principal}
use hunter_fi.Exchange.Types.{
  TokenStandard, icrc1, icrc2, dip20, ext, icp, TokenInfo, TradeParams, plain, ExchangeError,
  not_implemented, internal_error,
}
use hunter_fi.Exchange.Requests.{IcpSwapAmountArgs, Address, withdraw, Session}
use hunter_fi.Exchange.Calls.{
  to_u128, get_pool_canister, call_deposit_from, call_withdraw, call_get_user_unused_balance,
}
use hunter_fi.Exchange.Tokens.{approve_token}

-- The fee of a transfer, as `deposit_token` and `withdraw_token` have it.
unfoldable pub transfer_fee : TokenStandard → ℕ
transfer_fee icrc1 = 10000
transfer_fee icp = 10000
transfer_fee icrc2 = 1000000
transfer_fee dip20 = 0
transfer_fee ext = 0

-- The arguments of `depositFrom` and of `withdraw`.
unfoldable pub amount_args : TokenInfo → ℕ → IcpSwapAmountArgs
unfolding transfer_fee
amount_args token amount = record {
  fee = transfer_fee token.standard;
  token = token.canister_id;
  amount = amount;
}

module _ {W : Type 0} (self : Session W) where
  unfoldable pub deposit_approved : TradeParams → TokenInfo → ℕ → Action W ExchangeError ℕ
  unfolding amount_args to_u128
  deposit_approved params token amount = do
    pool_data ← get_pool_canister self params.pair.base_token params.pair.quote_token
    approve_token self token pool_data.canister_id (amount * 100 % u128_mod)
    deposited ← call_deposit_from self pool_data.canister_id (amount_args token amount)
    from_result (to_u128 "Failed to convert withdraw result Nat {:?} to u128: {}" deposited)

  -- The `match` of `deposit_token` on the token's standard.
  unfoldable pub deposit_by : TokenStandard → TradeParams → TokenInfo → ℕ → Action W ExchangeError ℕ
  unfolding deposit_approved
  deposit_by icrc1 = λ _ _ _. fail (internal_error (plain "Unsupported type: ICRC1"))
  deposit_by icrc2 = deposit_approved
  deposit_by icp = deposit_approved
  deposit_by ext = deposit_approved
  deposit_by dip20 = deposit_approved

  unfoldable pub deposit_token : TradeParams → TokenInfo → ℕ → Action W ExchangeError ℕ
  unfolding deposit_by
  deposit_token params token = deposit_by token.standard params token

  unfoldable pub withdraw_token : TradeParams → TokenInfo → ℕ → Action W ExchangeError ℕ
  unfolding amount_args to_u128
  withdraw_token params token amount = do
    pool_data ← get_pool_canister self params.pair.base_token params.pair.quote_token
    withdrawn ← call_withdraw self pool_data.canister_id (amount_args token amount)
    from_result (to_u128 "Failed to convert withdraw result Nat {:?} to u128: {}" withdrawn)

  -- The balances of the pool's two tokens, and the address of its first token.
  unfoldable pub get_unused_balance :
      TradeParams → Principal → Action W ExchangeError ((ℕ × ℕ) × Address)
  get_unused_balance params user = do
    pool_data ← get_pool_canister self params.pair.base_token params.pair.quote_token
    balances ← call_get_user_unused_balance self pool_data.canister_id user
    pure (balances, pool_data.token0.address)

-- `get_exchange_balance`
unfoldable pub get_exchange_balance :
    {W : Type 0} → TokenInfo → Principal → Action W ExchangeError (ℕ × ℕ)
get_exchange_balance _ _ = fail not_implemented
