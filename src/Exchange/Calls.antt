-- ===== src/Exchange/Calls.antt =====
-- The private calls of src/exchange/src/icpswap.rs: the pool of a pair, and a pool's own methods.
pub mod Scripts
pub mod Effects
pub mod Pairs
use hunter_fi.Base.{
  ok-injective, ap, arith, ◌<◌, ◌≡◌, ℕ, Bool, Option, some, String, Result, ok, err, Action,
  from_result, if◌then◌else◌, ltb, ◌>>=◌, ◌>>◌, pure,
}
use hunter_fi.Base.Words.{u64_mod, u128_mod}
use hunter_fi.Common.Types.{Principal}
use hunter_fi.Common.Calls.{Rejection}
use hunter_fi.Exchange.Types.{
  TokenStandard, icrc1, icrc2, dip20, ext, icp, TokenInfo, TradingPair, TradeDirection, buy, sell,
  TradeParams, plain, of_num, of_text, of_rejection, ExchangeError, internal_error,
  canister_call_error, insufficient_funds, unsupported_token, unknown_error,
}
use hunter_fi.Exchange.Requests.{
  canonical, IcpSwapToken, IcpSwapGetPoolArgs, IcpSwapPoolData, IcpSwapError, common_error,
  internal_failure, unsupported, no_funds, IcpSwapSwapArgs, IcpSwapAmountArgs, get_pool, quote,
  swap, deposit, deposit_from, withdraw, get_user_unused_balance, Session,
}

unfoldable pub map_icpswap_error : IcpSwapError → ExchangeError
map_icpswap_error common_error = unknown_error (plain "ICPSwap common error")
map_icpswap_error (internal_failure msg) = internal_error (of_text "ICPSwap internal error: {}" msg)
map_icpswap_error (unsupported token) =
    unsupported_token (of_text "ICPSwap unsupported token: {}" token)
map_icpswap_error no_funds = insufficient_funds

unfoldable pub standard_text : TokenStandard → String
standard_text icrc1 = "ICRC1"
standard_text icrc2 = "ICRC2"
standard_text dip20 = "DIP20"
standard_text ext = "EXT"
standard_text icp = "ICP"

unfoldable pub token_to_icpswap_token : TokenInfo → IcpSwapToken
unfolding standard_text
token_to_icpswap_token token = record {
  address = canonical token.canister_id;
  standard = standard_text token.standard;
}

-- `u64::try_from` and `u128::try_from` of a `Nat`
unfoldable pub to_u64 : String → ℕ → Result ExchangeError ℕ
to_u64 template n = if ltb n u64_mod then ok n else err (internal_error (of_num template n))

unfoldable pub to_u128 : String → ℕ → Result ExchangeError ℕ
to_u128 template n = if ltb n u128_mod then ok n else err (internal_error (of_num template n))

pub to_u128-ok :
    (template : String) (n : ℕ) {m : ℕ} → to_u128 template n ≡ ok m → (m ≡ n) × (n < u128_mod)
unfolding to_u128
to_u128-ok template n e = ground arith

-- The `match` on the reply of a call of ICPSwap.
unfoldable pub reply_of :
    {A : Type 0} → String → Result Rejection (Result IcpSwapError A) → Result ExchangeError A
unfolding map_icpswap_error
reply_of template (ok (ok a)) = ok a
reply_of template (ok (err e)) = err (map_icpswap_error e)
reply_of template (err r) = err (canister_call_error (of_rejection template r.code r.message))

pub reply_of-ok :
    {A : Type 0} {a : A} (template : String) (r : Result Rejection (Result IcpSwapError A))
    → reply_of template r ≡ ok a
    → r ≡ ok (ok a)
unfolding reply_of
reply_of-ok template (ok (ok a)) e = ap (λ x. ok (ok x)) (ok-injective e)
reply_of-ok template (ok (err e)) wrong = cc
reply_of-ok template (err r) wrong = cc

-- The token that a trade gives, and the one that it gets.
abbrev input_of : TradeDirection → TradingPair → TokenInfo
input_of buy pair = pair.quote_token
input_of sell pair = pair.base_token

abbrev output_of : TradeDirection → TradingPair → TokenInfo
output_of buy pair = pair.base_token
output_of sell pair = pair.quote_token

abbrev pub input_token : TradeParams → TokenInfo
input_token params = input_of params.direction params.pair

abbrev pub output_token : TradeParams → TokenInfo
output_token params = output_of params.direction params.pair

module _ {W : Type 0} (self : Session W) where
  unfoldable pub is_zero_for_one : TokenInfo → TokenInfo → Bool
  is_zero_for_one base quoted = self.io.text_before base.canister_id quoted.canister_id

  -- The arguments of `getPool`: the tokens in the order of their texts.
  unfoldable pub pool_args : TokenInfo → TokenInfo → IcpSwapGetPoolArgs
  unfolding is_zero_for_one token_to_icpswap_token
  pool_args base quoted =
      if is_zero_for_one base quoted
      then record {
        fee = 3000;
        token0 = token_to_icpswap_token base;
        token1 = token_to_icpswap_token quoted;
      }
      else record {
        fee = 3000;
        token0 = token_to_icpswap_token quoted;
        token1 = token_to_icpswap_token base;
      }

  unfoldable pub get_pool_canister : TokenInfo → TokenInfo → Action W ExchangeError IcpSwapPoolData
  unfolding pool_args reply_of
  get_pool_canister base quoted s =
      let (r, s') =
        self.net.ask (get_pool self.connector.factory_canister_id (pool_args base quoted)) s in
      (reply_of "Failed to call getPool: {:?} - {}" r, s')

  unfoldable pub call_quote : Principal → IcpSwapSwapArgs → Action W ExchangeError ℕ
  unfolding reply_of
  call_quote pool args s =
      let (r, s') = self.net.ask (quote pool args) s in
      (reply_of "Failed to call quote: {:?} - {}" r, s')

  unfoldable pub call_swap : Principal → IcpSwapSwapArgs → Action W ExchangeError ℕ
  unfolding reply_of
  call_swap pool args s =
      let (r, s') = self.net.ask (swap pool args) s in
      (reply_of "Failed to call swap: {:?} - {}" r, s')

  unfoldable pub call_deposit : Principal → IcpSwapAmountArgs → Action W ExchangeError ℕ
  unfolding reply_of
  call_deposit pool args s =
      let (r, s') = self.net.ask (deposit pool args) s in
      (reply_of "Failed to call deposit: {:?} - {}" r, s')

  unfoldable pub call_deposit_from : Principal → IcpSwapAmountArgs → Action W ExchangeError ℕ
  unfolding reply_of
  call_deposit_from pool args s =
      let (r, s') = self.net.ask (deposit_from pool args) s in
      (reply_of "Failed to call depositFrom: {:?} - {}" r, s')

  unfoldable pub call_withdraw : Principal → IcpSwapAmountArgs → Action W ExchangeError ℕ
  unfolding reply_of
  call_withdraw pool args s =
      let (r, s') = self.net.ask (withdraw pool args) s in
      (reply_of "Failed to call withdraw: {:?} - {}" r, s')

  unfoldable pub call_get_user_unused_balance :
      Principal → Principal → Action W ExchangeError (ℕ × ℕ)
  unfolding reply_of to_u128
  call_get_user_unused_balance pool user s =
      let (r, s') = self.net.ask (get_user_unused_balance pool user) s in
      (do
        balance ← from_result (reply_of "Failed to call getUserUnusedBalance: {:?} - {}" r)
        balance0 ←
            from_result (to_u128 "Failed to convert balance0 Nat {:?} to u128: {}" balance.balance0)
        balance1 ←
            from_result (to_u128 "Failed to convert balance1 Nat {:?} to u128: {}" balance.balance1)
        pure (balance0, balance1))
        s'
