-- ===== src/Exchange/Pools.antt =====
-- `LiquidityPool` and `is_pair_supported` of src/exchange/src/icpswap.rs. The liquidity operations
-- of the connector are `Err(NotImplemented)` and nothing else.
pub mod Labels
use hunter_fi.Base.{
  ℕ, Bool, true, false, String, Result, ok, err, Action, from_result, pure, ◌>>=◌, ◌>>◌,
  if◌then◌else◌,
}
use hunter_fi.Common.Types.{Principal}
use hunter_fi.Exchange.Types.{
  TokenStandard, icrc1, icrc2, dip20, ext, icp, TokenInfo, PoolInfo, of_text, ExchangeError,
  internal_error, pool_not_found, unsupported_token,
}
use hunter_fi.Exchange.Requests.{Address, canonical, malformed, IcpSwapPoolData, Session}
use hunter_fi.Exchange.Calls.{to_u64, get_pool_canister}
use text.Mathlib.Text

unfoldable pub string_to_token_standard : String → Result ExchangeError TokenStandard
string_to_token_standard standard =
    if Text.◌==◌ standard "ICRC1"
    then ok icrc1
    else if Text.◌==◌ standard "ICRC2"
    then ok icrc2
    else if Text.◌==◌ standard "DIP20"
    then ok dip20
    else if Text.◌==◌ standard "EXT"
    then ok ext
    else if Text.◌==◌ standard "ICP"
    then ok icp
    else err (unsupported_token (of_text "Unknown standard string: {}" standard))

-- `Principal::from_text`
unfoldable pub from_text : String → Address → Result ExchangeError Principal
from_text template (canonical p) = ok p
from_text template (malformed text) = err (internal_error (of_text template text))

-- A pool's token under the symbol and the decimals that the caller gave.
unfoldable pub labelled : Principal → TokenStandard → TokenInfo → TokenInfo
labelled canister standard given = record {
  canister_id = canister;
  symbol = given.symbol;
  decimals = given.decimals;
  standard = standard;
}

module _ {W : Type 0} (self : Session W) where
  unfoldable pub get_pool_info : TokenInfo → TokenInfo → Action W ExchangeError PoolInfo
  unfolding from_text string_to_token_standard to_u64 labelled
  get_pool_info base quoted = do
    pool_data ← get_pool_canister self base quoted
    token0 ← from_result (from_text "Failed to parse token0 principal: {}" pool_data.token0.address)
    token1 ← from_result (from_text "Failed to parse token1 principal: {}" pool_data.token1.address)
    standard0 ← from_result (string_to_token_standard pool_data.token0.standard)
    standard1 ← from_result (string_to_token_standard pool_data.token1.standard)
    fee ← from_result (to_u64 "Failed to convert pool fee Nat {:?} to u64: {}" pool_data.fee)
    pure (record {
      pool_id = pool_data.canister_id;
      token0 = labelled token0 standard0 base;
      token1 = labelled token1 standard1 quoted;
      fee = fee;
      total_liquidity = 0;
      token0_reserves = 0;
      token1_reserves = 0;
    })

  -- The `match` on the pool of a pair.
  unfoldable pub is_pair_supported : TokenInfo → TokenInfo → Action W ExchangeError Bool
  is_pair_supported base quoted s =
      let (r, s') = get_pool_canister self base quoted s in (supported r, s')
    where
      supported : Result ExchangeError IcpSwapPoolData → Result ExchangeError Bool
      supported (ok _) = ok true
      supported (err pool_not_found) = ok false
      supported (err e) = err e
