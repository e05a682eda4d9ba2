-- ===== src/Exchange/Pools/Labels.antt =====
-- Token standards as texts, and how `get_pool_info` labels the tokens of a pool.
use hunter_fi.Base.{◌≡◌, refl, ok, arith, if◌then◌else◌, ◌<◌}
use hunter_fi.Base.Words.{u64_mod}
use hunter_fi.Exchange.Types.{TokenStandard, icrc1, icrc2, dip20, ext, icp, TokenInfo, PoolInfo}
use hunter_fi.Exchange.Requests.{Session, IcpSwapPoolData, get_pool}
use hunter_fi.Exchange.Calls.{
  pool_args, get_pool_canister, token_to_icpswap_token, standard_text, is_zero_for_one, to_u64,
  reply_of,
}
use hunter_fi.Exchange.Pools.{string_to_token_standard, get_pool_info, from_text, labelled}

-- The text that is sent for a token standard is read as that standard.
pub string_to_token_standard-standard_text :
    (standard : TokenStandard) → string_to_token_standard (standard_text standard) ≡ ok standard
unfolding string_to_token_standard standard_text
string_to_token_standard-standard_text icrc1 = refl
string_to_token_standard-standard_text icrc2 = refl
string_to_token_standard-standard_text dip20 = refl
string_to_token_standard-standard_text ext = refl
string_to_token_standard-standard_text icp = refl

module _ {W : Type 0} (self : Session W) where
  -- The pool's information when the factory answers `getPool` with a pool of the two tokens that it
  -- was asked for, in their order: its first token is the one whose text comes first, but under the
  -- symbol and the decimals of the base token.
  pub get_pool_info-labels :
      (base quoted : TokenInfo) (s s' : W) (pool_data : IcpSwapPoolData)
      → self.net.ask (get_pool self.connector.factory_canister_id (pool_args self base quoted)) s
        ≡ (ok (ok pool_data), s')
      → pool_data.token0 ≡ (pool_args self base quoted).token0
      → pool_data.token1 ≡ (pool_args self base quoted).token1
      → pool_data.fee < u64_mod
      → (info : PoolInfo) × (get_pool_info self base quoted s ≡ (ok info, s'))
        × (info.token0.canister_id
            ≡ (if is_zero_for_one self base quoted then base else quoted).canister_id)
        × (info.token0.symbol ≡ base.symbol)
        × (info.token0.decimals ≡ base.decimals)
  unfolding get_pool_info get_pool_canister reply_of from_text to_u64 labelled pool_args
      token_to_icpswap_token
  get_pool_info-labels base quoted s s' pool_data e e0 e1 f = (
    record {
      pool_id = pool_data.canister_id;
      token0 =
          labelled (if is_zero_for_one self base quoted then base else quoted).canister_id
            (if is_zero_for_one self base quoted then base else quoted).standard base;
      token1 =
          labelled (if is_zero_for_one self base quoted then quoted else base).canister_id
            (if is_zero_for_one self base quoted then quoted else base).standard quoted;
      fee = pool_data.fee;
      total_liquidity = 0;
      token0_reserves = 0;
      token1_reserves = 0;
    },
    ground (
      arith,
      string_to_token_standard-standard_text base.standard,
      string_to_token_standard-standard_text quoted.standard,
    ),
    refl,
    refl,
    refl,
  )
