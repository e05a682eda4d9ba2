-- ===== src/Exchange/Calls/Pairs.antt =====
-- The order of a pair's tokens: the pool of a pair, and the direction of a trade in it.
use hunter_fi.Base.{not, ◌≡◌, arith}
use hunter_fi.Exchange.Types.{TokenInfo}
use hunter_fi.Exchange.Requests.{Session}
use hunter_fi.Exchange.Calls.{is_zero_for_one, pool_args, get_pool_canister, token_to_icpswap_token}

module _ {W : Type 0} (self : Session W) where
  pool_args_swap :
      (a b : TokenInfo)
      → self.io.text_before a.canister_id b.canister_id
        ≡ not (self.io.text_before b.canister_id a.canister_id)
      → pool_args self a b ≡ pool_args self b a
  unfolding pool_args is_zero_for_one token_to_icpswap_token
  pool_args_swap a b h = ground arith

  -- A pair and the pair turned round have the same pool, where the texts of the two tokens are
  -- ordered one way.
  pub get_pool_canister-symmetric :
      (a b : TokenInfo) (s : W)
      → self.io.text_before a.canister_id b.canister_id
        ≡ not (self.io.text_before b.canister_id a.canister_id)
      → get_pool_canister self a b s ≡ get_pool_canister self b a s
  unfolding get_pool_canister
  get_pool_canister-symmetric a b s h = cc (pool_args_swap a b h)
