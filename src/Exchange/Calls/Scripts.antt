-- ===== src/Exchange/Calls/Scripts.antt =====
-- What each call of a pool, and each step of a trade, asks for.
use hunter_fi.Base.{ℕ, List, [], ◌∷◌}
use hunter_fi.Common.Types.{Principal}
use hunter_fi.Exchange.Types.{TokenStandard, icrc1, dip20, ext, icrc1, TokenInfo}
use hunter_fi.Exchange.Requests.{IcpSwapSwapArgs, IcpSwapAmountArgs, Session}
use hunter_fi.Exchange.Trace.{
  Method, getting_pool, quoting, swapping, depositing, depositing_from, withdrawing, transferring,
  approving, Logged, logged, Follows, quiet-Follows, asks-Follows,
}
use hunter_fi.Exchange.Calls.{
  get_pool_canister, call_quote, call_swap, call_deposit, call_deposit_from, call_withdraw,
}
use hunter_fi.Exchange.Tokens.{
  transfer_by, approve_by, transfer_token_to_pool_subaccount, approve_token,
}

-- The calls that a transfer to a pool asks for, and those of an approval.
abbrev pub transfer : TokenStandard → List Method
transfer dip20 = []
transfer ext = []
transfer _ = transferring ∷ []

abbrev pub approval : TokenStandard → List Method
approval icrc1 = []
approval _ = approving ∷ []

module _ {W : Type 0} (self : Session W) where
  pub get_pool_canister-Follows :
      (base quoted : TokenInfo) (s : Logged W)
      → Follows s.0 (getting_pool ∷ []) (get_pool_canister (logged self) base quoted s)
  unfolding get_pool_canister
  get_pool_canister-Follows base quoted s = asks-Follows _ s.0 _ _

  pub call_quote-Follows :
      (pool : Principal) (args : IcpSwapSwapArgs) (s : Logged W)
      → Follows s.0 (quoting ∷ []) (call_quote (logged self) pool args s)
  unfolding call_quote
  call_quote-Follows pool args s = asks-Follows _ s.0 _ _

  pub call_swap-Follows :
      (pool : Principal) (args : IcpSwapSwapArgs) (s : Logged W)
      → Follows s.0 (swapping ∷ []) (call_swap (logged self) pool args s)
  unfolding call_swap
  call_swap-Follows pool args s = asks-Follows _ s.0 _ _

  pub call_deposit-Follows :
      (pool : Principal) (args : IcpSwapAmountArgs) (s : Logged W)
      → Follows s.0 (depositing ∷ []) (call_deposit (logged self) pool args s)
  unfolding call_deposit
  call_deposit-Follows pool args s = asks-Follows _ s.0 _ _

  pub call_deposit_from-Follows :
      (pool : Principal) (args : IcpSwapAmountArgs) (s : Logged W)
      → Follows s.0 (depositing_from ∷ []) (call_deposit_from (logged self) pool args s)
  unfolding call_deposit_from
  call_deposit_from-Follows pool args s = asks-Follows _ s.0 _ _

  pub call_withdraw-Follows :
      (pool : Principal) (args : IcpSwapAmountArgs) (s : Logged W)
      → Follows s.0 (withdrawing ∷ []) (call_withdraw (logged self) pool args s)
  unfolding call_withdraw
  call_withdraw-Follows pool args s = asks-Follows _ s.0 _ _

  transfer_by-Follows :
      (standard : TokenStandard) (token : TokenInfo) (pool : Principal) (amount fee : ℕ)
      (s : Logged W)
      → Follows s.0 (transfer standard) (transfer_by (logged self) standard token pool amount fee s)
  unfolding transfer_by
  transfer_by-Follows dip20 token pool amount fee s = quiet-Follows _ s
  transfer_by-Follows ext token pool amount fee s = quiet-Follows _ s
  transfer_by-Follows _ token pool amount fee s = asks-Follows _ s.0 _ _

  pub transfer-Follows :
      (token : TokenInfo) (pool : Principal) (amount fee : ℕ) (s : Logged W)
      → Follows s.0
          (transfer token.standard)
          (transfer_token_to_pool_subaccount (logged self) token pool amount fee s)
  unfolding transfer_token_to_pool_subaccount
  transfer-Follows token = transfer_by-Follows token.standard token

  approve_by-Follows :
      (standard : TokenStandard) (token : TokenInfo) (pool : Principal) (amount : ℕ) (s : Logged W)
      → Follows s.0 (approval standard) (approve_by (logged self) standard token pool amount s)
  unfolding approve_by
  approve_by-Follows icrc1 token pool amount s = quiet-Follows _ s
  approve_by-Follows _ token pool amount s = asks-Follows _ s.0 _ _

  pub approve_token-Follows :
      (token : TokenInfo) (pool : Principal) (amount : ℕ) (s : Logged W)
      → Follows s.0 (approval token.standard) (approve_token (logged self) token pool amount s)
  unfolding approve_token
  approve_token-Follows token = approve_by-Follows token.standard token
