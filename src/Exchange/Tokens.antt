-- ===== src/Exchange/Tokens.antt =====
-- The token operations of src/exchange/src/icpswap.rs: transfers to a pool's subaccount, approvals
-- and balances.
use hunter_fi.Base.{
  ℕ, ◌%◌, some, String, Result, ok, err, Action, fail, pure, ltb, if◌then◌else◌, ◌>>=◌,
}
use hunter_fi.Base.Words.{u64_mod, u128_mod}
use hunter_fi.Common.Types.{Principal}
use hunter_fi.Common.Calls.{Rejection}
use hunter_fi.Exchange.Types.{
  TokenStandard, icrc1, icrc2, dip20, ext, icp, TokenInfo, Detail, plain, of_num, of_nums,
  of_rejection, of_detail, of_standard, ExchangeError, not_implemented, canister_call_error,
  unsupported_token, token_transfer_failed, token_approval_failed,
}
use hunter_fi.Exchange.Requests.{
  Request, Account, TransferError, bad_fee, bad_burn, insufficient_balance, created_in_future,
  duplicate, too_old, temporarily_unavailable, generic_error, IcpTransferError, icp_bad_fee,
  icp_insufficient_funds, tx_too_old, tx_duplicate, tx_created_in_future, ApproveError,
  approve_bad_fee, approve_insufficient_funds, allowance_changed, expired, approve_in_future,
  approve_duplicate, approve_too_old, approve_unavailable, approve_generic, icrc1_transfer,
  icp_transfer, dip20_approve, ext_approve, icrc2_approve, icrc1_balance_of, account_balance,
  Session,
}
use hunter_fi.Exchange.Utils.{principal_to_subaccount}

abbrev transfer_error_text : TransferError → Detail
transfer_error_text (bad_fee fee) = of_num "Bad fee, expected: {}" fee
transfer_error_text (bad_burn least) = of_num "Bad burn, minimum: {}" least
transfer_error_text (insufficient_balance balance) =
    of_num "Insufficient funds, balance: {}" balance
transfer_error_text too_old = plain "Transaction too old"
transfer_error_text (created_in_future time) =
    of_num "Transaction created in future, ledger time: {}" time
transfer_error_text (duplicate index) = of_num "Duplicate transaction of: {}" index
transfer_error_text temporarily_unavailable = plain "Ledger temporarily unavailable"
transfer_error_text (generic_error code message) = of_nums "Generic error {}: {}" code message

abbrev icp_transfer_error_text : IcpTransferError → Detail
icp_transfer_error_text (icp_bad_fee fee) = of_num "Bad fee, expected: {} e8s" fee
icp_transfer_error_text (icp_insufficient_funds balance) =
    of_num "Insufficient funds, balance: {} e8s" balance
icp_transfer_error_text (tx_too_old window) =
    of_num "Transaction too old, allowed window: {}ns" window
icp_transfer_error_text tx_created_in_future = plain "Transaction created in the future"
icp_transfer_error_text (tx_duplicate index) =
    of_num "Duplicate transaction of block index: {}" index

abbrev approve_error_text : ApproveError → Detail
approve_error_text (approve_bad_fee fee) = of_num "Bad fee, expected: {}" fee
approve_error_text (approve_insufficient_funds balance) =
    of_num "Insufficient funds, balance: {}" balance
approve_error_text (allowance_changed current) = of_num "Allowance changed, current: {}" current
approve_error_text (expired time) = of_num "Expired, ledger time: {}" time
approve_error_text approve_too_old = plain "Transaction too old"
approve_error_text (approve_in_future time) = of_num "Created in future, ledger time: {}" time
approve_error_text (approve_duplicate index) = of_num "Duplicate of: {}" index
approve_error_text approve_unavailable = plain "Temporarily unavailable"
approve_error_text (approve_generic code message) = of_nums "Generic error {}: {}" code message

abbrev transfer_reply : Result Rejection (Result TransferError ℕ) → Result ExchangeError (Unit {0})
transfer_reply (ok (ok _)) = ok tt
transfer_reply (ok (err e)) =
    err (token_transfer_failed (of_detail "ICRC transfer failed: {}" (transfer_error_text e)))
transfer_reply (err r) =
    err (token_transfer_failed (of_rejection "ICRC transfer failed: {:?} - {}" r.code r.message))

abbrev icp_transfer_reply :
    Result Rejection (Result IcpTransferError ℕ) → Result ExchangeError (Unit {0})
icp_transfer_reply (ok (ok _)) = ok tt
icp_transfer_reply (ok (err e)) =
    err (token_transfer_failed (of_detail "ICP transfer failed: {}" (icp_transfer_error_text e)))
icp_transfer_reply (err r) =
    err
      (token_transfer_failed (of_rejection "ICP transfer call failed: {:?} - {}" r.code r.message))

-- The replies to the `approve` of a DIP20 and of an EXT token.
abbrev text_reply :
    String → Result Rejection (Result String (Unit {0})) → Result ExchangeError (Unit {0})
text_reply template (ok (ok _)) = ok tt
text_reply template (ok (err e)) = err (token_approval_failed (plain e))
text_reply template (err r) = err (canister_call_error (of_rejection template r.code r.message))

abbrev icrc2_reply : Result Rejection (Result ApproveError ℕ) → Result ExchangeError (Unit {0})
icrc2_reply (ok (ok _)) = ok tt
icrc2_reply (ok (err e)) = err (token_approval_failed (approve_error_text e))
icrc2_reply (err r) =
    err (canister_call_error (of_rejection "ICRC2 approve failed: {:?} - {}" r.code r.message))

-- `u128::try_from(balance).unwrap_or(0)`
abbrev icrc_balance_reply : Result Rejection ℕ → Result ExchangeError ℕ
icrc_balance_reply (ok balance) = ok (if ltb balance u128_mod then balance else 0)
icrc_balance_reply (err r) =
    err (
      canister_call_error (of_rejection "Failed to query ICRC balance: {:?} - {}" r.code r.message))

abbrev icp_balance_reply : Result Rejection ℕ → Result ExchangeError ℕ
icp_balance_reply (ok balance) = ok balance
icp_balance_reply (err r) =
    err
      (canister_call_error (of_rejection "Failed to query ICP balance: {:?} - {}" r.code r.message))

module _ {W : Type 0} (self : Session W) where
  -- `AccountIdentifier::new` and the ICRC account name the same subaccount of the pool.
  abbrev pub pool_account : Principal → Account
  unfolding principal_to_subaccount
  pool_account pool = record {
    owner = pool;
    subaccount = some (principal_to_subaccount (self.io.as_slice pool));
  }

  unfoldable pub transfer_request : TokenInfo → Principal → ℕ → ℕ → Request
  unfolding principal_to_subaccount
  transfer_request token pool amount fee = icrc1_transfer token.canister_id (record {
    from_subaccount = some (principal_to_subaccount (self.io.as_slice self.caller));
    to = pool_account pool;
    amount = amount;
    fee = some fee;
  })

  unfoldable icrc_transfer : TokenInfo → Principal → ℕ → ℕ → Action W ExchangeError (Unit {0})
  unfolding transfer_request
  icrc_transfer token pool amount fee s =
      let (r, s') = self.net.ask (transfer_request token pool amount fee) s in
      (transfer_reply r, s')

  unfoldable pub ledger_request : Principal → ℕ → Request
  unfolding principal_to_subaccount
  ledger_request pool amount = icp_transfer (record {
    amount = amount % u64_mod;
    fee = 10000;
    from_subaccount = principal_to_subaccount (self.io.as_slice self.caller);
    to = pool_account pool;
  })

  unfoldable ledger_transfer : Principal → ℕ → Action W ExchangeError (Unit {0})
  unfolding ledger_request
  ledger_transfer pool amount s =
      let (r, s') = self.net.ask (ledger_request pool amount) s in (icp_transfer_reply r, s')

  -- The `match` of `transfer_token_to_pool_subaccount` on the token's standard.
  unfoldable pub transfer_by :
      TokenStandard → TokenInfo → Principal → ℕ → ℕ → Action W ExchangeError (Unit {0})
  unfolding icrc_transfer ledger_transfer
  transfer_by icrc1 token pool amount fee = icrc_transfer token pool amount fee
  transfer_by icrc2 token pool amount fee = icrc_transfer token pool amount fee
  transfer_by icp token pool amount fee = ledger_transfer pool amount
  transfer_by dip20 token pool amount fee = pure tt
  transfer_by ext token pool amount fee = pure tt

  unfoldable pub transfer_token_to_pool_subaccount :
      TokenInfo → Principal → ℕ → ℕ → Action W ExchangeError (Unit {0})
  unfolding transfer_by
  transfer_token_to_pool_subaccount token = transfer_by token.standard token

  unfoldable approve_dip20 : TokenInfo → Principal → ℕ → Action W ExchangeError (Unit {0})
  approve_dip20 token spender amount s =
      let (r, s') = self.net.ask (dip20_approve token.canister_id spender amount) s in
      (text_reply "DIP20 approve failed: {:?} - {}" r, s')

  unfoldable approve_ext : TokenInfo → Principal → ℕ → Action W ExchangeError (Unit {0})
  approve_ext token spender amount s =
      let (r, s') = self.net.ask (ext_approve token.canister_id spender amount) s in
      (text_reply "EXT approve failed: {:?} - {}" r, s')

  unfoldable approve_icrc2 : TokenInfo → Principal → ℕ → Action W ExchangeError (Unit {0})
  approve_icrc2 token spender amount s =
      let (r, s') = self.net.ask (icrc2_approve token.canister_id spender amount) s in
      (icrc2_reply r, s')

  -- The `match` of `approve_token` on the token's standard.
  unfoldable pub approve_by :
      TokenStandard → TokenInfo → Principal → ℕ → Action W ExchangeError (Unit {0})
  unfolding approve_dip20 approve_ext approve_icrc2
  approve_by dip20 token spender amount = approve_dip20 token spender amount
  approve_by ext token spender amount = approve_ext token spender amount
  approve_by icrc2 token spender amount = approve_icrc2 token spender amount
  approve_by icp token spender amount = approve_icrc2 token spender amount
  approve_by icrc1 token spender amount = fail (
      unsupported_token (of_standard "Token standard {:?} does not support approve" token.standard))

  unfoldable pub approve_token : TokenInfo → Principal → ℕ → Action W ExchangeError (Unit {0})
  unfolding approve_by
  approve_token token = approve_by token.standard token

  unfoldable icrc_balance : TokenInfo → Principal → Action W ExchangeError ℕ
  icrc_balance token owner s =
      let (r, s') = self.net.ask (icrc1_balance_of token.canister_id owner) s in
      (icrc_balance_reply r, s')

  unfoldable icp_balance : Principal → Action W ExchangeError ℕ
  icp_balance owner s =
      let (r, s') = self.net.ask (account_balance owner) s in (icp_balance_reply r, s')

  unfoldable pub get_token_balance : TokenInfo → Principal → Action W ExchangeError ℕ
  unfolding icrc_balance icp_balance
  get_token_balance token owner = balance_by token.standard
    where
      balance_by : TokenStandard → Action W ExchangeError ℕ
      balance_by icrc1 = icrc_balance token owner
      balance_by icrc2 = icrc_balance token owner
      balance_by icp = icp_balance owner
      balance_by dip20 = fail not_implemented
      balance_by ext = fail not_implemented

  unfoldable pub check_token_balance : TokenInfo → Action W ExchangeError Detail
  unfolding get_token_balance
  check_token_balance token = do
    balance ← get_token_balance token self.id
    pure (of_num "Current balance: {}" balance)
