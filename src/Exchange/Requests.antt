-- ===== src/Exchange/Requests.antt =====
-- What the connector of src/exchange/src/icpswap.rs asks of other canisters, and what they answer.
-- The canisters themselves are a parameter, `Network`.
use hunter_fi.Base.{ℕ, Bool, Option, List, String, Result}
use hunter_fi.Common.Types.{Principal, Float}
use hunter_fi.Common.Calls.{Rejection}
use hunter_fi.Exchange.Types.{ExchangeConfig}

-- A text that should be a principal: `Principal::from_text` reads exactly the texts that
-- `to_string` writes.
pub data Address : Type 0 where
  canonical : Principal → Address
  malformed : String → Address

pub record IcpSwapToken : Type 0 where
  pub address : Address
  pub standard : String

pub record IcpSwapGetPoolArgs : Type 0 where
  pub fee : ℕ
  pub token0 : IcpSwapToken
  pub token1 : IcpSwapToken

-- `tickSpacing` is an `Int` that nothing reads, so it is left out.
pub record IcpSwapPoolData : Type 0 where
  pub fee : ℕ
  pub key : String
  pub token0 : IcpSwapToken
  pub token1 : IcpSwapToken
  pub canister_id : Principal

pub data IcpSwapError : Type 0 where
  common_error : IcpSwapError
  internal_failure : String → IcpSwapError
  unsupported : String → IcpSwapError
  no_funds : IcpSwapError

-- `ICPSwapQuoteArgs` and `ICPSwapSwapArgs`. The amounts are sent as decimal texts, and a number has
-- one such text.
pub record IcpSwapSwapArgs : Type 0 where
  pub zero_for_one : Bool
  pub amount_in : ℕ
  pub amount_out_minimum : ℕ

-- `ICPSwapDepositArgs`, `ICPSwapDepositFromArgs` and `ICPSwapWithdrawArgs`
pub record IcpSwapAmountArgs : Type 0 where
  pub fee : ℕ
  pub token : Principal
  pub amount : ℕ

pub record IcpSwapBalance : Type 0 where
  pub balance0 : ℕ
  pub balance1 : ℕ

pub record Account : Type 0 where
  pub owner : Principal
  pub subaccount : Option (List ℕ)

pub record IcrcTransferArgs : Type 0 where
  pub from_subaccount : Option (List ℕ)
  pub to : Account
  pub amount : ℕ
  pub fee : Option ℕ

-- `AccountIdentifier::new` is a hash of the owner and the subaccount.
pub record IcpTransferArgs : Type 0 where
  pub amount : ℕ  -- u64, in e8s
  pub fee : ℕ  -- u64, in e8s
  pub from_subaccount : List ℕ
  pub to : Account

-- The errors of `icrc1_transfer`
pub data TransferError : Type 0 where
  bad_fee bad_burn insufficient_balance created_in_future duplicate : ℕ → TransferError
  too_old temporarily_unavailable : TransferError
  generic_error : ℕ → String → TransferError

-- The errors of the ICP ledger's `transfer`
pub data IcpTransferError : Type 0 where
  icp_bad_fee icp_insufficient_funds tx_too_old tx_duplicate : ℕ → IcpTransferError
  tx_created_in_future : IcpTransferError

-- The errors of `icrc2_approve`
pub data ApproveError : Type 0 where
  approve_bad_fee approve_insufficient_funds allowance_changed expired : ℕ → ApproveError
  approve_in_future approve_duplicate : ℕ → ApproveError
  approve_too_old approve_unavailable : ApproveError
  approve_generic : ℕ → String → ApproveError

-- A call of another canister: the canister, the method and its arguments.
pub data Request : Type 0 where
  get_pool : Principal → IcpSwapGetPoolArgs → Request
  quote swap : Principal → IcpSwapSwapArgs → Request
  deposit deposit_from withdraw : Principal → IcpSwapAmountArgs → Request
  get_user_unused_balance : Principal → Principal → Request
  icrc1_transfer : Principal → IcrcTransferArgs → Request
  icp_transfer : IcpTransferArgs → Request
  dip20_approve ext_approve icrc2_approve : Principal → Principal → ℕ → Request
  icrc1_balance_of : Principal → Principal → Request
  account_balance : Principal → Request

abbrev pub Reply : Request → Type 0
Reply (get_pool _ _) = Result IcpSwapError IcpSwapPoolData
Reply (quote _ _) = Result IcpSwapError ℕ
Reply (swap _ _) = Result IcpSwapError ℕ
Reply (deposit _ _) = Result IcpSwapError ℕ
Reply (deposit_from _ _) = Result IcpSwapError ℕ
Reply (withdraw _ _) = Result IcpSwapError ℕ
Reply (get_user_unused_balance _ _) = Result IcpSwapError IcpSwapBalance
Reply (icrc1_transfer _ _) = Result TransferError ℕ
Reply (icp_transfer _) = Result IcpTransferError ℕ
Reply (dip20_approve _ _ _) = Result String (Unit {0})
Reply (ext_approve _ _ _) = Result String (Unit {0})
Reply (icrc2_approve _ _ _) = Result ApproveError ℕ
Reply (icrc1_balance_of _ _) = ℕ
Reply (account_balance _) = ℕ

-- The world outside a connector, with states in `W`: what a call answers and leads to, and the time
-- in nanoseconds, which passes while a call is awaited.
pub record Network (W : Type 0) : Type 0 where
  pub ask : (q : Request) → W → Result Rejection (Reply q) × W
  pub now : W → ℕ

-- What the connector uses of its libraries: the bytes of a principal, the order of the principals'
-- texts, and the arithmetic of `f64` (`as f64`, `as u128`, `-`, `*`, `/`, and the constant 0.003).
pub record Platform : Type 0 where
  pub as_slice : Principal → List ℕ
  pub text_before : Principal → Principal → Bool
  pub to_float : ℕ → Float
  pub to_u128 : Float → ℕ
  pub minus : Float → Float → Float
  pub times : Float → Float → Float
  pub over : Float → Float → Float
  pub quote_fee_rate : Float

-- `ICPSwapConnector`
pub record IcpSwapConnector : Type 0 where
  pub config : ExchangeConfig
  pub factory_canister_id : Principal

unfoldable pub new : ExchangeConfig → IcpSwapConnector
new config = record { config = config; factory_canister_id = config.canister_id }

-- A connector within a message: what `self`, `ic_cdk::caller()`, `ic_cdk::id()`, the calls and the
-- libraries give.
pub record Session (W : Type 0) : Type 0 where
  pub connector : IcpSwapConnector
  pub caller : Principal
  pub id : Principal
  pub io : Platform
  pub net : Network W
