-- ===== src/Common/Calls.antt =====
-- What a message of a canister reads from the system, and how a call of another canister fails.
use hunter_fi.Base.{ℕ, String}
use hunter_fi.Common.Types.{Principal}

-- `ic_cdk::api::call::RejectionCode`
pub data RejectionCode : Type 0 where
  no_error sys_fatal sys_transient destination_invalid canister_reject : RejectionCode
  canister_error unknown : RejectionCode

-- A rejected inter-canister call.
pub record Rejection : Type 0 where
  pub code : RejectionCode
  pub message : String

-- What one message of the canister reads from the system: `caller()`, `time()` (constant within a
-- message), `ic_cdk::id()` and `canister_balance()`.
pub record Call : Type 0 where
  pub caller : Principal
  pub time : ℕ  -- u64, in nanoseconds
  pub id : Principal
  pub cycles : ℕ  -- u64
