-- ===== src/Factory/Types.antt =====
-- The types of src/factory/src/state.rs, payment.rs and deployment_manager.rs.
-- A formatted string is the template of its `format!` with the arguments, so two messages are
-- equal when the program prints them from one place with one set of values.
pub use hunter_fi.Common.Calls.{
  Call, RejectionCode, no_error, sys_fatal, sys_transient, destination_invalid, canister_reject,
  canister_error, unknown,
}
use native.Mathlib.Decide.{ℕ_discrete}
use hunter_fi.Base.{ℕ, Option, List, String, Eq}
use hunter_fi.Base.Dict.{Dict}
use hunter_fi.Common.Types.{Principal, StrategyType, DeploymentStatus, StrategyMetadata}
use hunter_fi.Common.Config.{ConfigError}

-- `format!("{}-{}-{}", timestamp, caller, counter)`: no decimal numeral holds a dash, so the text
-- determines the three values.
pub record DeploymentId : Type 0 where
  pub timestamp : ℕ
  pub caller : Principal
  pub counter : ℕ

-- `format!("{}-{}-{}", timestamp, caller, random_hex)`, the last being the hex of the canister's
-- own id.
pub record TransactionId : Type 0 where
  pub timestamp : ℕ
  pub caller : Principal
  pub canister : Principal

unfoldable pub DeploymentId-discrete : Discrete DeploymentId
unfolding ℕ_discrete
DeploymentId-discrete = hlevel ℕ_discrete

unfoldable pub TransactionId-discrete : Discrete TransactionId
unfolding ℕ_discrete
TransactionId-discrete = hlevel ℕ_discrete

instance unfoldable pub deployment_id_eq : Eq DeploymentId
unfolding DeploymentId-discrete
deployment_id_eq = record { dec = DeploymentId-discrete }

instance unfoldable pub transaction_id_eq : Eq TransactionId
unfolding TransactionId-discrete
transaction_id_eq = record { dec = TransactionId-discrete }

pub record UserAccount : Type 0 where
  pub owner : Principal
  pub balance : ℕ  -- u64, in e8s
  pub last_deposit : ℕ  -- u64
  pub total_deposited : ℕ  -- u64
  pub total_consumed : ℕ  -- u64

pub data TransactionType : Type 0 where
  deposit deployment_fee refund admin_adjustment withdrawal transfer : TransactionType

-- The texts that the factory formats: a template and its arguments.
mutual
  pub data Message : Type 0 where
    plain : String → Message
    of_num : String → ℕ → Message
    of_num_message : String → ℕ → Message → Message
    of_nums : String → ℕ → ℕ → Message
    of_id : String → DeploymentId → Message
    of_type : String → StrategyType → Message
    of_principal : String → Principal → Message → Message
    of_message : String → Message → Message
    of_config : String → ConfigError → Message
    of_rejection : String → RejectionCode → String → Message
    of_payment : String → PaymentError → Message

  pub data PaymentError : Type 0 where
    invalid_amount : Message → PaymentError
    insufficient_balance : Message → PaymentError
    transfer_failed : Message → PaymentError
    user_not_found : Message → PaymentError
    system_error : Message → PaymentError
    invalid_principal : Message → PaymentError
    operation_failed : Message → PaymentError
    transaction_error : Message → PaymentError

pub record TransactionRecord : Type 0 where
  pub transaction_id : TransactionId
  pub user : Principal
  pub amount : ℕ  -- u64
  pub transaction_type : TransactionType
  pub timestamp : ℕ  -- u64
  pub description : Message

abbrev pub Bytes : Type 0
Bytes = List ℕ

pub record DeploymentRecord : Type 0 where
  pub deployment_id : DeploymentId
  pub strategy_type : StrategyType
  pub owner : Principal
  pub fee_amount : ℕ  -- u64
  pub request_time : ℕ  -- u64
  pub status : DeploymentStatus
  pub canister_id : Option Principal
  pub config_data : Bytes
  pub error_message : Option Message
  pub last_updated : ℕ  -- u64

pub record DeploymentRequest : Type 0 where
  pub deployment_id : DeploymentId
  pub fee_amount : ℕ
  pub strategy_type : StrategyType

-- The thread-local state of the factory. `MEMORY_MANAGER` only says where the stable maps lie.
pub record Factory : Type 0 where
  pub strategies : Dict Principal StrategyMetadata
  pub deployment_records : Dict DeploymentId DeploymentRecord
  pub user_accounts : Dict Principal UserAccount
  pub transactions : Dict TransactionId TransactionRecord
  pub owner_strategies : Dict Principal (List Principal)
  pub deployment_fee : ℕ  -- u64
  pub admins : List Principal
  pub deployment_id_counter : ℕ  -- u64
  pub transaction_cache : List TransactionRecord
  pub max_cache_size : ℕ  -- usize
