-- ===== src/Factory/State.antt =====
-- The operations of src/factory/src/state.rs on records, accounts and transactions.
pub mod Accounts
pub mod Totals
pub mod Records
pub mod Cache
use hunter_fi.Base.{
  ℕ, suc, ◌+◌, ◌-◌, ◌%◌, Bool, true, false, Option, none, some, List, [], ◌∷◌, ◌++◌, String, ltb,
  leb, if◌then◌else◌, ◌==◌, contains, nat_eq, length, keep, Result, ok, err, Action, pure, fail,
  gets, modify, fail_if, ◌>>=◌, ◌>>◌, with_err, not,
}
use hunter_fi.Base.Words.{sat_add64, u64_mod}
use hunter_fi.Base.Dict.{Dict, lookup, insert, values}
use hunter_fi.Common.Types.{Principal, StrategyMetadata, DeploymentStatus, deployment_status_eq}
use hunter_fi.Factory.Types.{
  DeploymentId, deployment_id_eq, TransactionId, transaction_id_eq, UserAccount, TransactionType,
  Message, plain, of_num, of_nums, of_id, TransactionRecord, DeploymentRecord, Call, Factory,
}

-- An operation of the factory that may end in an error string.
abbrev pub FactoryAction : Type 0 → Type 0
FactoryAction A = Action Factory Message A

abbrev pub retention_period_ns : ℕ
retention_period_ns = 7776000000000000

abbrev pub max_completed_records : ℕ
max_completed_records = 10000

abbrev pub default_deployment_fee : ℕ
default_deployment_fee = 100000000

unfoldable pub generate_deployment_id : Call → Factory → DeploymentId × Factory
generate_deployment_id c s = (
  record { timestamp = c.time; caller = c.caller; counter = s.deployment_id_counter },
  record s { deployment_id_counter = (s.deployment_id_counter + 1) % u64_mod },
)

unfoldable pub store_deployment_record : DeploymentRecord → Factory → Factory
store_deployment_record r s = record s {
  deployment_records = insert r.deployment_id r s.deployment_records;
}

unfoldable pub get_deployment_record : DeploymentId → Factory → Option DeploymentRecord
get_deployment_record id s = lookup id s.deployment_records

-- `if let Some(x) = o { field = Some(x) }`
abbrev pub or_old : {A : Type 0} → Option A → Option A → Option A
or_old (some x) old = some x
or_old none old = old

unfoldable pub update_deployment_status :
    Call
    → DeploymentId
    → DeploymentStatus
    → Option Principal
    → Option Message
    → FactoryAction (Unit {0})
unfolding get_deployment_record store_deployment_record
update_deployment_status c id status canister_id error_message s =
    elim (get_deployment_record id s) [
      | none ↦ (err (of_id "Deployment record not found: {}" id), s)
      | some r ↦ (
        ok tt,
        store_deployment_record
            (record r {
              status = status;
              last_updated = c.time;
              canister_id = or_old canister_id r.canister_id;
              error_message = or_old error_message r.error_message;
            })
            s,
      )
    ]

abbrev pub or_empty : {A : Type 0} → Option (List A) → List A
or_empty none = []
or_empty (some xs) = xs

unfoldable pub store_strategy_metadata : StrategyMetadata → Factory → Factory
store_strategy_metadata m s = record s {
  strategies = insert m.canister_id m s.strategies;
  owner_strategies =
      insert m.owner (or_empty (lookup m.owner s.owner_strategies) ++ m.canister_id ∷ [])
        s.owner_strategies;
}

unfoldable pub get_strategy_metadata : Principal → Factory → Option StrategyMetadata
get_strategy_metadata canister_id s = lookup canister_id s.strategies

unfoldable pub is_admin : Call → Factory → Bool
is_admin c s = contains s.admins c.caller

unfoldable pub require_admin : Call → FactoryAction (Unit {0})
unfolding is_admin
require_admin c s =
    if not (is_admin c s)
    then (err (plain "Caller is not authorized to perform this action"), s)
    else (ok tt, s)

unfoldable pub set_fee : Call → ℕ → FactoryAction (Unit {0})
unfolding require_admin
set_fee c fee = do require_admin c; modify (λ s. record s { deployment_fee = fee })

unfoldable pub get_all_deployment_records : Factory → List DeploymentRecord
get_all_deployment_records s = values s.deployment_records

unfoldable pub get_deployment_records_by_owner : Principal → Factory → List DeploymentRecord
unfolding get_all_deployment_records
get_deployment_records_by_owner owner s =
    keep (λ r. r.owner == owner) (get_all_deployment_records s)

unfoldable pub get_deployment_records_by_status : DeploymentStatus → Factory → List DeploymentRecord
unfolding get_all_deployment_records
get_deployment_records_by_status status s =
    keep (λ r. r.status == status) (get_all_deployment_records s)

unfoldable pub store_user_account : UserAccount → Factory → Factory
store_user_account a s = record s { user_accounts = insert a.owner a s.user_accounts }

abbrev pub new_account : Principal → UserAccount
new_account user = record {
  owner = user;
  balance = 0;
  last_deposit = 0;
  total_deposited = 0;
  total_consumed = 0;
}

abbrev pub or_new : Principal → Option UserAccount → UserAccount
or_new user none = new_account user
or_new user (some a) = a

unfoldable pub get_user_account : Principal → Factory → UserAccount
get_user_account user s = or_new user (lookup user s.user_accounts)

unfoldable pub generate_transaction_id : Call → TransactionId
generate_transaction_id c = record { timestamp = c.time; caller = c.caller; canister = c.id }

-- `Vec::remove(0)`
abbrev pub tail : {A : Type 0} → List A → List A
tail [] = []
tail (_ ∷ xs) = xs

-- The cache after `push`, and the removal of its oldest entry if it has grown too long.
unfoldable pub push_cache : ℕ → TransactionRecord → List TransactionRecord → List TransactionRecord
push_cache max_size r cache =
    let grown = cache ++ r ∷ [] in if ltb max_size (length grown) then tail grown else grown

unfoldable pub store_transaction_record : TransactionRecord → Factory → Factory
unfolding push_cache
store_transaction_record r s = record s {
  transactions = insert r.transaction_id r s.transactions;
  transaction_cache = push_cache s.max_cache_size r s.transaction_cache;
}

unfoldable pub get_user_transaction_records : Principal → Factory → List TransactionRecord
get_user_transaction_records user s = keep (λ r. r.user == user) s.transaction_cache

unfoldable pub record_transaction :
    Call → Principal → ℕ → TransactionType → Message → Factory → TransactionId × Factory
unfolding generate_transaction_id store_transaction_record
record_transaction c user amount transaction_type description s =
    let transaction_id = generate_transaction_id c in
    (
      transaction_id,
      store_transaction_record
          (record {
            transaction_id = transaction_id;
            user = user;
            amount = amount;
            transaction_type = transaction_type;
            timestamp = c.time;
            description = description;
          })
          s,
    )

-- The state after `record_transaction(...).await`, whose result the callers drop.
abbrev pub recorded :
    {E : Type 0} → Call → Principal → ℕ → TransactionType → Message → Action Factory E (Unit {0})
recorded c user amount t d s = (ok tt, (record_transaction c user amount t d s).1)

-- The account after a deposit, and after a deduction that its balance covers.
unfoldable pub credit : Call → ℕ → UserAccount → UserAccount
credit c amount a = record a {
  balance = sat_add64 a.balance amount;
  last_deposit = c.time;
  total_deposited = sat_add64 a.total_deposited amount;
}

unfoldable pub debit : ℕ → UserAccount → UserAccount
debit amount a = record a {
  balance = a.balance - amount;
  total_consumed = sat_add64 a.total_consumed amount;
}

unfoldable pub update_user_balance : Call → Principal → ℕ → Bool → FactoryAction ℕ
unfolding get_user_account store_user_account credit debit
update_user_balance c user amount is_deposit s =
    let account = get_user_account user s in
    if is_deposit
    then (ok (credit c amount account).balance, store_user_account (credit c amount account) s)
    else if ltb account.balance amount
    then (
      err (
          of_nums "Insufficient balance: current balance {} e8s, required {} e8s" account.balance
            amount),
      s,
    )
    else (ok (debit amount account).balance, store_user_account (debit amount account) s)

unfoldable pub check_user_balance : Principal → ℕ → Factory → Bool
unfolding get_user_account
check_user_balance user amount s = leb amount (get_user_account user s).balance
