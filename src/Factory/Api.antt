-- ===== src/Factory/Api.antt =====
-- The entry points of src/factory/src/api.rs that guard and change the state. A query that only
-- passes on a function of state.rs is not repeated here.
pub mod Admins
pub mod History
pub mod Queries
use hunter_fi.Base.{
  ℕ, ◌+◌, Bool, true, false, Option, none, some, List, [], ◌∷◌, ◌++◌, String, leb, ltb, not, ◌&&◌,
  ◌||◌, if◌then◌else◌, ◌==◌, nat_eq, contains, length, keep, take, Result, ok, err, Action, fail_if,
  fail, gets, modify, pure, from_result, ◌>>=◌, ◌>>◌, with_err,
}
use hunter_fi.Base.Dict.{lookup, values}
use hunter_fi.Common.Types.{Principal, anonymous, StrategyMetadata}
use hunter_fi.Common.Config.{StrategyConfig}
use hunter_fi.Factory.Types.{
  DeploymentId, admin_adjustment, Message, plain, of_payment, TransactionRecord, UserAccount,
  DeploymentRecord, DeploymentRequest, Call, Factory, PaymentError,
}
use hunter_fi.Factory.State.{
  FactoryAction, is_admin, require_admin, set_fee, update_user_balance, recorded, or_empty,
  get_strategy_metadata, get_deployment_record, get_all_deployment_records,
  get_user_transaction_records,
}
use hunter_fi.Factory.Payment.{Rejection, LedgerCall, process_deposit, user_withdraw_funds}
use hunter_fi.Factory.Withdrawal.{withdraw_funds}
use hunter_fi.Factory.Deployment.{Codec, Progress, create_strategy_request, start_deployment}

-- `HashSet::insert` and `HashSet::remove`
abbrev pub set_insert : Principal → List Principal → List Principal
set_insert p admins = if contains admins p then admins else admins ++ p ∷ []

abbrev pub set_remove : Principal → List Principal → List Principal
set_remove p admins = keep (λ x. not (x == p)) admins

-- The fresh state of a canister, and `init`: the installer is the first administrator.
abbrev pub empty_factory : Factory
empty_factory = record {
  strategies = [];
  deployment_records = [];
  user_accounts = [];
  transactions = [];
  owner_strategies = [];
  deployment_fee = 100000000;
  admins = [];
  deployment_id_counter = 0;
  transaction_cache = [];
  max_cache_size = 1000;
}

unfoldable pub init : Call → Factory → Factory
init c s = record s { admins = set_insert c.caller s.admins }

unfoldable pub add_admin : Call → Principal → FactoryAction (Unit {0})
add_admin c p = do
  require_admin c
  fail_if (p == anonymous) (plain "Cannot add anonymous principal as admin")
  modify (λ s. record s { admins = set_insert p s.admins })

unfoldable pub remove_admin : Call → Principal → FactoryAction (Unit {0})
remove_admin c p = do
  require_admin c
  is_last_admin ← gets (λ s. leb (length s.admins) 1 && contains s.admins p)
  fail_if is_last_admin (plain "Cannot remove the last admin")
  modify (λ s. record s { admins = set_remove p s.admins })

-- `let _ = set_fee(fee_e8s);`
unfoldable pub set_deployment_fee : Call → ℕ → FactoryAction (Unit {0})
unfolding set_fee
set_deployment_fee c fee = do require_admin c; modify (λ s. (set_fee c fee s).1)

unfoldable pub adjust_balance : Call → Principal → ℕ → Message → FactoryAction (Unit {0})
adjust_balance c user amount reason = do
  require_admin c
  update_user_balance c user amount true
  recorded c user amount admin_adjustment reason

abbrev refuse_anonymous : Call → String → FactoryAction (Unit {0})
refuse_anonymous c text = fail_if (c.caller == anonymous) (plain text)

module _ (ledger_id : Option Principal) (reply : LedgerCall → Result Rejection ℕ) where
  unfoldable pub deposit_icp : Call → Call → ℕ → FactoryAction ℕ
  deposit_icp c later amount = do
    refuse_anonymous c "Anonymous identity cannot make deposits"
    with_err (of_payment "{}") (process_deposit ledger_id reply c later c.caller amount)

  unfoldable pub withdraw_user_icp : Call → Call → ℕ → FactoryAction ℕ
  withdraw_user_icp c later amount = do
    refuse_anonymous c "Anonymous identity cannot withdraw funds"
    with_err (of_payment "{}") (user_withdraw_funds ledger_id reply c later c.caller amount)

-- With the calls of the ledger.
unfoldable pub withdraw_icp :
    (ℕ → LedgerCall → Result Rejection ℕ)
    → Option Principal
    → Call
    → Principal
    → ℕ
    → Factory
    → (Result Message (Unit {0}) × Factory) × List LedgerCall
withdraw_icp reply ledger_id c recipient amount s = elim (require_admin c s).0 [
  | err e ↦ ((err e, s), [])
  | ok _ ↦
      let (result, calls) = withdraw_funds reply ledger_id c recipient amount in
      ((result, s), calls)
]

-- The five `request_*_strategy` functions, one for each constructor of `StrategyConfig`.
unfoldable pub request_strategy : Codec → Call → StrategyConfig → FactoryAction DeploymentRequest
request_strategy codec c config = do
  refuse_anonymous c "Anonymous principal cannot deploy strategies"
  create_strategy_request codec c config

-- Up to the first await of `execute_deployment`.
unfoldable pub force_execute_deployment : Call → DeploymentId → FactoryAction Progress
force_execute_deployment c id = do require_admin c; start_deployment c id

unfoldable pub get_deployment : Call → DeploymentId → Factory → Option DeploymentRecord
get_deployment c id s = elim (get_deployment_record id s) [
  | none ↦ none
  | some r ↦ if r.owner == c.caller || is_admin c s then some r else none
]

unfoldable pub get_deployment_records : Call → Factory → List DeploymentRecord
get_deployment_records c s = if not (is_admin c s) then [] else get_all_deployment_records s

-- `filter_map(|id| get_strategy_metadata(*id))`
abbrev pub known_strategies : Factory → List Principal → List StrategyMetadata
known_strategies s [] = []
known_strategies s (id ∷ ids) =
    let rest = known_strategies s ids in
    elim (get_strategy_metadata id s) [ none ↦ rest | some m ↦ m ∷ rest ]

unfoldable pub get_strategies_by_owner : Call → Principal → Factory → List StrategyMetadata
get_strategies_by_owner c owner s =
    if not (c.caller == owner) && not (is_admin c s)
    then []
    else known_strategies s (or_empty (lookup owner s.owner_strategies))

abbrev pub max_transaction_query_limit : ℕ
max_transaction_query_limit = 100

unfoldable pub get_transaction_history : Call → Factory → List TransactionRecord
get_transaction_history c s =
    let transactions = get_user_transaction_records c.caller s in
    if ltb max_transaction_query_limit (length transactions)
    then take max_transaction_query_limit transactions
    else transactions
