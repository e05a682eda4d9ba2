-- ===== src/Factory/Api/Queries.antt =====
-- The queries of src/factory/src/api.rs that pass on what the state holds. None changes it.
use hunter_fi.Base.{ℕ, Bool, Option, List, length, ◌%◌, gets, ◌>>◌}
use hunter_fi.Base.Dict.{values}
use hunter_fi.Base.Words.{u64_mod}
use hunter_fi.Common.Types.{Principal, StrategyMetadata}
use hunter_fi.Factory.Types.{Call, Factory, DeploymentRecord, UserAccount}
use hunter_fi.Factory.State.{
  FactoryAction, is_admin, require_admin, get_strategy_metadata, get_deployment_records_by_owner,
  get_user_account,
}

unfoldable pub get_admins : Factory → List Principal
get_admins s = s.admins

unfoldable pub is_caller_admin : Call → Factory → Bool
is_caller_admin c s = is_admin c s

unfoldable pub get_all_strategies : Call → FactoryAction (List StrategyMetadata)
unfolding require_admin
get_all_strategies c = do require_admin c; gets (λ s. values s.strategies)

unfoldable pub get_strategy : Principal → Factory → Option StrategyMetadata
get_strategy canister_id s = get_strategy_metadata canister_id s

unfoldable pub get_strategy_count : Factory → ℕ
get_strategy_count s = length s.strategies % u64_mod

unfoldable pub get_my_deployment_records : Call → Factory → List DeploymentRecord
get_my_deployment_records c s = get_deployment_records_by_owner c.caller s

unfoldable pub get_balance : Call → Factory → ℕ
get_balance c s = (get_user_account c.caller s).balance

unfoldable pub get_account_info : Call → Factory → UserAccount
get_account_info c s = get_user_account c.caller s
