-- ===== src/Factory/Upgrade.antt =====
-- Saving and restoring the state around an upgrade (src/factory/src/state.rs). The new instance
-- starts with fresh thread-local variables; what it finds in the stable maps is `found`, since the
-- memory manager and `stable_save` are library code that share the stable memory.
pub mod Restored
use hunter_fi.Base.{
  ℕ, Bool, true, false, Option, none, some, List, [], ◌∷◌, if◌then◌else◌, ◌==◌, Eq, nat_eq,
}
use hunter_fi.Base.Dict.{Dict, insert}
use hunter_fi.Common.Types.{Principal, StrategyMetadata}
use hunter_fi.Factory.Types.{
  TransactionId, transaction_id_eq, TransactionRecord, UserAccount, Factory,
}

pub record UpgradeData : Type 0 where
  pub owner_strategies : Dict Principal (List Principal)
  pub admins : List Principal
  pub deployment_id_counter : ℕ
  pub deployment_fee : ℕ
  pub transactions : Option (Dict TransactionId TransactionRecord)
  pub user_accounts : Option (Dict Principal UserAccount)
  pub strategies : Option (Dict Principal StrategyMetadata)

unfoldable pub get_upgrade_data : Factory → UpgradeData
get_upgrade_data s = record {
  owner_strategies = s.owner_strategies;
  admins = s.admins;
  deployment_id_counter = s.deployment_id_counter;
  deployment_fee = s.deployment_fee;
  transactions = some s.transactions;
  user_accounts = some s.user_accounts;
  strategies = some s.strategies;
}

-- `for (k, v) in entries { map.insert(k, v); }`
unfoldable pub insert_all {ℓ κ} :
    {K : Type ℓ} {V : Type κ} ⦃e : Eq K⦄ → Dict K V → Dict K V → Dict K V
insert_all [] d = d
insert_all ((k, v) ∷ entries) d = insert_all entries (insert k v d)

abbrev pub insert_some {ℓ κ} :
    {K : Type ℓ} {V : Type κ} ⦃e : Eq K⦄ → Option (Dict K V) → Dict K V → Dict K V
insert_some none d = d
insert_some (some entries) d = insert_all entries d

unfoldable pub restore_upgrade_data : UpgradeData → Factory → Factory
unfolding insert_all
restore_upgrade_data saved s = record s {
  owner_strategies = saved.owner_strategies;
  admins = saved.admins;
  deployment_id_counter = saved.deployment_id_counter;
  deployment_fee = saved.deployment_fee;
  transactions = insert_some saved.transactions s.transactions;
  user_accounts = insert_some saved.user_accounts s.user_accounts;
  strategies = insert_some saved.strategies s.strategies;
}

-- `pre_upgrade`: the saved data, and the state with the cache cleared.
unfoldable pub pre_upgrade : Factory → UpgradeData × Factory
unfolding get_upgrade_data
pre_upgrade s = (get_upgrade_data s, record s { transaction_cache = [] })

-- `get_all_transaction_records` reads the cache.
unfoldable pub get_all_transaction_records : Factory → List TransactionRecord
get_all_transaction_records s = s.transaction_cache

-- `post_upgrade`: restore, then set the cache to `get_all_transaction_records()`.
unfoldable pub post_upgrade : UpgradeData → Factory → Factory
unfolding restore_upgrade_data get_all_transaction_records
post_upgrade saved s =
    let restored = restore_upgrade_data saved s in
    record restored { transaction_cache = get_all_transaction_records restored }
