-- ===== src/Factory/State/Records.antt =====
-- Deployment records under a change of status, and what each primitive leaves alone.
use hunter_fi.Base.{ℕ, ◌≡◌, refl, Bool, Option, none, some, if◌then◌else◌, ◌==◌, ok, err, arith}
use hunter_fi.Base.Dict.{lookup-insert}
use hunter_fi.Common.Types.{Principal, DeploymentStatus}
use hunter_fi.Factory.Types.{
  DeploymentId, deployment_id_eq, TransactionType, Message, of_id, DeploymentRecord, Call, Factory,
}
use hunter_fi.Factory.State.{
  or_old, get_user_account, get_deployment_record, store_deployment_record,
  update_deployment_status, update_user_balance, record_transaction,
}
use hunter_fi.Factory.State.Totals.{total_balance}

-- Every record is stored under its own id.
abbrev pub IdsMatch : Factory → Type 0
IdsMatch s =
    (id : DeploymentId) (r : DeploymentRecord)
    → get_deployment_record id s ≡ some r
    → r.deployment_id ≡ id

-- The record that a change of status leaves behind.
abbrev pub with_status :
    Call
    → DeploymentStatus
    → Option Principal
    → Option Message
    → DeploymentRecord
    → DeploymentRecord
with_status c status canister_id error_message r = record r {
  status = status;
  last_updated = c.time;
  canister_id = or_old canister_id r.canister_id;
  error_message = or_old error_message r.error_message;
}

pub get_deployment_record-store :
    (id : DeploymentId) (r : DeploymentRecord) (s : Factory)
    → get_deployment_record id (store_deployment_record r s)
      ≡ (if id == r.deployment_id then some r else get_deployment_record id s)
unfolding get_deployment_record store_deployment_record
get_deployment_record-store id r s = lookup-insert id r.deployment_id r s.deployment_records

module _ (c : Call) (id : DeploymentId) (status : DeploymentStatus) (canister_id : Option Principal)
    (error_message : Option Message) (s : Factory) where
  -- A known record gets the new status, and every other record is left alone.
  pub update_deployment_status_known :
      (j : DeploymentId) (r : DeploymentRecord)
      → get_deployment_record id s ≡ some r
      → r.deployment_id ≡ id
      → ((update_deployment_status c id status canister_id error_message s).0 ≡ ok tt)
        × (get_deployment_record j
              (update_deployment_status c id status canister_id error_message s).1
            ≡ (if j == id
                then some (with_status c status canister_id error_message r)
                else get_deployment_record j s))
  unfolding update_deployment_status
  update_deployment_status_known j r known own =
      ground
        (arith, get_deployment_record-store j (with_status c status canister_id error_message r) s)

  -- An unknown id is an error, and nothing changes.
  pub update_deployment_status_unknown :
      get_deployment_record id s ≡ none
      → update_deployment_status c id status canister_id error_message s
        ≡ (err (of_id "Deployment record not found: {}" id), s)
  unfolding update_deployment_status
  update_deployment_status_unknown unknown = ground arith

  pub update_deployment_status_frame :
      let s' = (update_deployment_status c id status canister_id error_message s).1 in
      (s'.user_accounts ≡ s.user_accounts)
      × (s'.transactions ≡ s.transactions)
      × (s'.transaction_cache ≡ s.transaction_cache)
      × (s'.strategies ≡ s.strategies)
      × (s'.owner_strategies ≡ s.owner_strategies)
      × (s'.admins ≡ s.admins)
      × (s'.deployment_fee ≡ s.deployment_fee)
  unfolding update_deployment_status store_deployment_record
  update_deployment_status_frame = ground arith

-- Balances and transactions leave the records alone, and transactions leave the accounts alone.
pub update_user_balance_frame :
    (c : Call) (u : Principal) (x : ℕ) (is_deposit : Bool) (s : Factory)
    → let s' = (update_user_balance c u x is_deposit s).1 in
      (s'.deployment_records ≡ s.deployment_records)
      × (s'.strategies ≡ s.strategies)
      × (s'.owner_strategies ≡ s.owner_strategies)
      × (s'.admins ≡ s.admins)
      × (s'.deployment_fee ≡ s.deployment_fee)
unfolding update_user_balance
update_user_balance_frame c u x is_deposit s = ground arith

pub record_transaction_frame :
    (c : Call) (u : Principal) (x : ℕ) (t : TransactionType) (d : Message) (s : Factory)
    → let s' = (record_transaction c u x t d s).1 in
      (s'.user_accounts ≡ s.user_accounts)
      × (s'.deployment_records ≡ s.deployment_records)
      × (s'.strategies ≡ s.strategies)
      × (s'.owner_strategies ≡ s.owner_strategies)
      × (s'.admins ≡ s.admins)
      × (s'.deployment_fee ≡ s.deployment_fee)
unfolding record_transaction
record_transaction_frame c u x t d s = (refl, refl, refl, refl, refl, refl)

-- An account, the total and a record are read off their maps.
pub get_user_account_cong :
    (s t : Factory) (u : Principal)
    → s.user_accounts ≡ t.user_accounts
    → get_user_account u s ≡ get_user_account u t
unfolding get_user_account
get_user_account_cong s t u e = ground arith

pub total_balance_cong :
    (s t : Factory) → s.user_accounts ≡ t.user_accounts → total_balance s ≡ total_balance t
total_balance_cong s t e = ground arith

pub get_deployment_record_cong :
    (s t : Factory) (id : DeploymentId)
    → s.deployment_records ≡ t.deployment_records
    → get_deployment_record id s ≡ get_deployment_record id t
unfolding get_deployment_record
get_deployment_record_cong s t id e = ground arith
