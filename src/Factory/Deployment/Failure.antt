-- ===== src/Factory/Deployment/Failure.antt =====
-- A failed deployment: the record ends refunded, and its owner gets the fee back.
use hunter_fi.Base.{◌+◌, ◌≤◌, ◌≡◌, ◌≢◌, refl, Option, none, some, ok, arith, if◌then◌else◌, ◌==◌}
use hunter_fi.Base.Words.{u64_max}
use hunter_fi.Common.Types.{Principal, deployment_failed, refunded}
use hunter_fi.Factory.Types.{
  DeploymentId, deployment_id_eq, Message, plain, DeploymentRecord, Call, Factory,
}
use hunter_fi.Factory.State.{
  get_user_account, get_deployment_record, credit, update_deployment_status,
}
use hunter_fi.Factory.State.Accounts.{OwnersMatch, accounts_after}
use hunter_fi.Factory.State.Totals.{total_balance}
use hunter_fi.Factory.State.Records.{
  with_status, update_deployment_status_known, update_deployment_status_frame,
  get_user_account_cong,
}
use hunter_fi.Factory.Payment.Balance.{
  repaid, process_balance_refund_ok, repaid-accounts, repaid-records, repaid-total, repaid_frame,
}
use hunter_fi.Factory.Deployment.{failure, handle_deployment_failure}

-- A record that can be refunded: it is stored under its id, and its fee is a positive `u64`.
pub record IsRefundable (id : DeploymentId) (r : DeploymentRecord) (s : Factory) : Type 0 where
  pub known : get_deployment_record id s ≡ some r
  pub own : r.deployment_id ≡ id
  pub fee_positive : 1 ≤ r.fee_amount
  pub fee_bounded : r.fee_amount ≤ u64_max

-- The state `t` after a refund of the fee of `r`, which lies under `id` in `s`: the record is
-- refunded, the owner's account is credited once, and nobody else's account and no other record
-- has changed.
pub record IsRefunded (c : Call) (id : DeploymentId) (r : DeploymentRecord) (s t : Factory)
    : Type 0 where
  pub record_refunded :
      (x : DeploymentRecord) × (get_deployment_record id t ≡ some x)
      × (x.status ≡ refunded)
      × (x.owner ≡ r.owner)
      × (x.fee_amount ≡ r.fee_amount)
      × (x.deployment_id ≡ id)
  pub other_records :
      (j : DeploymentId) → j ≢ id → get_deployment_record j t ≡ get_deployment_record j s
  pub accounts :
      (v : Principal)
      → get_user_account v t
        ≡ accounts_after s r.owner (credit c r.fee_amount (get_user_account r.owner s)) v
  pub same_admins : t.admins ≡ s.admins
  pub same_deployment_fee : t.deployment_fee ≡ s.deployment_fee

module _ (c : Call) (id : DeploymentId) (canister_id : Option Principal) (m : Message)
    (r : DeploymentRecord) (s : Factory) where
  pub marked : Factory
  marked = (update_deployment_status c id deployment_failed canister_id (some m) s).1

  abbrev failed_record : DeploymentRecord
  failed_record = with_status c deployment_failed canister_id (some m) r

  marked_frame :
      (marked.user_accounts ≡ s.user_accounts)
      × (marked.strategies ≡ s.strategies)
      × (marked.admins ≡ s.admins)
      × (marked.deployment_fee ≡ s.deployment_fee)
  unfolding marked
  marked_frame =
      ground (arith, update_deployment_status_frame c id deployment_failed canister_id (some m) s)

  marked-records :
      (j : DeploymentId)
      → IsRefundable id r s
      → get_deployment_record j marked
        ≡ (if j == id then some failed_record else get_deployment_record j s)
  unfolding marked
  marked-records j h =
      (update_deployment_status_known c id deployment_failed canister_id (some m) s j r h.known
        h.own).1

  marked-OwnersMatch : OwnersMatch s → OwnersMatch marked
  marked-OwnersMatch o u = ground (arith, o u, marked_frame, get_user_account_cong marked s u)

  pub refunded_state : Factory
  refunded_state = repaid c r.owner r.fee_amount id marked

  pub handle_deployment_failure_lem :
      OwnersMatch s
      → IsRefundable id r s
      → handle_deployment_failure c id canister_id m s ≡ (ok (failure m), refunded_state)
  unfolding handle_deployment_failure refunded_state marked
  handle_deployment_failure_lem o h = ground (
    arith,
    h,
    marked-records id h,
    update_deployment_status_known c id deployment_failed canister_id (some m) s id r h.known h.own,
    process_balance_refund_ok c r.owner r.fee_amount id marked (marked-OwnersMatch o) h.fee_positive
        h.fee_bounded,
  )

  refunded_state_accounts :
      OwnersMatch s
      → (v : Principal)
      → get_user_account v refunded_state
        ≡ accounts_after s r.owner (credit c r.fee_amount (get_user_account r.owner s)) v
  unfolding refunded_state
  refunded_state_accounts o v = ground (
    arith,
    repaid-accounts c r.owner r.fee_amount id marked v (marked-OwnersMatch o),
    marked_frame,
    get_user_account_cong marked s v,
    get_user_account_cong marked s r.owner,
  )

  refunded_state_records :
      (j : DeploymentId)
      → IsRefundable id r s
      → get_deployment_record j refunded_state ≡ (
          if j == id
          then some
              (with_status c refunded none (some (plain "Deployment fee refunded")) failed_record)
          else get_deployment_record j s)
  unfolding refunded_state
  refunded_state_records j h = ground (
    arith,
    h,
    marked-records id h,
    marked-records j h,
    repaid-records c r.owner r.fee_amount id marked j failed_record,
  )

  pub refunded_state-IsRefunded :
      OwnersMatch s → IsRefundable id r s → IsRefunded c id r s refunded_state
  unfolding refunded_state
  refunded_state-IsRefunded o h = record {
    record_refunded = (
      with_status c refunded none (some (plain "Deployment fee refunded")) failed_record,
      ground (arith, refunded_state_records id h),
      refl,
      refl,
      refl,
      h.own,
    );
    other_records = λ j ne. ground (arith, refunded_state_records j h);
    accounts = refunded_state_accounts o;
    same_admins = ground (arith, repaid_frame c r.owner r.fee_amount id marked, marked_frame);
    same_deployment_fee =
        ground (arith, repaid_frame c r.owner r.fee_amount id marked, marked_frame);
  }

  -- A refund raises the sum of the balances by the fee.
  pub refunded_state-total :
      OwnersMatch s
      → (get_user_account r.owner s).balance + r.fee_amount ≤ u64_max
      → total_balance refunded_state ≡ total_balance s + r.fee_amount
  unfolding refunded_state
  refunded_state-total o fits = ground (
    arith,
    repaid-total c r.owner r.fee_amount id marked (marked-OwnersMatch o),
    marked_frame,
    get_user_account_cong marked s r.owner,
  )
