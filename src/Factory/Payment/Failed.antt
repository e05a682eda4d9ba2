-- ===== src/Factory/Payment/Failed.antt =====
-- `process_failed_deployments` of src/factory/src/payment.rs, which nothing calls: the refund of
-- every failed deployment, with the status of its record.
use hunter_fi.Base.{ℕ, ◌+◌, ◌==◌, List, [], ◌∷◌, ◌++◌, if◌then◌else◌, Result, ok, err, none, nat_eq}
use hunter_fi.Common.Types.{deployment_failed, refunded, deployment_status_eq}
use hunter_fi.Factory.Types.{Call, Factory, DeploymentId, DeploymentRecord, PaymentError, Message}
use hunter_fi.Factory.State.{update_deployment_status, get_deployment_records_by_status}
use hunter_fi.Factory.Payment.{process_balance_refund}

pub data RefundError : Type 0 where
  status_update_error : DeploymentId → Message → RefundError
  refund_error : DeploymentId → PaymentError → RefundError

-- What the loop has counted, and the canister's state.
pub record Tally : Type 0 where
  pub processed_count : ℕ  -- usize
  pub errors : List RefundError
  pub factory : Factory

-- One round of the loop.
unfoldable pub refund_failed : Call → DeploymentRecord → Tally → Tally
unfolding process_balance_refund update_deployment_status
refund_failed c r t =
    if r.status == refunded
    then t
    else (let (reply, s) =
          process_balance_refund c r.owner r.fee_amount r.deployment_id t.factory in
        let (updated, s') = update_deployment_status c r.deployment_id refunded none none s in
        elim reply [
          | err e ↦ record t {
            errors = t.errors ++ refund_error r.deployment_id e ∷ [];
            factory = s;
          }
          | ok _ ↦ elim updated [
            | err e ↦ record t {
              errors = t.errors ++ status_update_error r.deployment_id e ∷ [];
              factory = s';
            }
            | ok _ ↦ record t { processed_count = t.processed_count + 1; factory = s' }
          ]
        ])

unfoldable pub refund_all : Call → List DeploymentRecord → Tally → Tally
unfolding refund_failed
refund_all c [] t = t
refund_all c (r ∷ rs) t = refund_all c rs (refund_failed c r t)

abbrev pub tally_result : Tally → Result (List RefundError) ℕ
tally_result t = elim t.errors [
  | [] ↦ ok t.processed_count
  | _ ∷ _ ↦ if t.processed_count == 0 then err t.errors else ok t.processed_count
]

unfoldable pub process_failed_deployments : Call → Factory → Result (List RefundError) ℕ × Factory
unfolding refund_all
process_failed_deployments c s =
    let failed_deployments = get_deployment_records_by_status deployment_failed s in
    let t =
      refund_all c failed_deployments (record { processed_count = 0; errors = []; factory = s }) in
    (tally_result t, t.factory)
