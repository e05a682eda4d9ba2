-- ===== src/Factory/Timer/Refunds.antt =====
-- What the cleanup of failed deployments pays.
use hunter_fi.Base.{
  ℕ, ◌+◌, ◌≤◌, ◌≡◌, refl, ◌∙◌, ap, true, List, [], ◌∷◌, if◌then◌else◌, ◌==◌, arith,
}
use hunter_fi.Base.Words.{u64_max}
use hunter_fi.Common.Types.{Principal, deployment_failed, refunded, deployment_status_eq}
use hunter_fi.Factory.Types.{of_id, refund, DeploymentRecord, Call, Factory}
use hunter_fi.Factory.State.{
  get_user_account, credit, new_account, update_user_balance, get_deployment_records_by_status,
  get_all_deployment_records,
}
use hunter_fi.Factory.State.Accounts.{OwnersMatch, update_user_balance-credit}
use hunter_fi.Factory.State.Totals.{total_balance, total_balance-deposit, sum_balances-insert}
use hunter_fi.Factory.State.Records.{
  update_user_balance_frame, record_transaction_frame, get_user_account_cong,
}
use hunter_fi.Factory.Balances
use hunter_fi.Factory.Timer.{refund_one, refund_each, process_failed_deployments}

-- The fees of the records that are not marked as refunded.
abbrev pub due : List DeploymentRecord → ℕ
due [] = 0
due (r ∷ rs) = let rest = due rs in if r.status == refunded then rest else r.fee_amount + rest

abbrev pub failed_records : Factory → List DeploymentRecord
failed_records s = get_deployment_records_by_status deployment_failed s

balance-le-total : (u : Principal) (s : Factory) → (get_user_account u s).balance ≤ total_balance s
unfolding get_user_account
balance-le-total u s = ground (arith, sum_balances-insert u (new_account u) s.user_accounts)

module _ (c : Call) (r : DeploymentRecord) (n : ℕ) (s : Factory) (m : OwnersMatch s) where
  refund_one-total :
      total_balance s + (if r.status == refunded then 0 else r.fee_amount) ≤ u64_max
      → total_balance (refund_one c r n s).1
        ≡ total_balance s + (if r.status == refunded then 0 else r.fee_amount)
  unfolding refund_one Balances.process_balance_refund
  refund_one-total fits = ground (
    arith,
    balance-le-total r.owner s,
    total_balance-deposit c r.owner r.fee_amount s m,
    record_transaction_frame c r.owner r.fee_amount refund
        (of_id "Refund for failed deployment (ID: {})" r.deployment_id)
        (update_user_balance c r.owner r.fee_amount true s).1,
    update_user_balance-credit c r.owner r.fee_amount s r.owner m,
  )

  refund_one-records : (refund_one c r n s).1.deployment_records ≡ s.deployment_records
  unfolding refund_one Balances.process_balance_refund
  refund_one-records = ground (
    arith,
    update_user_balance_frame c r.owner r.fee_amount true s,
    record_transaction_frame c r.owner r.fee_amount refund
        (of_id "Refund for failed deployment (ID: {})" r.deployment_id)
        (update_user_balance c r.owner r.fee_amount true s).1,
    update_user_balance-credit c r.owner r.fee_amount s r.owner m,
  )

  refund_one-OwnersMatch : OwnersMatch (refund_one c r n s).1
  unfolding refund_one Balances.process_balance_refund credit
  refund_one-OwnersMatch v = ground (
    arith,
    m v,
    m r.owner,
    update_user_balance-credit c r.owner r.fee_amount s v m,
    record_transaction_frame c r.owner r.fee_amount refund
        (of_id "Refund for failed deployment (ID: {})" r.deployment_id)
        (update_user_balance c r.owner r.fee_amount true s).1,
    get_user_account_cong (refund_one c r n s).1
        (update_user_balance c r.owner r.fee_amount true s).1 v,
  )

refund_each-total :
    (c : Call) (rs : List DeploymentRecord) (n : ℕ) (s : Factory)
    → OwnersMatch s
    → total_balance s + due rs ≤ u64_max
    → (total_balance (refund_each c rs n s).1 ≡ total_balance s + due rs)
      × ((refund_each c rs n s).1.deployment_records ≡ s.deployment_records)
      × OwnersMatch (refund_each c rs n s).1
unfolding refund_each
refund_each-total c [] n s m fits = (omega arith, refl, m)
refund_each-total c (r ∷ rs) n s m fits =
    let first = refund_one-total c r n s m (ground arith) in
    let rest =
      refund_each-total c rs (refund_one c r n s).0 (refund_one c r n s).1
        (refund_one-OwnersMatch c r n s m) (ground (arith, first)) in
    (ground (arith, first, rest.0), rest.1 ∙ refund_one-records c r n s m, rest.2)

failed_records_cong :
    (s t : Factory)
    → s.deployment_records ≡ t.deployment_records
    → failed_records s ≡ failed_records t
unfolding get_deployment_records_by_status get_all_deployment_records
failed_records_cong s t e = ground (arith, e)

-- With every account stored under its owner: a cleanup of the failed deployments adds the fees of
-- the failed records to the balances and leaves every record as it was, so the next cleanup adds
-- them again, if the sum of the balances and twice the fees fit a `u64`.
pub process_failed_deployments_twice :
    (c c' : Call) (s : Factory)
    → OwnersMatch s
    → total_balance s + (due (failed_records s) + due (failed_records s)) ≤ u64_max
    → let first = (process_failed_deployments c s).1 in
      let second = (process_failed_deployments c' first).1 in
      (total_balance first ≡ total_balance s + due (failed_records s))
      × (total_balance second ≡ total_balance first + due (failed_records s))
      × (second.deployment_records ≡ s.deployment_records)
unfolding process_failed_deployments
process_failed_deployments_twice c c' s m fits =
    let one = refund_each-total c (failed_records s) 0 s m (omega arith) in
    let t = (refund_each c (failed_records s) 0 s).1 in
    let same = failed_records_cong t s one.1 in
    let owed : due (failed_records t) ≡ due (failed_records s) = ap due same in
    let two = refund_each-total c' (failed_records t) 0 t one.2 (omega (arith, one.0, owed)) in
    (one.0, omega (arith, two.0, owed), two.1 ∙ one.1)
