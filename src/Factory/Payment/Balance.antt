-- ===== src/Factory/Payment/Balance.antt =====
-- What `process_balance_payment` and `process_balance_refund` of payment.rs do, on every branch.
use hunter_fi.Base.{
  ℕ, ◌+◌, ◌≤◌, ◌<◌, ◌≡◌, ◌≢◌, ◌⊎◌, true, false, none, some, ok, arith, if◌then◌else◌, ◌==◌,
}
use hunter_fi.Base.Words.{u64_max}
use hunter_fi.Common.Types.{Principal, refunded}
use hunter_fi.Factory.Types.{
  DeploymentId, deployment_id_eq, Message, plain, of_id, deployment_fee, refund, DeploymentRecord,
  Call, Factory,
}
use hunter_fi.Factory.State.{
  get_user_account, get_deployment_record, credit, debit, update_user_balance, record_transaction,
  update_deployment_status, check_user_balance,
}
use hunter_fi.Factory.State.Accounts.{
  OwnersMatch, accounts_after, update_user_balance-credit, update_user_balance-debit,
}
use hunter_fi.Factory.State.Totals.{total_balance, total_balance-deposit, total_balance-deduct}
use hunter_fi.Factory.State.Records.{
  with_status, update_deployment_status_known, update_deployment_status_unknown,
  update_deployment_status_frame, update_user_balance_frame, record_transaction_frame,
  get_user_account_cong, get_deployment_record_cong,
}
use hunter_fi.Factory.Payment.{process_balance_payment, process_balance_refund}

module _ (c : Call) (u : Principal) (x : ℕ) (purpose : Message) (s : Factory) where
  abbrev pub paid : Factory
  paid = (record_transaction c u x deployment_fee purpose (update_user_balance c u x false s).1).1

  -- The three ways in which a payment ends.
  pub process_balance_payment_ok :
      OwnersMatch s
      → 1 ≤ x
      → x ≤ u64_max
      → x ≤ (get_user_account u s).balance
      → process_balance_payment c u x purpose s ≡ (ok tt, paid)
  unfolding process_balance_payment check_user_balance
  process_balance_payment_ok m pos fits covered =
      ground (arith, update_user_balance-debit c u x s u m covered)

  -- A refused payment changes nothing.
  pub process_balance_payment_refused :
      (x ≡ 0) ⊎ ((get_user_account u s).balance < x)
      → ((process_balance_payment c u x purpose s).0 ≢ ok tt)
        × ((process_balance_payment c u x purpose s).1 ≡ s)
  unfolding process_balance_payment check_user_balance
  process_balance_payment_refused h = ground arith

  pub paid-accounts :
      (v : Principal)
      → OwnersMatch s
      → x ≤ (get_user_account u s).balance
      → get_user_account v paid ≡ accounts_after s u (debit x (get_user_account u s)) v
  paid-accounts v m covered = ground (
    arith,
    update_user_balance-debit c u x s v m covered,
    record_transaction_frame c u x deployment_fee purpose (update_user_balance c u x false s).1,
    get_user_account_cong paid (update_user_balance c u x false s).1 v,
  )

  pub paid_frame :
      (paid.deployment_id_counter ≡ s.deployment_id_counter)
      × (paid.deployment_records ≡ s.deployment_records)
      × (paid.admins ≡ s.admins)
      × (paid.deployment_fee ≡ s.deployment_fee)
  unfolding update_user_balance record_transaction
  paid_frame = ground arith

  pub paid-total :
      OwnersMatch s → x ≤ (get_user_account u s).balance → total_balance paid + x ≡ total_balance s
  paid-total m covered = ground (
    arith,
    total_balance-deduct c u x s m covered,
    record_transaction_frame c u x deployment_fee purpose (update_user_balance c u x false s).1,
  )

module _ (c : Call) (u : Principal) (x : ℕ) (id : DeploymentId) (s : Factory) where
  abbrev pub credited : Factory
  credited =
      (record_transaction c u x refund (of_id "Refund for deployment: {}" id)
        (update_user_balance c u x true s).1).1

  abbrev pub repaid : Factory
  repaid =
      (update_deployment_status c id refunded none (some (plain "Deployment fee refunded"))
        credited).1

  pub process_balance_refund_ok :
      OwnersMatch s → 1 ≤ x → x ≤ u64_max → process_balance_refund c u x id s ≡ (ok tt, repaid)
  unfolding process_balance_refund
  process_balance_refund_ok m pos fits = ground (arith, update_user_balance-credit c u x s u m)

  -- A refund of nothing is refused, and changes nothing.
  pub process_balance_refund_zero :
      x ≡ 0
      → ((process_balance_refund c u x id s).0 ≢ ok tt)
        × ((process_balance_refund c u x id s).1 ≡ s)
  unfolding process_balance_refund
  process_balance_refund_zero h = ground arith

  pub repaid-accounts :
      (v : Principal)
      → OwnersMatch s
      → get_user_account v repaid ≡ accounts_after s u (credit c x (get_user_account u s)) v
  repaid-accounts v m = ground (
    arith,
    update_user_balance-credit c u x s v m,
    record_transaction_frame c u x refund (of_id "Refund for deployment: {}" id)
        (update_user_balance c u x true s).1,
    update_deployment_status_frame c id refunded none (some (plain "Deployment fee refunded"))
        credited,
    get_user_account_cong repaid (update_user_balance c u x true s).1 v,
  )

  credited-records :
      (j : DeploymentId) → get_deployment_record j credited ≡ get_deployment_record j s
  credited-records j = ground (
    arith,
    update_user_balance_frame c u x true s,
    record_transaction_frame c u x refund (of_id "Refund for deployment: {}" id)
        (update_user_balance c u x true s).1,
    get_deployment_record_cong credited s j,
  )

  -- The refunded record, and the others.
  pub repaid-records :
      (j : DeploymentId) (r : DeploymentRecord)
      → get_deployment_record id s ≡ some r
      → r.deployment_id ≡ id
      → get_deployment_record j repaid ≡ (
          if j == id
          then some (with_status c refunded none (some (plain "Deployment fee refunded")) r)
          else get_deployment_record j s)
  repaid-records j r known own = ground (
    arith,
    credited-records j,
    credited-records id,
    update_deployment_status_known c id refunded none (some (plain "Deployment fee refunded"))
        credited j r,
  )

  pub repaid-records_unknown :
      (j : DeploymentId)
      → get_deployment_record id s ≡ none
      → get_deployment_record j repaid ≡ get_deployment_record j s
  repaid-records_unknown j unknown = ground (
    arith,
    credited-records j,
    credited-records id,
    update_deployment_status_unknown c id refunded none (some (plain "Deployment fee refunded"))
        credited,
  )

  pub repaid_frame :
      (repaid.strategies ≡ s.strategies)
      × (repaid.owner_strategies ≡ s.owner_strategies)
      × (repaid.admins ≡ s.admins)
      × (repaid.deployment_fee ≡ s.deployment_fee)
  repaid_frame = ground (
    arith,
    update_user_balance_frame c u x true s,
    record_transaction_frame c u x refund (of_id "Refund for deployment: {}" id)
        (update_user_balance c u x true s).1,
    update_deployment_status_frame c id refunded none (some (plain "Deployment fee refunded"))
        credited,
  )

  pub repaid-total :
      OwnersMatch s
      → (get_user_account u s).balance + x ≤ u64_max
      → total_balance repaid ≡ total_balance s + x
  repaid-total m fits = ground (
    arith,
    total_balance-deposit c u x s m fits,
    record_transaction_frame c u x refund (of_id "Refund for deployment: {}" id)
        (update_user_balance c u x true s).1,
    update_deployment_status_frame c id refunded none (some (plain "Deployment fee refunded"))
        credited,
  )
