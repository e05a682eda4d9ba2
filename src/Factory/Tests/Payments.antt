-- ===== src/Factory/Tests/Payments.antt =====
-- Payments and balances at concrete inputs.
use hunter_fi.Base.{
  ◌∷◌, [], ℕ, nat_eq, ◌+◌, ◌-◌, ◌≤◌, ◌≡◌, ◌≢◌, ◌⊎◌, refl, some, Result, ok, err, arith, false,
}
use hunter_fi.Base.Dict.{lookup}
use hunter_fi.Base.Words.{u64_max}
use hunter_fi.Factory.Types.{plain, of_num, PaymentError, transaction_id_eq, sys_transient}
use hunter_fi.Factory.State.{get_user_account, update_user_balance}
use hunter_fi.Factory.State.Accounts.{OwnersMatch, AllBooked, update_user_balance-AllBooked}
use hunter_fi.Factory.State.Totals.{total_balance}
use hunter_fi.Factory.Payment.{
  LedgerCall, Rejection, deposit_request, withdraw_request, withdraw_settle, user_withdraw_funds,
  transfer_args,
}
use hunter_fi.Factory.Payment.Ledger.{user_withdraw_funds-total, overlapping_withdrawals}
use hunter_fi.Factory.Balances.{process_balance_transfer}
use hunter_fi.Factory.Balances.Transfer.{process_balance_transfer-total}
use hunter_fi.Common.Types.{deployment_failed, deployment_status_eq}
use hunter_fi.Factory.State.{get_deployment_records_by_status, get_all_deployment_records}
use hunter_fi.Factory.Timer.{process_failed_deployments}
use hunter_fi.Factory.Timer.Refunds.{due, failed_records, process_failed_deployments_twice}
use hunter_fi.Factory.Types.{Factory}
use hunter_fi.Factory.Samples.{sample_id, sample_record}
use hunter_fi.Factory.Samples.{user_call, later_call, admin_call, factory}

factory-OwnersMatch : OwnersMatch factory
unfolding get_user_account lookup
factory-OwnersMatch u = ground arith

factory-AllBooked : AllBooked factory
unfolding get_user_account lookup
factory-AllBooked u = ground arith

user_balance : (get_user_account 7 factory).balance ≡ 500000000
unfolding get_user_account lookup nat_eq
user_balance = refl

deposits_fit : (get_user_account 7 factory).total_deposited + 100000000 ≤ u64_max
unfolding get_user_account lookup nat_eq
deposits_fit = omega arith

new_balance_fits : (get_user_account 8 factory).balance + 300000000 ≤ u64_max
unfolding get_user_account lookup nat_eq
new_balance_fits = omega arith

update_user_balance-AllBooked_example :
    AllBooked (update_user_balance user_call 7 100000000 false factory).1
update_user_balance-AllBooked_example =
    update_user_balance-AllBooked user_call 7 100000000 false factory factory-AllBooked deposits_fit

-- What the ledger is asked for in a withdrawal of 3 ICP by the user.
abbrev payout : LedgerCall
payout = record {
  ledger = 9;
  args = transfer_args user_call 7 300000000 (of_num "HunterFi withdrawal to {}" 7);
}

abbrev payin : LedgerCall
payin = record {
  ledger = 9;
  args = transfer_args user_call 1 300000000 (of_num "HunterFi deposit from {}" 7);
}

asked : withdraw_request (some 9) user_call 7 300000000 factory ≡ (ok payout, factory)
unfolding withdraw_request get_user_account lookup nat_eq
asked = refl

asked_deposit : deposit_request (some 9) user_call 7 300000000 factory ≡ (ok payin, factory)
unfolding deposit_request nat_eq
asked_deposit = refl

abbrev pays : LedgerCall → Result Rejection ℕ
pays _ = ok 17

user_withdraw_funds-total_example :
    ((b : ℕ) × ((user_withdraw_funds (some 9) pays user_call later_call 7 300000000 factory).0
        ≡ ok b)
      × (b + 300000000 ≡ (get_user_account 7 factory).balance)
      × (total_balance
              (user_withdraw_funds (some 9) pays user_call later_call 7 300000000 factory).1
            + 300000000
          ≡ total_balance factory))
    ⊎ ((e : PaymentError) × (user_withdraw_funds
            (some 9)
            pays
            user_call
            later_call
            7
            300000000
            factory
          ≡ (err e, factory)))
user_withdraw_funds-total_example =
    user_withdraw_funds-total (some 9) pays user_call later_call 7 300000000 factory
      factory-OwnersMatch

-- Of a balance of 5 ICP, 3 and 3 are paid out.
overlapping_withdrawals_example :
    let first = withdraw_settle later_call 7 300000000 (ok 17) factory in
    let second = withdraw_settle later_call 7 300000000 (ok 18) first.1 in
    (payout.args.amount + payout.args.amount ≡ 600000000)
    × (first.0 ≡ ok ((get_user_account 7 factory).balance - 300000000))
    × ((k : ℕ) → second.0 ≢ ok k)
    × (total_balance second.1 + 300000000 ≡ total_balance factory)
overlapping_withdrawals_example =
    overlapping_withdrawals (some 9) user_call user_call later_call later_call 7 300000000 17 18
      factory payout payout factory-OwnersMatch asked asked (ground (arith, user_balance))

process_balance_transfer-total_example :
    ((process_balance_transfer user_call 7 8 300000000 (plain "gift") factory).0 ≡ ok tt)
    × (total_balance (process_balance_transfer user_call 7 8 300000000 (plain "gift") factory).1
        ≡ total_balance factory)
process_balance_transfer-total_example =
    process_balance_transfer-total user_call 7 8 300000000 (plain "gift") factory
      factory-OwnersMatch (omega arith) (ground (arith, user_balance)) new_balance_fits

-- A ledger that is always busy.
abbrev busy : ℕ → LedgerCall → Result Rejection ℕ
busy _ _ = err (record { code = sys_transient; message = "busy" })

-- One failed record with a fee of 1 ICP, cleaned up twice.
abbrev failing : Factory
failing = record factory {
  deployment_records = (sample_id, record sample_record { status = deployment_failed }) ∷ [];
}

failing-OwnersMatch : OwnersMatch failing
unfolding get_user_account lookup
failing-OwnersMatch u = ground arith

failing-due : due (failed_records failing) ≡ 100000000
unfolding get_deployment_records_by_status get_all_deployment_records deployment_status_eq
failing-due = refl

process_failed_deployments_twice_example :
    let first = (process_failed_deployments admin_call failing).1 in
    let second = (process_failed_deployments later_call first).1 in
    (total_balance first ≡ total_balance failing + due (failed_records failing))
    × (total_balance second ≡ total_balance first + due (failed_records failing))
    × (second.deployment_records ≡ failing.deployment_records)
process_failed_deployments_twice_example =
    process_failed_deployments_twice admin_call later_call failing failing-OwnersMatch
      (omega (arith, failing-due))
