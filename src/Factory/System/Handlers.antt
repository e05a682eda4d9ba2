-- ===== src/Factory/System/Handlers.antt =====
-- The handlers of payments and of the administrators keep the factory's state well-formed.
use hunter_fi.Base.{
  ℕ, ◌≡◌, refl, true, false, not, none, some, nat_eq, Result, ok, err, Action, arith,
}
use hunter_fi.Base.Keeps.{
  Keeps, pure-Keeps, from_result-Keeps, gets-Keeps, fail_if-Keeps, modify-Keeps, with_err-Keeps,
  >>=-Keeps,
}
use hunter_fi.Base.Words.{u64_max}
use hunter_fi.Common.Types.{Principal, refunded}
use hunter_fi.Common.Calls.{Call, Rejection}
use hunter_fi.Factory.Types.{
  plain, of_message, of_id, transfer_failed, refund, admin_adjustment, withdrawal, deposit,
  DeploymentId, deployment_fee, Message, of_num, insufficient_balance, system_error, Factory,
}
use hunter_fi.Factory.State.{
  get_deployment_record, set_fee, get_user_account, require_admin, check_user_balance,
}
use hunter_fi.Factory.Payment.{
  validate_amount, process_balance_payment, process_balance_refund, ignored, deposit_settle,
  withdraw_settle,
}
use hunter_fi.Factory.Api.{add_admin, remove_admin, set_deployment_fee, adjust_balance}
use hunter_fi.Factory.Api.Admins.{IsGoverned, add_admin-IsGoverned, remove_admin-IsGoverned}
use hunter_fi.Factory.System.Sound.{
  IsSound, frame-IsSound, recorded-Keeps, update_user_balance-Keeps, update_deployment_status-Keeps,
}

require_admin-Keeps : (c : Call) → Keeps IsSound (require_admin c)
unfolding require_admin
require_admin-Keeps c = record { keeps = λ s h. ground (arith, h) }

pub process_balance_payment-Keeps :
    (c : Call) (u : Principal) (x : ℕ) (purpose : Message)
    → Keeps IsSound (process_balance_payment c u x purpose)
unfolding process_balance_payment
process_balance_payment-Keeps c u x purpose =
    >>=-Keeps (from_result-Keeps (validate_amount x 1 u64_max "Payment")) (λ _.
      >>=-Keeps (gets-Keeps (check_user_balance u x)) (λ b.
        >>=-Keeps
          (fail_if-Keeps (not b)
            (insufficient_balance (of_num "{:.8} ICP required, but your balance is too low" x)))
          (λ _.
            >>=-Keeps (with_err-Keeps system_error (update_user_balance-Keeps c u x false))
              (λ _. recorded-Keeps c u x deployment_fee purpose))))

pub ignored-Keeps :
    {E F A : Type 0} {m : Action Factory E A} → Keeps IsSound m → Keeps {E = F} IsSound (ignored m)
ignored-Keeps k = record { keeps = k.keeps }

pub process_balance_refund-Keeps :
    (c : Call) (u : Principal) (x : ℕ) (id : DeploymentId)
    → Keeps IsSound (process_balance_refund c u x id)
unfolding process_balance_refund
process_balance_refund-Keeps c u x id =
    >>=-Keeps (from_result-Keeps (validate_amount x 1 u64_max "Refund")) (λ _.
      >>=-Keeps (with_err-Keeps system_error (update_user_balance-Keeps c u x true)) (λ _.
        >>=-Keeps (recorded-Keeps c u x refund (of_id "Refund for deployment: {}" id)) (λ _.
          ignored-Keeps (
            update_deployment_status-Keeps c id refunded none
              (some (plain "Deployment fee refunded"))))))

pub deposit_settle-Keeps :
    (c : Call) (u : Principal) (x : ℕ) (reply : Result Rejection ℕ)
    → Keeps IsSound (deposit_settle c u x reply)
unfolding deposit_settle
deposit_settle-Keeps c u x (ok _) =
    >>=-Keeps (with_err-Keeps system_error (update_user_balance-Keeps c u x true)) (λ b.
      >>=-Keeps (recorded-Keeps c u x deposit (of_num "Deposit of {:.8} ICP" x))
        (λ _. pure-Keeps b))
deposit_settle-Keeps c u x (err r) =
    from_result-Keeps (err (transfer_failed (of_message "Deposit failed: {}" (plain r.message))))

pub withdraw_settle-Keeps :
    (c : Call) (u : Principal) (x : ℕ) (reply : Result Rejection ℕ)
    → Keeps IsSound (withdraw_settle c u x reply)
unfolding withdraw_settle
withdraw_settle-Keeps c u x (ok _) =
    >>=-Keeps (with_err-Keeps system_error (update_user_balance-Keeps c u x false)) (λ b.
      >>=-Keeps (recorded-Keeps c u x withdrawal (of_num "Withdrawal of {:.8} ICP" x))
        (λ _. pure-Keeps b))
withdraw_settle-Keeps c u x (err r) =
    from_result-Keeps (err (transfer_failed (of_message "Withdrawal failed: {}" (plain r.message))))

-- A change of the administrators alone.
governed-IsSound :
    (s t : Factory)
    → t.user_accounts ≡ s.user_accounts
    → t.deployment_records ≡ s.deployment_records
    → IsGoverned t
    → IsSound s
    → IsSound t
unfolding get_user_account get_deployment_record
governed-IsSound s t a r g h =
    let k = frame-IsSound s (record t { admins = s.admins }) a r refl h in
    record { owners = k.owners; ids = k.ids; unique = k.unique; governed = g }

add_admin_frame :
    (c : Call) (p : Principal) (s : Factory)
    → ((add_admin c p s).1.user_accounts ≡ s.user_accounts)
      × ((add_admin c p s).1.deployment_records ≡ s.deployment_records)
unfolding add_admin require_admin
add_admin_frame c p s = ground arith

remove_admin_frame :
    (c : Call) (p : Principal) (s : Factory)
    → ((remove_admin c p s).1.user_accounts ≡ s.user_accounts)
      × ((remove_admin c p s).1.deployment_records ≡ s.deployment_records)
unfolding remove_admin require_admin
remove_admin_frame c p s = ground arith

set_fee_keeps : (c : Call) (fee : ℕ) (s : Factory) → IsSound s → IsSound (set_fee c fee s).1
unfolding set_fee
set_fee_keeps c fee =
    (>>=-Keeps (require_admin-Keeps c) (λ _.
      modify-Keeps (λ s. record s { deployment_fee = fee })
        (λ s h. frame-IsSound s (record s { deployment_fee = fee }) refl refl refl h))).keeps

pub add_admin-Keeps : (c : Call) (p : Principal) → Keeps IsSound (add_admin c p)
add_admin-Keeps c p = record {
  keeps = λ s h.
      governed-IsSound s (add_admin c p s).1 (add_admin_frame c p s).0 (add_admin_frame c p s).1
        (add_admin-IsGoverned c p s h.governed) h;
}

pub remove_admin-Keeps : (c : Call) (p : Principal) → Keeps IsSound (remove_admin c p)
remove_admin-Keeps c p = record {
  keeps = λ s h.
      governed-IsSound s (remove_admin c p s).1 (remove_admin_frame c p s).0
        (remove_admin_frame c p s).1 (remove_admin-IsGoverned c p s h.governed) h;
}

pub set_deployment_fee-Keeps : (c : Call) (fee : ℕ) → Keeps IsSound (set_deployment_fee c fee)
unfolding set_deployment_fee
set_deployment_fee-Keeps c fee =
    >>=-Keeps (require_admin-Keeps c)
      (λ _. modify-Keeps (λ s. (set_fee c fee s).1) (set_fee_keeps c fee))

pub adjust_balance-Keeps :
    (c : Call) (u : Principal) (x : ℕ) (reason : Message)
    → Keeps IsSound (adjust_balance c u x reason)
unfolding adjust_balance
adjust_balance-Keeps c u x reason = >>=-Keeps (require_admin-Keeps c) (λ _.
    >>=-Keeps (update_user_balance-Keeps c u x true)
      (λ _. recorded-Keeps c u x admin_adjustment reason))
