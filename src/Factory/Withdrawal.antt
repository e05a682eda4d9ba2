-- ===== src/Factory/Withdrawal.antt =====
-- `withdraw_funds` of src/factory/src/payment.rs: the administrator's withdrawal and its retries.
-- The replies of the ledger are a function of the call and the number of calls made before.
pub mod Attempts
use hunter_fi.Base.{
  ◌∷◌, ◌++◌, [], List, ℕ, zero, suc, ◌+◌, ◌-◌, Bool, true, false, Option, none, some, String, eqb,
  ltb, leb, ◌&&◌, if◌then◌else◌, ◌==◌, nat_eq, Result, ok, err,
}
use hunter_fi.Common.Types.{Principal, anonymous}
use hunter_fi.Factory.Types.{
  of_num_message, Message, plain, of_num, of_message, of_rejection, RejectionCode, sys_transient,
  Call,
}
use hunter_fi.Factory.Payment.{
  transfer_args, max_deposit_amount, icp_transfer_fee, max_withdrawal_retries, min_cycles_balance,
  Rejection, LedgerCall,
}

unfoldable pub is_temporary_error : RejectionCode → Bool
is_temporary_error sys_transient = true
is_temporary_error _ = false

abbrev pub error_text : Rejection → Message
error_text r = of_rejection "code={:?}, message={}" r.code r.message

-- The result with the calls of the ledger that were made, in order.
abbrev pub Called : Type 0
Called = Result Message (Unit {0}) × List LedgerCall

abbrev pub give_up : ℕ → Message → List LedgerCall → Called
give_up retries last_error calls =
    (err (of_num_message "Withdrawal failed after {} attempts: {}" retries last_error), calls)

module _ (reply : ℕ → LedgerCall → Result Rejection ℕ) where
  -- The `while` loop, with fuel, on the calls that were made before.
  unfoldable pub attempts : LedgerCall → ℕ → ℕ → Message → List LedgerCall → Called
  unfolding is_temporary_error
  attempts request zero retries last_error calls = give_up retries last_error calls
  attempts request (suc f) retries last_error calls =
      let calls' = calls ++ request ∷ [] in
      let again = λ (e : Message). attempts request f (retries + 1) e calls' in
      if ltb retries max_withdrawal_retries
      then elim (reply retries request) [
        | ok _ ↦ (ok tt, calls')
        | err r ↦
            if is_temporary_error r.code && ltb (retries + 1) max_withdrawal_retries
            then if eqb (retries + 1) (max_withdrawal_retries - 1)
              then give_up (retries + 1) (error_text r) calls'
              else again (error_text r)
            else give_up (retries + 1) (error_text r) calls'
      ]
      else give_up retries last_error calls

  -- The checks, and the loop from no retries. Three rounds of fuel are enough, since each round
  -- ends the loop or counts a retry.
  unfoldable pub withdraw_funds : Option Principal → Call → Principal → ℕ → Called
  unfolding attempts
  withdraw_funds ledger_id c recipient amount =
      if eqb amount 0
      then (err (plain "Withdrawal amount must be greater than 0"), [])
      else if ltb max_deposit_amount amount
      then (err (of_num "Withdrawal amount cannot exceed {} ICP" max_deposit_amount), [])
      else if recipient == anonymous
      then (err (plain "Cannot withdraw to anonymous identity"), [])
      else if ltb c.cycles min_cycles_balance
      then (
        err (
            of_num "Canister cycles balance too low for safe operation. Current balance: {} cycles"
              c.cycles),
        [],
      )
      else elim ledger_id [
        | none ↦ (err (plain "Invalid ICP ledger ID"), [])
        | some ledger ↦
            attempts
              (record {
                ledger = ledger;
                args = transfer_args c recipient amount (plain "Withdrawal from HunterFi Factory");
              })
              3 0 (plain "Unknown error") []
      ]
