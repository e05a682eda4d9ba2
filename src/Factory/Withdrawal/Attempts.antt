-- ===== src/Factory/Withdrawal/Attempts.antt =====
-- How often `withdraw_funds` calls the ledger, with what, and what it returns.
use hunter_fi.Base.{
  ℕ, Bool, true, false, not, ◌&&◌, ◌==◌, nat_eq, leb, none, some, [], ◌∷◌, Result, ok, err,
}
use hunter_fi.Common.Types.{Principal, anonymous}
use hunter_fi.Factory.Types.{Call, plain}
use hunter_fi.Factory.Payment.{Rejection, LedgerCall, max_deposit_amount, min_cycles_balance}
use hunter_fi.Factory.Withdrawal.{Called, is_temporary_error, give_up, error_text}

-- The call that pays `amount` to `recipient`, with a fee of 10000.
abbrev pub admin_payout : Principal → Call → Principal → ℕ → LedgerCall
admin_payout ledger c recipient amount = record {
  ledger = ledger;
  args = record {
    to = record { owner = recipient; subaccount = none };
    amount = amount;
    fee = some 10000;
    memo = some (plain "Withdrawal from HunterFi Factory");
    created_at_time = some c.time;
  };
}

-- What the replies to the first and the second of two equal calls decide.
abbrev pub second : LedgerCall → Result Rejection ℕ → Called
second q (ok _) = (ok tt, q ∷ q ∷ [])
second q (err r) = give_up 2 (error_text r) (q ∷ q ∷ [])

abbrev pub by_replies : LedgerCall → Result Rejection ℕ → Result Rejection ℕ → Called
by_replies q (ok _) next = (ok tt, q ∷ [])
by_replies q (err r) next = elim (is_temporary_error r.code) [
  | true ↦ second q next
  | false ↦ give_up 1 (error_text r) (q ∷ [])
]

-- The withdrawals that pass the checks.
abbrev pub is_allowed : Call → Principal → ℕ → Bool
is_allowed c recipient amount =
    leb 1 amount
    && leb amount max_deposit_amount
    && not (recipient == anonymous)
    && leb min_cycles_balance c.cycles
