-- ===== src/Factory/State/Totals.antt =====
-- The money that the factory owes: the sum of all balances.
use hunter_fi.Base.{ℕ, ◌+◌, ◌≤◌, ◌≡◌, true, false, [], ◌∷◌, nat_eq, arith}
use hunter_fi.Base.Words.{u64_max}
use hunter_fi.Base.Dict.{Dict, lookup, insert}
use hunter_fi.Common.Types.{Principal}
use hunter_fi.Factory.Types.{UserAccount, Call, Factory}
use hunter_fi.Factory.State.{
  or_new, get_user_account, store_user_account, credit, debit, update_user_balance,
}
use hunter_fi.Factory.State.Accounts.{OwnersMatch}

abbrev pub sum_balances : Dict Principal UserAccount → ℕ
sum_balances [] = 0
sum_balances ((_, a) ∷ d) = a.balance + sum_balances d

abbrev pub total_balance : Factory → ℕ
total_balance s = sum_balances s.user_accounts

pub sum_balances-insert :
    (u : Principal) (a : UserAccount) (d : Dict Principal UserAccount)
    → sum_balances (insert u a d) + (or_new u (lookup u d)).balance ≡ sum_balances d + a.balance
unfolding insert lookup
sum_balances-insert u a [] = ground arith
sum_balances-insert u a ((v, b) ∷ d) = ground (arith, sum_balances-insert u a d)

pub total_balance-store :
    (a : UserAccount) (s : Factory)
    → total_balance (store_user_account a s) + (get_user_account a.owner s).balance
      ≡ total_balance s + a.balance
unfolding store_user_account get_user_account
total_balance-store a s = sum_balances-insert a.owner a s.user_accounts

-- A deposit that fits a `u64` raises the sum by its amount.
pub total_balance-deposit :
    (c : Call) (u : Principal) (x : ℕ) (s : Factory)
    → OwnersMatch s
    → (get_user_account u s).balance + x ≤ u64_max
    → total_balance (update_user_balance c u x true s).1 ≡ total_balance s + x
unfolding update_user_balance credit
total_balance-deposit c u x s m fits =
    ground (arith, m u, total_balance-store (credit c x (get_user_account u s)) s)

-- A covered deduction lowers it by its amount.
pub total_balance-deduct :
    (c : Call) (u : Principal) (x : ℕ) (s : Factory)
    → OwnersMatch s
    → x ≤ (get_user_account u s).balance
    → total_balance (update_user_balance c u x false s).1 + x ≡ total_balance s
unfolding update_user_balance debit
total_balance-deduct c u x s m covered =
    ground (arith, m u, total_balance-store (debit x (get_user_account u s)) s)
