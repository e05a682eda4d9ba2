-- ===== src/Factory/State/Accounts.antt =====
-- What `update_user_balance` and the operations on it do to the accounts.
use hunter_fi.Base.{
  ℕ, ◌+◌, ◌≤◌, ◌<◌, ◌≡◌, Bool, true, false, ltb, if◌then◌else◌, ◌==◌, nat_eq, ok, err, arith,
  Bool-cases, inl, inr,
}
use hunter_fi.Base.Words.{u64_max}
use hunter_fi.Base.Dict.{lookup-insert}
use hunter_fi.Common.Types.{Principal}
use hunter_fi.Factory.Types.{UserAccount, of_nums, Call, Factory}
use hunter_fi.Factory.State.{
  get_user_account, store_user_account, credit, debit, update_user_balance,
}

-- Every account is stored under its owner.
abbrev pub OwnersMatch : Factory → Type 0
OwnersMatch s = (u : Principal) → (get_user_account u s).owner ≡ u

pub get_user_account-store :
    (v : Principal) (a : UserAccount) (s : Factory)
    → get_user_account v (store_user_account a s)
      ≡ (if v == a.owner then a else get_user_account v s)
unfolding get_user_account store_user_account
get_user_account-store v a s = ground (arith, lookup-insert v a.owner a s.user_accounts)

abbrev pub accounts_after : Factory → Principal → UserAccount → Principal → UserAccount
accounts_after s u a v = if v == u then a else get_user_account v s

-- With every account stored under its owner: a deposit returns the new balance, credits the
-- account of the user and leaves every other account alone.
pub update_user_balance-credit :
    (c : Call) (u : Principal) (amount : ℕ) (s : Factory) (v : Principal)
    → OwnersMatch s
    → ((update_user_balance c u amount true s).0
        ≡ ok (credit c amount (get_user_account u s)).balance)
      × (get_user_account v (update_user_balance c u amount true s).1
          ≡ accounts_after s u (credit c amount (get_user_account u s)) v)
unfolding update_user_balance credit
update_user_balance-credit c u amount s v m =
    ground (arith, m u, get_user_account-store v (credit c amount (get_user_account u s)) s)

-- With every account stored under its owner: a deduction that the balance covers returns the new
-- balance, debits the account of the user and leaves every other account alone.
pub update_user_balance-debit :
    (c : Call) (u : Principal) (amount : ℕ) (s : Factory) (v : Principal)
    → OwnersMatch s
    → amount ≤ (get_user_account u s).balance
    → ((update_user_balance c u amount false s).0
        ≡ ok (debit amount (get_user_account u s)).balance)
      × (get_user_account v (update_user_balance c u amount false s).1
          ≡ accounts_after s u (debit amount (get_user_account u s)) v)
unfolding update_user_balance debit
update_user_balance-debit c u amount s v m h =
    ground (arith, m u, get_user_account-store v (debit amount (get_user_account u s)) s)

-- A deduction that the balance does not cover changes nothing, and names both amounts.
pub update_user_balance_short :
    (c : Call) (u : Principal) (amount : ℕ) (s : Factory)
    → (get_user_account u s).balance < amount
    → update_user_balance c u amount false s ≡ (
      err (
          of_nums "Insufficient balance: current balance {} e8s, required {} e8s"
            (get_user_account u s).balance
            amount),
      s,
    )
unfolding update_user_balance
update_user_balance_short c u amount s h = ground arith

-- What the factory's books say of one account: it is stored under its owner, it holds what was
-- deposited less what was consumed, and the deposits fit a `u64`.
pub record IsBooked (u : Principal) (a : UserAccount) : Type 0 where
  pub owned : a.owner ≡ u
  pub balanced : a.balance + a.total_consumed ≡ a.total_deposited
  pub bounded : a.total_deposited ≤ u64_max

abbrev pub AllBooked : Factory → Type 0
AllBooked s = (u : Principal) → IsBooked u (get_user_account u s)

pub AllBooked-OwnersMatch : (s : Factory) → AllBooked s → OwnersMatch s
AllBooked-OwnersMatch s h u = (h u).owned

pub credit-IsBooked :
    (c : Call) (u : Principal) (x : ℕ) (a : UserAccount)
    → IsBooked u a
    → a.total_deposited + x ≤ u64_max
    → IsBooked u (credit c x a)
unfolding credit
credit-IsBooked c u x a h fits = ground arith

pub debit-IsBooked :
    (u : Principal) (x : ℕ) (a : UserAccount)
    → IsBooked u a
    → x ≤ a.balance
    → IsBooked u (debit x a)
unfolding debit
debit-IsBooked u x a h covered = ground arith

-- Storing a booked account keeps the books.
pub store-AllBooked :
    (u : Principal) (a : UserAccount) (s : Factory)
    → AllBooked s
    → IsBooked u a
    → AllBooked (store_user_account a s)
store-AllBooked u a s h b v = rw get_user_account-store (elim (Bool-cases (v == a.owner)) [
  | inl same ↦ rw same (let e : v ≡ u = ground arith in rw e b)
  | inr other ↦ rw other (h v)
])

-- A change of a balance, a deposit or a deduction, keeps every account booked, if the deposits of
-- the user and the amount together fit a `u64`: the account is stored under its owner, its balance
-- and what was consumed add up to what was deposited, and that fits a `u64`.
pub update_user_balance-AllBooked :
    (c : Call) (u : Principal) (x : ℕ) (is_deposit : Bool) (s : Factory)
    → AllBooked s
    → (get_user_account u s).total_deposited + x ≤ u64_max
    → AllBooked (update_user_balance c u x is_deposit s).1
unfolding update_user_balance
update_user_balance-AllBooked c u x true s h fits =
    store-AllBooked u (credit c x (get_user_account u s)) s h
      (credit-IsBooked c u x (get_user_account u s) (h u) fits)
update_user_balance-AllBooked c u x false s h fits =
    elim (Bool-cases (ltb (get_user_account u s).balance x)) [
      | inl short ↦ rw short h
      | inr covered ↦ rw covered (
          store-AllBooked u (debit x (get_user_account u s)) s h
            (debit-IsBooked u x (get_user_account u s) (h u) (ground arith)))
    ]
