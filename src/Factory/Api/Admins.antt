-- ===== src/Factory/Api/Admins.antt =====
-- Who may do what: the administrators, and the guards of the entry points.
use hunter_fi.Base.{
  ℕ, ◌+◌, ◌≤◌, ◌≡◌, false, not, Option, List, [], ◌∷◌, ◌++◌, length, length-append, contains, ◌==◌,
  nat_eq, Result, err, arith, refl, ◌||◌, ◌&&◌,
}
use hunter_fi.Common.Types.{Principal, anonymous}
use hunter_fi.Factory.Types.{DeploymentId, Message, plain, Call, Factory}
use hunter_fi.Factory.State.{is_admin, require_admin}
use hunter_fi.Factory.Payment.{Rejection}
use hunter_fi.Factory.Api.{
  LedgerCall, set_insert, set_remove, add_admin, remove_admin, set_deployment_fee, adjust_balance,
  withdraw_icp, force_execute_deployment,
}

abbrev pub NodupAdmins : List Principal → Type 0
NodupAdmins [] = Unit
NodupAdmins (p ∷ ps) = (contains ps p ≡ false) × NodupAdmins ps

contains-append :
    (p q : Principal) (xs : List Principal) → contains (xs ++ q ∷ []) p ≡ (contains xs p || p == q)
contains-append p q [] = ground arith
contains-append p q (x ∷ xs) = ground (arith, contains-append p q xs)

-- Membership after `insert` and `remove`.
contains-set_insert :
    (p q : Principal) (xs : List Principal)
    → contains (set_insert q xs) p ≡ (contains xs p || p == q)
contains-set_insert p q xs = ground (arith, contains-append p q xs)

contains-set_remove :
    (p q : Principal) (xs : List Principal)
    → contains (set_remove q xs) p ≡ (contains xs p && not (p == q))
contains-set_remove p q [] = ground arith
contains-set_remove p q (x ∷ xs) = ground (arith, contains-set_remove p q xs)

-- Removing one of two or more different administrators leaves one.
length-set_remove_absent :
    (q : Principal) (xs : List Principal)
    → contains xs q ≡ false
    → length (set_remove q xs) ≡ length xs
length-set_remove_absent q [] h = refl
length-set_remove_absent q (x ∷ xs) h = ground (arith, length-set_remove_absent q xs)

length-set_remove :
    (q : Principal) (xs : List Principal)
    → NodupAdmins xs
    → length xs ≤ length (set_remove q xs) + 1
length-set_remove q [] u = omega arith
length-set_remove q (x ∷ xs) (fresh, u) =
    ground (arith, length-set_remove q xs u, length-set_remove_absent q xs)

-- The administrators form a set that is not empty and does not hold the anonymous principal.
pub record IsGoverned (s : Factory) : Type 0 where
  pub distinct : NodupAdmins s.admins
  pub inhabited : 1 ≤ length s.admins
  pub named : contains s.admins anonymous ≡ false

NodupAdmins-append :
    (q : Principal) (xs : List Principal)
    → NodupAdmins xs
    → contains xs q ≡ false
    → NodupAdmins (xs ++ q ∷ [])
NodupAdmins-append q [] u h = ground arith
NodupAdmins-append q (x ∷ xs) (fresh, u) h =
    ground (arith, NodupAdmins-append q xs u, contains-append x q xs)

NodupAdmins-set_remove :
    (q : Principal) (xs : List Principal) → NodupAdmins xs → NodupAdmins (set_remove q xs)
NodupAdmins-set_remove q [] u = tt
NodupAdmins-set_remove q (x ∷ xs) (fresh, u) =
    ground (arith, NodupAdmins-set_remove q xs u, contains-set_remove x q xs)

-- Adding an administrator, whoever asks and whether or not it is refused, keeps the set of
-- administrators free of duplicates and of the anonymous principal, and not empty.
pub add_admin-IsGoverned :
    (c : Call) (p : Principal) (s : Factory) → IsGoverned s → IsGoverned (add_admin c p s).1
unfolding add_admin require_admin
add_admin-IsGoverned c p s g = ground (
  arith,
  NodupAdmins-append p s.admins g.distinct,
  contains-append anonymous p s.admins,
  length-append s.admins (p ∷ []),
)

-- Removing an administrator, whoever asks and whether or not it is refused, keeps the set of
-- administrators free of duplicates and of the anonymous principal, and not empty.
pub remove_admin-IsGoverned :
    (c : Call) (p : Principal) (s : Factory) → IsGoverned s → IsGoverned (remove_admin c p s).1
unfolding remove_admin require_admin
remove_admin-IsGoverned c p s g = ground (
  arith,
  NodupAdmins-set_remove p s.admins g.distinct,
  contains-set_remove anonymous p s.admins,
  length-set_remove p s.admins g.distinct,
  length-set_remove_absent p s.admins,
)

abbrev pub Refused : {A : Type 0} → Factory → Result Message A × Factory → Type 0
Refused s p = (p.0 ≡ err (plain "Caller is not authorized to perform this action")) × (p.1 ≡ s)

-- Nobody but an administrator changes the administrators, the fee or a balance by hand, withdraws
-- the factory's funds or starts an execution again: the call is refused and changes nothing, and the ledger is not called.
pub not_admin-Refused :
    (c : Call) (s : Factory) (p : Principal) (n : ℕ) (reason : Message) (id : DeploymentId)
    (reply : ℕ → LedgerCall → Result Rejection ℕ) (ledger_id : Option Principal)
    → is_admin c s ≡ false
    → Refused s (add_admin c p s)
      × Refused s (remove_admin c p s)
      × Refused s (set_deployment_fee c n s)
      × Refused s (adjust_balance c p n reason s)
      × Refused s (withdraw_icp reply ledger_id c p n s).0
      × ((withdraw_icp reply ledger_id c p n s).1 ≡ [])
      × Refused s (force_execute_deployment c id s)
unfolding add_admin remove_admin set_deployment_fee adjust_balance withdraw_icp
    force_execute_deployment require_admin
not_admin-Refused c s p n reason id reply ledger_id h = ground arith
