-- ===== src/Hedging/Funds/Guarded.antt =====
-- Who may move the strategy's funds, and how much of them.
use mathlib.Core.Path.{subst}
use hunter_fi.Base.{
  map_err-eq-ok, from_result, >>=-eq-ok, ℕ, ◌≤◌, ◌≡◌, ap, sym, ◌∙◌, Bool, false, ◌==◌, nat_eq,
  String, ok, err, with_err, arith, ◌>>=◌,
}
use hunter_fi.Common.Types.{Principal}
use hunter_fi.Common.Config.{SelfHedgingConfig}
use hunter_fi.Exchange.Requests.{Session}
use hunter_fi.Hedging.State.{SelfHedgingState, Hedging, no_balance_check, not_owner, verify_owner}
use hunter_fi.Hedging.Funds.{
  Letters, Side, side_of, on_side, verified, withdraw_covered, withdraw_side, check_balance,
  deposit_to_exchange, withdraw_from_exchange,
}

module _ {V : Type 0} (letters : Letters) (fits : SelfHedgingState → Bool) (factory : Principal)
    (self : Session (Hedging × V)) where
  -- Nobody but the owner and the canister itself deposits or withdraws: both are refused without
  -- a call of another canister and without a change.
  pub funds-Refused :
      (token_type : String) (amount : ℕ) (w : Hedging × V)
      → (self.caller == w.0.cell.owner) ≡ false
      → (self.id == self.caller) ≡ false
      → (deposit_to_exchange letters fits factory self token_type amount w ≡ (err not_owner, w))
        × (withdraw_from_exchange letters fits factory self token_type amount w
            ≡ (err not_owner, w))
  unfolding deposit_to_exchange withdraw_from_exchange verified verify_owner
  funds-Refused token_type amount w stranger other = ground arith

  verified_same : (w : Hedging × V) → (verified letters fits factory self w).1 ≡ w
  unfolding verified verify_owner
  verified_same w = ground arith

  withdraw_covered-le :
      (config : SelfHedgingConfig) (side : Side) (amount : ℕ) (balances : ℕ × ℕ)
      (w w' : Hedging × V)
      → withdraw_covered letters fits factory self config side amount balances w ≡ (ok tt, w')
      → amount ≤ on_side side balances.0 balances.1
  unfolding withdraw_covered
  withdraw_covered-le config side amount balances w w' e = ground arith

  -- A withdrawal that succeeds named one of the two tokens, and the balance of that token, which
  -- had been read from the exchange just before, covered it.
  pub withdraw_from_exchange-covered :
      (token_type : String) (amount : ℕ) (w w' : Hedging × V)
      → withdraw_from_exchange letters fits factory self token_type amount w ≡ (ok tt, w')
      → (side : Side) × (balances : ℕ × ℕ) × (side_of letters token_type ≡ ok side)
        × ((check_balance letters fits factory self w).0 ≡ ok balances)
        × (amount ≤ on_side side balances.0 balances.1)
  unfolding withdraw_from_exchange withdraw_side verified
  withdraw_from_exchange-covered token_type amount w w' e =
      let (_, u, owned, e1) =
        >>=-eq-ok (verified letters fits factory self)
          (λ _ w.
            (from_result (side_of letters token_type)
                >>= withdraw_side letters fits factory self w.0.cell.config amount)
              w)
          w e in
      let (side, u', named, e2) =
        >>=-eq-ok (from_result (side_of letters token_type))
          (withdraw_side letters fits factory self u.0.cell.config amount) u e1 in
      let (balances, u'', checked, e3) =
        >>=-eq-ok (with_err no_balance_check (check_balance letters fits factory self))
          (withdraw_covered letters fits factory self u.0.cell.config side amount) u' e2 in
      (
        side,
        balances,
        ap (λ o. o.0) named,
        subst (λ x. (check_balance letters fits factory self x).0 ≡ ok balances)
            (sym (ap (λ o. o.1) named) ∙ sym (ap (λ o. o.1) owned) ∙ verified_same w)
            (map_err-eq-ok no_balance_check (check_balance letters fits factory self u').0
              (ap (λ o. o.0) checked)),
        withdraw_covered-le u.0.cell.config side amount balances u'' w' e3,
      )
