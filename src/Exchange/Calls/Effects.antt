-- ===== src/Exchange/Calls/Effects.antt =====
-- What each call of a pool, and each way to fund a trade, asks for, as the first step of an action.
use hunter_fi.Base.{◌≡◌, ok, ℕ, List, [], ◌∷◌, ◌>>=◌, Action}
use hunter_fi.Common.Types.{Principal}
use hunter_fi.Exchange.Types.{ExchangeError, TokenInfo}
use hunter_fi.Exchange.Requests.{
  Request, Session, IcpSwapSwapArgs, IcpSwapAmountArgs, IcpSwapPoolData, get_pool, quote, swap,
  deposit, deposit_from, withdraw,
}
use hunter_fi.Exchange.Trace.{Logged, logged}
use hunter_fi.Exchange.Emits.{Emits, last-Emits, ask->>=-Emits}
use hunter_fi.Exchange.Calls.{
  reply_of-ok, pool_args, get_pool_canister, call_quote, call_swap, call_deposit, call_deposit_from,
  call_withdraw,
}

module _ {W B : Type 0} (self : Session W) {P : B → List Request → Type 0}
    {f : IcpSwapPoolData → Action (Logged W) ExchangeError B} where
  -- The first call is answered in the state that the action began in.
  pub get_pool_canister->>=-Emits :
      (base quoted : TokenInfo) (s : Logged W)
      → ((a : IcpSwapPoolData)
          → (self.net.ask
              (get_pool self.connector.factory_canister_id (pool_args (logged self) base quoted))
              s.1).0
            ≡ ok (ok a)
          → (s' : Logged W)
          → s'.1
            ≡ (self.net.ask
                (get_pool self.connector.factory_canister_id (pool_args (logged self) base quoted))
                s.1).1
          → Emits
              (λ b more. P b (
                get_pool self.connector.factory_canister_id (pool_args (logged self) base quoted)
                ∷ more))
              s'.0
              (f a s'))
      → Emits P s.0 ((get_pool_canister (logged self) base quoted >>= f) s)
  unfolding get_pool_canister
  get_pool_canister->>=-Emits base quoted s h =
      ask->>=-Emits _ _ s.0 _ (λ a e. h a (reply_of-ok "Failed to call getPool: {:?} - {}" _ e))

module _ {W B : Type 0} (self : Session W) {P : B → List Request → Type 0}
    {f : ℕ → Action (Logged W) ExchangeError B} where
  pub call_quote->>=-Emits :
      (pool : Principal) (args : IcpSwapSwapArgs) (s : Logged W)
      → ((a : ℕ)
          → (self.net.ask (quote pool args) s.1).0 ≡ ok (ok a)
          → (s' : Logged W) → Emits (λ b more. P b (quote pool args ∷ more)) s'.0 (f a s'))
      → Emits P s.0 ((call_quote (logged self) pool args >>= f) s)
  unfolding call_quote
  call_quote->>=-Emits pool args s h =
      ask->>=-Emits _ _ s.0 _
        (λ a e s' _. h a (reply_of-ok "Failed to call quote: {:?} - {}" _ e) s')

  pub call_swap->>=-Emits :
      (pool : Principal) (args : IcpSwapSwapArgs)
      → ((a : ℕ) (s : Logged W) → Emits (λ b more. P b (swap pool args ∷ more)) s.0 (f a s))
      → (s : Logged W) → Emits P s.0 ((call_swap (logged self) pool args >>= f) s)
  unfolding call_swap
  call_swap->>=-Emits pool args h s = ask->>=-Emits _ _ s.0 _ (λ a _ s' _. h a s')

  pub call_deposit->>=-Emits :
      (pool : Principal) (args : IcpSwapAmountArgs)
      → ((a : ℕ) (s : Logged W) → Emits (λ b more. P b (deposit pool args ∷ more)) s.0 (f a s))
      → (s : Logged W) → Emits P s.0 ((call_deposit (logged self) pool args >>= f) s)
  unfolding call_deposit
  call_deposit->>=-Emits pool args h s = ask->>=-Emits _ _ s.0 _ (λ a _ s' _. h a s')

  pub call_deposit_from->>=-Emits :
      (pool : Principal) (args : IcpSwapAmountArgs)
      → ((a : ℕ) (v : W)
          → (self.net.ask (deposit_from pool args) v).0 ≡ ok (ok a)
          → (s : Logged W) → Emits (λ b more. P b (deposit_from pool args ∷ more)) s.0 (f a s))
      → (s : Logged W) → Emits P s.0 ((call_deposit_from (logged self) pool args >>= f) s)
  unfolding call_deposit_from
  call_deposit_from->>=-Emits pool args h s =
      ask->>=-Emits _ _ s.0 _
        (λ a e s' _. h a s.1 (reply_of-ok "Failed to call depositFrom: {:?} - {}" _ e) s')

  pub call_withdraw->>=-Emits :
      (pool : Principal) (args : IcpSwapAmountArgs)
      → ((a : ℕ) (v : W)
          → (self.net.ask (withdraw pool args) v).0 ≡ ok (ok a)
          → (s : Logged W) → Emits (λ b more. P b (withdraw pool args ∷ more)) s.0 (f a s))
      → (s : Logged W) → Emits P s.0 ((call_withdraw (logged self) pool args >>= f) s)
  unfolding call_withdraw
  call_withdraw->>=-Emits pool args h s =
      ask->>=-Emits _ _ s.0 _
        (λ a e s' _. h a s.1 (reply_of-ok "Failed to call withdraw: {:?} - {}" _ e) s')

module _ {W : Type 0} (self : Session W) where
  pub call_swap-Emits :
      {P : ℕ → List Request → Type 0} (pool : Principal) (args : IcpSwapSwapArgs) (s : Logged W)
      → ((a : ℕ) → (self.net.ask (swap pool args) s.1).0 ≡ ok (ok a) → P a (swap pool args ∷ []))
      → Emits P s.0 (call_swap (logged self) pool args s)
  unfolding call_swap
  call_swap-Emits pool args s h =
      last-Emits _ _ s.0 _ (λ a e. h a (reply_of-ok "Failed to call swap: {:?} - {}" _ e))
