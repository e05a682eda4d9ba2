-- ===== src/Exchange/Emits.antt =====
-- The requests of an action that succeeds, one after the other, with what it returns.
use hunter_fi.Base.{
  ok-injective, ◌≡◌, refl, sym, ap, ◌∙◌, List, [], ◌∷◌, ◌++◌, Result, ok, err, Action, from_result,
  ◌>>=◌,
}
use mathlib.Core.Path.{subst}
use mathlib.Core.List.{append_assoc, append-nil}
use hunter_fi.Exchange.Types.{ExchangeError}
use hunter_fi.Exchange.Requests.{Request}
use hunter_fi.Exchange.Trace.{Logged}

-- An outcome that began with the log `log` is an error, or a value and a list of requests that `P`
-- holds of.
pub record Emits {A W : Type 0} (P : A → List Request → Type 0) (log : List Request)
    (out : Result ExchangeError A × Logged W) : Type 0 where
  pub requests :
      (a : A) → out.0 ≡ ok a → (asked : List Request) × (out.1.0 ≡ log ++ asked) × P a asked

module _ {A W : Type 0} {P : A → List Request → Type 0} where
  pub done-Emits : (a : A) (s : Logged W) → P a [] → Emits P s.0 (ok a, s)
  done-Emits a s p = record {
    requests = λ b e. ([], sym (append-nil s.0), subst (λ x. P x []) (ok-injective e) p);
  }

  -- An action that asks nothing.
  pub quiet-Emits :
      (r : Result ExchangeError A)
      → ((a : A) → r ≡ ok a → P a [])
      → (s : Logged W) → Emits P s.0 (r, s)
  quiet-Emits r h s = record { requests = λ a e. ([], sym (append-nil s.0), h a e) }

  pub last-Emits :
      (q : Request) (r : Result ExchangeError A) (log : List Request) (w : W)
      → ((a : A) → r ≡ ok a → P a (q ∷ []))
      → Emits P log (r, (log ++ q ∷ [], w))
  last-Emits q r log w h = record { requests = λ a e. (q ∷ [], refl, h a e) }

module _ {A B W : Type 0} where
  go_on :
      (P : B → List Request → Type 0) (R : A → Type 0) (log script : List Request)
      (out : Result ExchangeError A × Logged W) (f : A → Action (Logged W) ExchangeError B)
      → Emits (λ a asked. (asked ≡ script) × R a) log out
      → ((a : A) → R a → (s : Logged W) → Emits (λ b more. P b (script ++ more)) s.0 (f a s))
      → Emits {A = B} {W = W} P log (elim out.0 [ ok a ↦ f a out.1 | err e ↦ (err e, out.1) ])
  go_on P R log script (ok a, s) f h g = record {
    requests = λ b e.
        let (asked, l, (exact, ra)) = h.requests a refl in
        let (more, l', p) = (g a ra s).requests b e in
        (
          script ++ more,
          l' ∙ ap (λ x. x ++ more) (l ∙ ap (λ x. log ++ x) exact) ∙ append_assoc log script more,
          p,
        );
  }
  go_on P R log script (err e, s) f h g = record { requests = λ b wrong. cc }

  -- An action that asks exactly the requests of `script` first, and whose value satisfies `R`.
  pub >>=-Emits :
      {P : B → List Request → Type 0} {R : A → Type 0} {m : Action (Logged W) ExchangeError A}
      {f : A → Action (Logged W) ExchangeError B} (script : List Request)
      → ((s : Logged W) → Emits (λ a asked. (asked ≡ script) × R a) s.0 (m s))
      → ((a : A) → R a → (s : Logged W) → Emits (λ b more. P b (script ++ more)) s.0 (f a s))
      → (s : Logged W) → Emits P s.0 ((m >>= f) s)
  >>=-Emits {P} {R} {m} {f} script h g s = go_on P R s.0 script (m s) f (h s) g

  -- The same from the state `s` on, which `R` may speak of.
  pub >>=-Emits_at :
      {P : B → List Request → Type 0} {R : A → Type 0} {f : A → Action (Logged W) ExchangeError B}
      (m : Action (Logged W) ExchangeError A) (script : List Request) (s : Logged W)
      → Emits (λ a asked. (asked ≡ script) × R a) s.0 (m s)
      → ((a : A) → R a → (s' : Logged W) → Emits (λ b more. P b (script ++ more)) s'.0 (f a s'))
      → Emits P s.0 ((m >>= f) s)
  >>=-Emits_at {P} {R} {f} m script s h g = go_on P R s.0 script (m s) f h g

module _ {A B W : Type 0} {f : A → Action (Logged W) ExchangeError B} where
  pub from_result->>=-Emits :
      {P : Logged W → B → List Request → Type 0} (r : Result ExchangeError A)
      → ((a : A) → r ≡ ok a → (s : Logged W) → Emits (P s) s.0 (f a s))
      → (s : Logged W) → Emits (P s) s.0 ((from_result r >>= f) s)
  from_result->>=-Emits (ok a) h s = h a refl s
  from_result->>=-Emits (err e) h s = record { requests = λ b wrong. cc }

  -- An action that asks `q` first, and goes on in the world `w`.
  pub ask->>=-Emits :
      {P : B → List Request → Type 0} (q : Request) (r : Result ExchangeError A)
      (log : List Request) (w : W)
      → ((a : A)
          → r ≡ ok a
          → (s : Logged W) → s.1 ≡ w
          → Emits (λ b more. P b (q ∷ more)) s.0 (f a s))
      → Emits {A = B} {W = W} P log
          (elim r [ ok a ↦ f a (log ++ q ∷ [], w) | err e ↦ (err e, (log ++ q ∷ [], w)) ])
  ask->>=-Emits q (ok a) log w h = record {
    requests = λ b e.
        let (asked, l, p) = (h a refl (log ++ q ∷ [], w) refl).requests b e in
        (q ∷ asked, l ∙ append_assoc log (q ∷ []) asked, p);
  }
  ask->>=-Emits q (err e) log w h = record { requests = λ b wrong. cc }

-- What an action that succeeds has asked for.
pub Emits-ok :
    {A W : Type 0} {P : A → List Request → Type 0} {log : List Request}
    {out : Result ExchangeError A × Logged W} {a : A} {s : Logged W}
    → Emits P log out
    → out ≡ (ok a, s)
    → (asked : List Request) × (s.0 ≡ log ++ asked) × P a asked
Emits-ok {a} h e =
    let (asked, l, p) = h.requests a (ap (λ o. o.0) e) in (asked, sym (ap (λ o. o.1.0) e) ∙ l, p)
