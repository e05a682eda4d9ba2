-- ===== src/Base/Outcome.antt =====
-- Rust's `Result<T, E>`, and a state-passing action that ends in one.
use mathlib.Core.Path.{ap, ◌≡◌, refl}
use mathlib.Core.Logic.{◌⊎◌, inl, inr}
use mathlib.Core.Bool.{Bool, true, false}

pub data Result {ℓ κ} (E : Type ℓ) (A : Type κ) : Type (ℓ ⊔ κ) where
  ok : A → Result E A
  err : E → Result E A

pub ok-injective {ℓ κ} :
    {E : Type ℓ} {A : Type κ} {a b : A} → ◌≡◌ {A = Result E A} (ok a) (ok b) → a ≡ b
ok-injective e = cc e

pub Result-cases {ℓ κ} :
    {E : Type ℓ} {A : Type κ} (r : Result E A) → ((a : A) × (r ≡ ok a)) ⊎ ((e : E) × (r ≡ err e))
Result-cases (ok a) = inl (a, refl)
Result-cases (err e) = inr (e, refl)

-- `map_err`
abbrev pub map_err {ℓ κ μ} :
    {E : Type ℓ} {F : Type κ} {A : Type μ} → (E → F) → Result E A → Result F A
map_err f (ok a) = ok a
map_err f (err e) = err (f e)

pub map_err-eq-ok {ℓ κ μ} :
    {E : Type ℓ} {F : Type κ} {A : Type μ} (f : E → F) (r : Result E A) {a : A}
    → map_err f r ≡ ok a
    → r ≡ ok a
map_err-eq-ok f (ok b) e = ap ok (ok-injective e)
map_err-eq-ok f (err x) e = cc

-- State `S` is kept when the action fails: what was written stays written.
abbrev pub Action : Type 0 → Type 0 → Type 0 → Type 0
Action S E A = S → Result E A × S

module _ {S E : Type 0} where
  abbrev pub pure : {A : Type 0} → A → Action S E A
  pure a s = (ok a, s)

  abbrev pub fail : {A : Type 0} → E → Action S E A
  fail e s = (err e, s)

  -- A call that reads and writes no state.
  abbrev pub from_result : {A : Type 0} → Result E A → Action S E A
  from_result r s = (r, s)

  abbrev pub modify : (S → S) → Action S E (Unit {0})
  modify f s = (ok tt, f s)

  abbrev pub gets : {A : Type 0} → (S → A) → Action S E A
  gets f s = (ok (f s), s)

  -- `if c { return Err(e); }`
  abbrev pub fail_if : Bool → E → Action S E (Unit {0})
  fail_if true e s = (err e, s)
  fail_if false e s = (ok tt, s)

  infixl 5 ◌>>=◌ ◌>>◌
  abbrev pub ◌>>=◌ : {A B : Type 0} → Action S E A → (A → Action S E B) → Action S E B
  ◌>>=◌ m f s = let (r, s') = m s in elim r [ ok a ↦ f a s' | err e ↦ (err e, s') ]

  abbrev pub ◌>>◌ : {A B : Type 0} → Action S E A → Action S E B → Action S E B
  m >> k = m >>= λ _. k

-- `m.map_err(f)`
abbrev pub with_err : {S E F A : Type 0} → (E → F) → Action S E A → Action S F A
with_err f m s = let (r, s') = m s in (map_err f r, s')

-- Inversion of a composed action that succeeds.
pub >>=-eq-ok :
    {S E A B : Type 0} (m : Action S E A) (f : A → Action S E B) (s : S) {b : B} {t : S}
    → ◌≡◌ {A = Result E B × S} ((m >>= f) s) (ok b, t)
    → (a : A) × (u : S) × ◌≡◌ {A = Result E A × S} (m s) (ok a, u)
      × ◌≡◌ {A = Result E B × S} (f a u) (ok b, t)
>>=-eq-ok {S} {E} {A} {B} m f s {b} {t} e = invert (m s) refl e
  where
    invert :
        (out : Result E A × S)
        → m s ≡ out
        → ◌≡◌ {A = Result E B × S}
            (elim out.0 [ ok a ↦ f a out.1 | err x ↦ (err x, out.1) ])
            (ok b, t)
        → (a : A) × (u : S) × ◌≡◌ {A = Result E A × S} (m s) (ok a, u)
          × ◌≡◌ {A = Result E B × S} (f a u) (ok b, t)
    invert (ok a, u) p q = (a, u, p, q)
    invert (err x, u) p q = cc
