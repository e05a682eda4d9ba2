-- ===== src/Base/Keeps.antt =====
-- Invariants of actions: what an action keeps, it keeps whether it succeeds or fails, and composed
-- actions keep what their parts keep.
use hunter_fi.Base.Outcome.{
  Result, ok, err, Action, pure, fail, from_result, modify, gets, fail_if, with_err, ◌>>=◌,
}
use hunter_fi.Base.Tests.{if◌then◌else◌}
use mathlib.Core.Option.{Option, none, some}
use mathlib.Core.Bool.{Bool, true, false}

pub record Keeps {S E A : Type 0} (I : S → Type 0) (m : Action S E A) : Type 0 where
  pub keeps : (s : S) → I s → I (m s).1

module _ {S E : Type 0} {I : S → Type 0} where
  pub pure-Keeps : {A : Type 0} (a : A) → Keeps {E = E} I (pure a)
  pure-Keeps a = record { keeps = λ s h. h }

  pub fail-Keeps : {A : Type 0} (e : E) → Keeps {A = A} I (fail e)
  fail-Keeps e = record { keeps = λ s h. h }

  pub from_result-Keeps : {A : Type 0} (r : Result E A) → Keeps I (from_result r)
  from_result-Keeps r = record { keeps = λ s h. h }

  pub gets-Keeps : {A : Type 0} (f : S → A) → Keeps {E = E} I (gets f)
  gets-Keeps f = record { keeps = λ s h. h }

  pub fail_if-Keeps : (b : Bool) (e : E) → Keeps I (fail_if b e)
  fail_if-Keeps true e = record { keeps = λ s h. h }
  fail_if-Keeps false e = record { keeps = λ s h. h }

  pub modify-Keeps : (f : S → S) → ((s : S) → I s → I (f s)) → Keeps {E = E} I (modify f)
  modify-Keeps f k = record { keeps = k }

module _ {S E F A : Type 0} {I : S → Type 0} where
  pub with_err-Keeps : {m : Action S E A} (f : E → F) → Keeps I m → Keeps I (with_err f m)
  with_err-Keeps f k = record { keeps = k.keeps }

module _ {S E A B : Type 0} where
  abbrev goes : Result E A × S → (A → Action S E B) → Result E B × S
  goes out f = elim out.0 [ ok a ↦ f a out.1 | err e ↦ (err e, out.1) ]

module _ {S E A B : Type 0} {I : S → Type 0} where
  go_on :
      (out : Result E A × S) (f : A → Action S E B)
      → I out.1
      → ((a : A) → Keeps I (f a))
      → I (goes out f).1
  go_on (ok a, s) f h k = (k a).keeps s h
  go_on (err e, s) f h k = h

  pub >>=-Keeps :
      {m : Action S E A} {f : A → Action S E B}
      → Keeps I m
      → ((a : A) → Keeps I (f a))
      → Keeps I (m >>= f)
  >>=-Keeps {m} {f} k l = record { keeps = λ s h. go_on (m s) f (k.keeps s h) l }

-- Branches.
module _ {S E A : Type 0} where
  abbrev on_option : {B : Type 0} → Action S E A → (B → Action S E A) → Option B → Action S E A
  on_option m f none = m
  on_option m f (some b) = f b

  abbrev on_result :
      {F B : Type 0} → (F → Action S E A) → (B → Action S E A) → Result F B → Action S E A
  on_result g f (ok b) = f b
  on_result g f (err e) = g e

module _ {S E A : Type 0} {I : S → Type 0} where
  pub if-Keeps :
      {m n : Action S E A} (b : Bool) → Keeps I m → Keeps I n → Keeps I (if b then m else n)
  if-Keeps true k l = k
  if-Keeps false k l = l

  pub option-Keeps :
      {B : Type 0} {m : Action S E A} {f : B → Action S E A} (o : Option B)
      → Keeps I m
      → ((b : B) → Keeps I (f b))
      → Keeps I (on_option m f o)
  option-Keeps none k l = k
  option-Keeps (some b) k l = l b

  pub result-Keeps :
      {F B : Type 0} {g : F → Action S E A} {f : B → Action S E A} (r : Result F B)
      → ((e : F) → Keeps I (g e))
      → ((b : B) → Keeps I (f b))
      → Keeps I (on_result g f r)
  result-Keeps (ok b) k l = l b
  result-Keeps (err e) k l = k e
