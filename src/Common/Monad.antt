-- ===== src/Common/Monad.antt =====
-- An `async` method: it changes a state and returns a value or throws. What was written before a
-- throw stays written.
use mathlib.Core.Path.{◌≡◌, refl, sym, subst}
use mathlib.Core.Logic.{◌⊎◌, inl, inr}
use mathlib.Core.Bool.{Bool, true, false}
use mathlib.Core.Option.{Option, none, some}
use native.Mathlib.Omega.{arith}
use yucca.Common.Tests.{if◌then◌else◌}

pub data Result (E A : Type 0) : Type 0 where
  ok : A → Result E A
  err : E → Result E A

abbrev pub Action : Type 0 → Type 0 → Type 0 → Type 0
Action E S A = S → Result E A × S

pub Result-cases :
    {E A : Type 0} (r : Result E A) → ((a : A) × (r ≡ ok a)) ⊎ ((e : E) × (r ≡ err e))
Result-cases (ok a) = inl (a, refl)
Result-cases (err e) = inr (e, refl)

module _ {E S A : Type 0} where
  abbrev pub pure : A → Action E S A
  pure a s = (ok a, s)

  abbrev pub throw : E → Action E S A
  throw e s = (err e, s)

  abbrev pub gets : (S → A) → Action E S A
  gets f s = (ok (f s), s)

  -- `executeTakeFirstOrThrow` and its like
  abbrev pub or_throw : Option A → E → Action E S A
  or_throw none e s = (err e, s)
  or_throw (some a) e s = (ok a, s)

  -- `try { m } catch (e) { h(e) }`
  abbrev pub catch : Action E S A → (E → Action E S A) → Action E S A
  catch m h s = let (r, s') = m s in elim r [ ok a ↦ (ok a, s') | err e ↦ h e s' ]

  abbrev pub value : Result E A × S → Result E A
  value p = p.0

  abbrev pub state : Result E A × S → S
  state p = p.1

infixl 5 ◌>>=◌ ◌>>◌
abbrev pub ◌>>=◌ : {E S A B : Type 0} → Action E S A → (A → Action E S B) → Action E S B
◌>>=◌ m f s = let (r, s') = m s in elim r [ ok a ↦ f a s' | err e ↦ (err e, s') ]

abbrev pub ◌>>◌ : {E S A B : Type 0} → Action E S A → Action E S B → Action E S B
m >> k = m >>= λ _. k

module _ {E S : Type 0} where
  abbrev pub throw_if : Bool → E → Action E S (Unit {0})
  throw_if b e s = (if b then err e else ok tt, s)

  abbrev pub modify : (S → S) → Action E S (Unit {0})
  modify f s = (ok tt, f s)

  abbrev pub skip : Action E S (Unit {0})
  skip s = (ok tt, s)

  -- a statement under an `if`
  abbrev pub when : Bool → Action E S (Unit {0}) → Action E S (Unit {0})
  when true m = m
  when false m = skip

-- a property of the state that a method keeps, whatever it answers
pub record Keeps {E S A : Type 0} (P : S → Type 0) (m : Action E S A) : Type 0 where
  pub keep : (s : S) → P s → P (m s).1

pub bind-Keeps :
    {E S A B : Type 0} {P : S → Type 0} {m : Action E S A} {f : A → Action E S B}
    → Keeps P m
    → ((a : A) → Keeps P (f a))
    → Keeps P (m >>= f)
bind-Keeps {P = P} {m = m} {f = f} k l = record {
  keep = λ s h. elim (Result-cases (m s).0) [
    | inl (a, good) ↦
        let e : ((m >>= f) s).1 ≡ (f a (m s).1).1 = ground (arith, good) in
        subst P (sym e) ((l a).keep (m s).1 (k.keep s h))
    | inr (x, bad) ↦
        let e : ((m >>= f) s).1 ≡ (m s).1 = ground (arith, bad) in subst P (sym e) (k.keep s h)
  ];
}

module _ {E S A : Type 0} {P : S → Type 0} where
  pub gets-Keeps : (f : S → A) → Keeps {E = E} P (gets f)
  gets-Keeps f = record { keep = λ s h. h }

  pub pure-Keeps : (a : A) → Keeps {E = E} P (pure a)
  pure-Keeps a = record { keep = λ s h. h }

  pub or_throw-Keeps : (o : Option A) (e : E) → Keeps P (or_throw o e)
  or_throw-Keeps none e = record { keep = λ s h. h }
  or_throw-Keeps (some a) e = record { keep = λ s h. h }

module _ {E S : Type 0} {P : S → Type 0} where
  pub throw_if-Keeps : (b : Bool) (e : E) → Keeps P (throw_if b e)
  throw_if-Keeps b e = record { keep = λ s h. h }

  pub skip-Keeps : Keeps {E = E} P skip
  skip-Keeps = record { keep = λ s h. h }

  pub modify-Keeps : (f : S → S) → ((s : S) → P s → P (f s)) → Keeps {E = E} P (modify f)
  modify-Keeps f k = record { keep = k }

-- for `search`, with what is known of the calls
pub ruleset keeps = (bind-Keeps, gets-Keeps, pure-Keeps, or_throw-Keeps, throw_if-Keeps, skip-Keeps)
