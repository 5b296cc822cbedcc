-- ===== src/Common/Sets.antt =====
-- `Set` differences and membership over a type with decidable equality.
pub mod Members
use mathlib.Core.Path.{◌≡◌}
use mathlib.Core.Logic.{◌↔◌}
use mathlib.Core.Bool.{Bool, true, false, ◌||◌}
use mathlib.Core.List.{List, [], ◌∷◌}
use Prim.Native.Nat.{ℕ}
use Prim.Native.String.{String}
use text.Mathlib.Text.{◌==◌ as str_eq}
use text.Mathlib.TextEquality.{eq_iff}
use yucca.Common.Tests.{if◌then◌else◌, ◌==◌ as nat_eq, ==_iff}

pub record Eq {ℓ} (A : Type ℓ) : Type ℓ where
  pub beq : A → A → Bool
  pub beq_iff : (a b : A) → (beq a b ≡ true) ↔ (a ≡ b)

instance abbrev pub nat_Eq : Eq ℕ
nat_Eq = record { beq = nat_eq; beq_iff = ==_iff }

instance abbrev pub string_Eq : Eq String
string_Eq = record { beq = str_eq; beq_iff = eq_iff }

module _ {ℓ} {A : Type ℓ} ⦃e : Eq A⦄ where
  abbrev pub contains : List A → A → Bool
  contains [] a = false
  contains (x ∷ xs) a = e.beq x a || contains xs a

  -- `[...xs].filter((x) => !ys.has(x))`, and `new Set(xs).difference(new Set(ys))`
  abbrev pub difference : List A → List A → List A
  difference [] ys = []
  difference (x ∷ xs) ys = if contains ys x then difference xs ys else x ∷ difference xs ys

  -- `new Set(xs)`, in the order of insertion
  abbrev pub dedupe_onto : List A → List A → List A
  dedupe_onto seen [] = []
  dedupe_onto seen (x ∷ xs) =
      if contains seen x then dedupe_onto seen xs else x ∷ dedupe_onto (x ∷ seen) xs

  abbrev pub dedupe : List A → List A
  dedupe = dedupe_onto []

  -- no element twice
  abbrev pub Unique : List A → Type 0
  Unique [] = Unit {0}
  Unique (x ∷ xs) = (contains xs x ≡ false) × Unique xs
