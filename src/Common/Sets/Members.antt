-- ===== src/Common/Sets/Members.antt =====
-- Membership in differences and in lists without repetition.
use mathlib.Core.Path.{◌≡◌, refl, ap}
use mathlib.Core.Logic.{inl, inr}
use mathlib.Core.Bool.{true, false, ◌&&◌, ◌||◌, not}
use mathlib.Core.List.{List, [], ◌∷◌, ◌++◌}
use native.Mathlib.Omega.{arith}
use yucca.Common.Tests.{Bool-cases}
use yucca.Common.Sets.{Eq, contains, difference, dedupe_onto, Unique}

module _ {ℓ} {A : Type ℓ} ⦃e : Eq A⦄ where
  pub contains-eq : (xs : List A) (a b : A) → e.beq a b ≡ true → contains xs a ≡ contains xs b
  contains-eq xs a b h = ap (contains xs) ((e.beq_iff a b).0 h)

  pub contains-difference :
      (xs ys : List A) (p : A)
      → contains (difference xs ys) p ≡ (contains xs p && not (contains ys p))
  contains-difference [] ys p = refl
  contains-difference (x ∷ xs) ys p = elim (Bool-cases (e.beq x p)) [
    | inl same ↦ ground (arith, contains-difference xs ys p, contains-eq ys x p same)
    | inr other ↦ ground (arith, contains-difference xs ys p)
  ]

  pub contains-dedupe_onto :
      (seen xs : List A) (p : A)
      → contains (dedupe_onto seen xs) p ≡ (contains xs p && not (contains seen p))
  contains-dedupe_onto seen [] p = refl
  contains-dedupe_onto seen (x ∷ xs) p = elim (Bool-cases (e.beq x p)) [
    | inl same ↦ ground (
      arith,
      contains-dedupe_onto seen xs p,
      contains-dedupe_onto (x ∷ seen) xs p,
      contains-eq seen x p same,
    )
    | inr other ↦
        ground (arith, contains-dedupe_onto seen xs p, contains-dedupe_onto (x ∷ seen) xs p)
  ]

  pub Unique-difference : (xs ys : List A) → Unique xs → Unique (difference xs ys)
  Unique-difference [] ys u = tt
  Unique-difference (x ∷ xs) ys (n, u) = elim (Bool-cases (contains ys x)) [
    | inl gone ↦ rw gone (Unique-difference xs ys u)
    | inr kept ↦ rw kept (ground (arith, contains-difference xs ys x), Unique-difference xs ys u)
  ]

  pub Unique-dedupe_onto : (seen xs : List A) → Unique (dedupe_onto seen xs)
  Unique-dedupe_onto seen [] = tt
  Unique-dedupe_onto seen (x ∷ xs) = elim (Bool-cases (contains seen x)) [
    | inl old ↦ rw old (Unique-dedupe_onto seen xs)
    | inr new ↦ rw new (
      ground (arith, contains-dedupe_onto (x ∷ seen) xs x, e.beq_iff x x),
      Unique-dedupe_onto (x ∷ seen) xs,
    )
  ]

  pub contains-append :
      (xs ys : List A) (p : A) → contains (xs ++ ys) p ≡ (contains xs p || contains ys p)
  contains-append [] ys p = refl
  contains-append (x ∷ xs) ys p = ground (arith, contains-append xs ys p)

  pub Unique-append :
      (xs ys : List A)
      → Unique xs
      → Unique ys
      → ((p : A) → contains ys p ≡ true → contains xs p ≡ false)
      → Unique (xs ++ ys)
  Unique-append [] ys u v n = v
  Unique-append (x ∷ xs) ys (new, u) v n = (
    ground (arith, contains-append xs ys x, n x, new, e.beq_iff x x),
    Unique-append xs ys u v (λ p h. ground (arith, n p h)),
  )
