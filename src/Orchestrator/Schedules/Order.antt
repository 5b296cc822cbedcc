-- ===== src/Orchestrator/Schedules/Order.antt =====
-- The order in which the repositories of a schedule are given: sorting by the position in the stored
-- ordering (repositories/schedule.repository.ts).
use yucca.Common.{
  ℕ, suc, ◌==◌, ==_iff, ◌≡◌, refl, ap, sym, ◌∙◌, ◌≢◌, ◌<◌, inl, inr, true, ◌||◌, List, [], ◌∷◌,
  arith, Bool-cases, leb,
}
use yucca.Common.Sets.{contains, Unique, nat_Eq}
use yucca.Orchestrator.Schedules.{position, insert_by, sort_by}

-- every key is below the keys that follow it
abbrev Asc : (ℕ → ℕ) → List ℕ → Type 0
Asc key [] = Unit {0}
Asc key (x ∷ xs) = ((p : ℕ) → contains xs p ≡ true → key x < key p) × Asc key xs

contains-insert_by :
    (key : ℕ → ℕ) (x : ℕ) (ys : List ℕ) (p : ℕ)
    → contains (insert_by key x ys) p ≡ ((x == p) || contains ys p)
contains-insert_by key x [] p = refl
contains-insert_by key x (y ∷ ys) p = ground (arith, contains-insert_by key x ys p)

contains-sort_by : (key : ℕ → ℕ) (xs : List ℕ) (p : ℕ) → contains (sort_by key xs) p ≡ contains xs p
contains-sort_by key [] p = refl
contains-sort_by key (x ∷ xs) p =
    ground (arith, contains-insert_by key x (sort_by key xs) p, contains-sort_by key xs p)

insert_by-Asc :
    (key : ℕ → ℕ) (x : ℕ) (ys : List ℕ)
    → ((p : ℕ) → contains ys p ≡ true → key p ≢ key x)
    → Asc key ys
    → Asc key (insert_by key x ys)
insert_by-Asc key x [] n a = (λ p h. absurd (ground arith), tt)
insert_by-Asc key x (y ∷ ys) n (below, a) = elim (Bool-cases (leb (key x) (key y))) [
  | inl le ↦
      rw le ((λ p h. ground (arith, h, le, below p, n p, n y, ==_iff y p, ==_iff y y)), (below, a))
  | inr gt ↦ rw gt (
    (λ p h. ground (arith, h, gt, below p, contains-insert_by key x ys p, ==_iff x p)),
    insert_by-Asc key x ys (λ p h. n p (ground (arith, h))) a,
  )
]

sort_by-Asc :
    (key : ℕ → ℕ) (xs : List ℕ)
    → ((p q : ℕ) → contains xs p ≡ true → contains xs q ≡ true → key p ≡ key q → p ≡ q)
    → Unique xs
    → Asc key (sort_by key xs)
sort_by-Asc key [] i u = tt
sort_by-Asc key (x ∷ xs) i (new, u) =
    insert_by-Asc key x (sort_by key xs)
      (λ p h e.
        let m : contains xs p ≡ true = sym (contains-sort_by key xs p) ∙ h in
        let same : p ≡ x = i p x (ground (arith, m)) (ground (arith, ==_iff x x)) e in
        absurd (cc (ap (contains xs) same, m, new)))
      (sort_by-Asc key xs (λ p q h k e. i p q (ground (arith, h)) (ground (arith, k)) e) u)

-- Two ascending lists with the same members are the same list.
Asc-eq :
    (key : ℕ → ℕ) (xs ys : List ℕ)
    → Asc key xs
    → Asc key ys
    → ((p : ℕ) → contains xs p ≡ contains ys p)
    → xs ≡ ys
Asc-eq key [] [] a b m = refl
Asc-eq key [] (y ∷ ys) a b m = absurd (ground (arith, m y, ==_iff y y))
Asc-eq key (x ∷ xs) [] a b m = absurd (ground (arith, m x, ==_iff x x))
Asc-eq key (x ∷ xs) (y ∷ ys) (ax, a) (by, b) m =
    let heads : x ≡ y = ground (arith, m x, m y, ax y, by x, ==_iff x x, ==_iff y y) in
    let tails =
      Asc-eq key xs ys a b (λ p. ground (arith, m p, ax p, by p, heads, ==_iff x p, ==_iff y p)) in
    cc (heads, tails)

Asc-suc :
    (key key' : ℕ → ℕ) (xs : List ℕ)
    → ((p : ℕ) → contains xs p ≡ true → key' p ≡ suc (key p))
    → Asc key xs
    → Asc key' xs
Asc-suc key key' [] e a = tt
Asc-suc key key' (x ∷ xs) e (below, a) = (
  (λ p h. ground (arith, h, below p, e p, e x, ==_iff x x)),
  Asc-suc key key' xs (λ p h. e p (ground (arith, h))) a,
)

position-contains : (xs : List ℕ) (p : ℕ) → contains xs p ≡ true → 0 < position xs p
position-contains [] p h = absurd (ground arith)
position-contains (x ∷ xs) p h = ground (arith, h, position-contains xs p)

position-inj :
    (xs : List ℕ) (p q : ℕ)
    → contains xs p ≡ true
    → contains xs q ≡ true
    → position xs p ≡ position xs q
    → p ≡ q
position-inj [] p q h k e = absurd (ground arith)
position-inj (x ∷ xs) p q h k e = ground (
  arith,
  h,
  k,
  e,
  position-inj xs p q,
  position-contains xs p,
  position-contains xs q,
  ==_iff x p,
  ==_iff x q,
)

position-Asc : (xs : List ℕ) → Unique xs → Asc (position xs) xs
position-Asc [] u = tt
position-Asc (x ∷ xs) (new, u) = (
  (λ p h. ground (arith, h, new, position-contains xs p, ==_iff x p, ==_iff x x)),
  Asc-suc (position xs) (position (x ∷ xs)) xs
      (λ p h. ground (arith, h, new, position-contains xs p, ==_iff x p)) (position-Asc xs u),
)

pub sort_by-position :
    (requested xs : List ℕ)
    → Unique requested
    → Unique xs
    → ((p : ℕ) → contains xs p ≡ contains requested p)
    → sort_by (position requested) xs ≡ requested
sort_by-position requested xs r u m =
    Asc-eq (position requested) (sort_by (position requested) xs) requested
      (sort_by-Asc (position requested) xs
        (λ p q h k e. position-inj requested p q (sym (m p) ∙ h) (sym (m q) ∙ k) e) u)
      (position-Asc requested r) (λ p. contains-sort_by (position requested) xs p ∙ m p)
