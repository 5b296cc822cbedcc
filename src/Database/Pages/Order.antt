-- ===== src/Database/Pages/Order.antt =====
-- Rows in order: sorting them by a key, and the condition that a cursor puts on them.
use mathlib.Core.List.{Permᴰ}
use yucca.Common.{
  ℕ, ◌≡◌, refl, sym, ◌≢◌, inl, inr, Bool, true, false, List, [], ◌∷◌, ◌++◌, select, arith,
  Bool-cases, All,
}
use yucca.Database.Rows.{Distinct}
use yucca.Database.Pages.{insert_by, order_by}

-- An order of rows by a key, and the condition that a cursor puts on them.
pub record IsOrder {A : Type 0} (key : A → ℕ) (before : A → A → Bool) (after : ℕ → A → Bool)
    : Type 0 where
  pub irrefl : (x : A) → after (key x) x ≡ false
  pub asym : (x y : A) → after (key x) y ≡ true → after (key y) x ≡ false
  pub trans : (x y z : A) → after (key x) y ≡ true → after (key y) z ≡ true → after (key x) z ≡ true
  pub yes : (x y : A) → key x ≢ key y → before x y ≡ true → after (key x) y ≡ true
  pub no : (x y : A) → key x ≢ key y → before x y ≡ false → after (key y) x ≡ true

module _ {A : Type 0} (key : A → ℕ) (before : A → A → Bool) (after : ℕ → A → Bool) where
  abbrev pub Sorted : List A → Type 0
  Sorted [] = Unit {0}
  Sorted (x ∷ xs) = All (λ y. after (key x) y ≡ true) xs × Sorted xs

  All-trans :
      (order : IsOrder key before after) (x y : A) (zs : List A)
      → after (key x) y ≡ true
      → All (λ z. after (key y) z ≡ true) zs
      → All (λ z. after (key x) z ≡ true) zs
  All-trans order x y [] h a = tt
  All-trans order x y (z ∷ zs) h (b, a) = (order.trans x y z h b, All-trans order x y zs h a)

  All-insert :
      (P : A → Type 0) (x : A) (ys : List A) → P x → All P ys → All P (insert_by before x ys)
  All-insert P x [] p a = (p, tt)
  All-insert P x (y ∷ ys) p (b, a) = elim (Bool-cases (before x y)) [
    | inl first ↦ rw first (p, (b, a))
    | inr later ↦ rw later (b, All-insert P x ys p a)
  ]

  All-order : (P : A → Type 0) (xs : List A) → All P xs → All P (order_by before xs)
  All-order P [] a = tt
  All-order P (x ∷ xs) (p, a) = All-insert P x (order_by before xs) p (All-order P xs a)

  insert-Sorted :
      (order : IsOrder key before after) (x : A) (ys : List A)
      → All (λ y. key y ≢ key x) ys
      → Sorted ys
      → Sorted (insert_by before x ys)
  insert-Sorted order x [] n s = (tt, tt)
  insert-Sorted order x (y ∷ ys) (n, ns) (a, s) = elim (Bool-cases (before x y)) [
    | inl first ↦
        let h = order.yes x y (λ e. n (sym e)) first in
        rw first ((h, All-trans order x y ys h a), (a, s))
    | inr later ↦ rw later (
      All-insert (λ z. after (key y) z ≡ true) x ys (order.no x y (λ e. n (sym e)) later) a,
      insert-Sorted order x ys ns s,
    )
  ]

  pub order-Sorted :
      (order : IsOrder key before after) (xs : List A)
      → Distinct key xs
      → Sorted (order_by before xs)
  order-Sorted order [] d = tt
  order-Sorted order (x ∷ xs) (n, d) =
      insert-Sorted order x (order_by before xs) (All-order (λ y. key y ≢ key x) xs n)
        (order-Sorted order xs d)

  perm_refl : (xs : List A) → Permᴰ xs xs
  perm_refl [] = Permᴰ.nil
  perm_refl (x ∷ xs) = Permᴰ.cons refl (perm_refl xs)

  insert-Perm : (x : A) (ys : List A) → Permᴰ (insert_by before x ys) (x ∷ ys)
  insert-Perm x [] = perm_refl (x ∷ [])
  insert-Perm x (y ∷ ys) = elim (Bool-cases (before x y)) [
    | inl first ↦ rw first (perm_refl (x ∷ y ∷ ys))
    | inr later ↦ rw later (Permᴰ.trans (Permᴰ.cons refl (insert-Perm x ys)) (Permᴰ.swap refl refl))
  ]

  -- Sorting keeps the rows.
  pub order-Perm : (xs : List A) → Permᴰ (order_by before xs) xs
  order-Perm [] = Permᴰ.nil
  order-Perm (x ∷ xs) =
      Permᴰ.trans (insert-Perm x (order_by before xs)) (Permᴰ.cons refl (order-Perm xs))

  select-All : (p : A → Bool) (xs : List A) → All (λ x. p x ≡ true) xs → select p xs ≡ xs
  select-All p [] a = refl
  select-All p (x ∷ xs) (h, a) = ground (arith, select-All p xs a)

  Sorted-middle :
      (x : A) (xs ys : List A)
      → All (λ y. after (key x) y ≡ true) (xs ++ ys)
      → All (λ y. after (key x) y ≡ true) ys
  Sorted-middle x [] ys a = a
  Sorted-middle x (z ∷ xs) ys (b, a) = Sorted-middle x xs ys a

  -- The rows after the last one of a page are those that the page left out.
  pub select-after :
      (order : IsOrder key before after) (xs : List A) (x : A) (ys : List A)
      → Sorted (xs ++ x ∷ ys)
      → select (after (key x)) (xs ++ x ∷ ys) ≡ ys
  select-after order [] x ys (a, s) =
      ground (arith, order.irrefl x, select-All (after (key x)) ys a)
  select-after order (z ∷ xs) x ys (a, s) =
      let h : after (key z) x ≡ true = (Sorted-middle z xs (x ∷ ys) a).0 in
      ground (arith, order.asym z x h, select-after order xs x ys s)
