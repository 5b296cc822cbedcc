-- ===== src/Database/Pages/Walk.antt =====
-- A client that follows the cursors from the first page on sees every row once, in order.
use mathlib.Core.List.{append_assoc}
use yucca.Common.{
  ℕ, zero, suc, ◌≤◌, ◌<◌, ◌≡◌, refl, ap, ◌∙◌, inl, inr, Bool, Option, none, some, List, [], ◌∷◌,
  ◌++◌, length, take, get_last?, leb, arith, Bool-cases, take_all,
}
use yucca.Database.Rows.{Distinct}
use yucca.Database.Pages.{Page, to_cursor_page, to_id_page, insert_by, order_by, where_cursor, walk}
use yucca.Database.Pages.Order.{IsOrder, Sorted, order-Sorted, select-after}

module _ {A : Type 0} (key : A → ℕ) (before : A → A → Bool) (after : ℕ → A → Bool) where
  -- A full page is what comes before and at its last row.
  pub record IsCut (limit : ℕ) (rows : List A) : Type 0 where
    pub init : List A
    pub last : A
    pub rest : List A
    pub whole : rows ≡ init ++ last ∷ rest
    pub ends : get_last? (take limit rows) ≡ some last
    pub page : take limit rows ≡ init ++ last ∷ []

  pub cut : (limit : ℕ) (rows : List A) → 1 ≤ limit → limit ≤ length rows → IsCut limit rows
  cut zero rows p h = absurd (omega arith)
  cut (suc n) [] p h = absurd (omega arith)
  cut (suc zero) (x ∷ xs) p h = record {
    init = [];
    last = x;
    rest = xs;
    whole = refl;
    ends = refl;
    page = refl;
  }
  cut (suc (suc n)) (x ∷ []) p h = absurd (omega arith)
  cut (suc (suc n)) (x ∷ y ∷ ys) p h =
      let c = cut (suc n) (y ∷ ys) (omega arith) (omega arith) in
      record {
        init = x ∷ c.init;
        last = c.last;
        rest = c.rest;
        whole = ap (λ t. x ∷ t) c.whole;
        ends = c.ends;
        page = ap (λ t. x ∷ t) c.page;
      }

  -- the rows of a request, as `execute` gives them
  abbrev rows_from : ℕ → List A → Option ℕ → List A
  rows_from limit rows cursor = take (suc limit) (where_cursor after cursor rows)

  abbrev list_from : ℕ → List A → Option ℕ → Option (Page A)
  list_from limit rows cursor = to_cursor_page (rows_from limit rows cursor) limit key

  take-take : (n : ℕ) (xs : List A) → take n (take (suc n) xs) ≡ take n xs
  take-take zero xs = refl
  take-take (suc n) [] = refl
  take-take (suc n) (x ∷ xs) = ap (λ t. x ∷ t) (take-take n xs)

  leb-take : (n : ℕ) (xs : List A) → leb (length (take (suc n) xs)) n ≡ leb (length xs) n
  leb-take zero [] = refl
  leb-take zero (x ∷ xs) = ground arith
  leb-take (suc n) [] = refl
  leb-take (suc n) (x ∷ xs) = ground (arith, leb-take n xs)

  pub length-middle : (xs : List A) (x : A) (ys : List A) → length ys < length (xs ++ x ∷ ys)
  length-middle [] x ys = omega arith
  length-middle (z ∷ xs) x ys = omega (arith, length-middle xs x ys)

  last_page :
      (limit : ℕ) (rows : List A)
      → length rows ≤ limit
      → to_cursor_page (take (suc limit) rows) limit key
        ≡ some (record { items = rows; next_cursor = none })
  last_page limit rows h = ground (arith, leb-take limit rows, take_all (suc limit) rows)

  full_page :
      (limit : ℕ) (rows : List A) (last : A)
      → limit < length rows
      → get_last? (take limit rows) ≡ some last
      → to_cursor_page (take (suc limit) rows) limit key
        ≡ some (record { items = take limit rows; next_cursor = some (key last) })
  full_page limit rows last h e = ground (arith, leb-take limit rows, take-take limit rows)

  walk_rest :
      (order : IsOrder key before after) (limit fuel : ℕ) (seen todo rows : List A)
      (cursor : Option ℕ)
      → 1 ≤ limit
      → Sorted key before after rows
      → rows ≡ seen ++ todo
      → where_cursor after cursor rows ≡ todo
      → length todo < fuel
      → walk fuel (list_from limit rows) cursor ≡ some todo
  walk_rest order limit zero seen todo rows cursor p s e w h = absurd (omega arith)
  walk_rest order limit (suc fuel) seen todo rows cursor p s e w h =
      elim (Bool-cases (leb (length todo) limit)) [
        | inl short ↦ ground (arith, last_page limit todo)
        | inr more ↦
            let c = cut limit todo p (ground arith) in
            let split : rows ≡ (seen ++ c.init) ++ c.last ∷ c.rest =
              cc (e, c.whole, append_assoc seen c.init (c.last ∷ c.rest)) in
            let next : where_cursor after (some (key c.last)) rows ≡ c.rest = rw split (
              select-after key before after order (seen ++ c.init) c.last c.rest (rw split at s)) in
            let rest =
              walk_rest order limit fuel ((seen ++ c.init) ++ c.last ∷ []) c.rest rows
                (some (key c.last)) p s
                (cc (split, append_assoc (seen ++ c.init) (c.last ∷ []) c.rest)) next (less c) in
            let joined : take limit todo ++ c.rest ≡ todo =
              cc (c.page, c.whole, append_assoc c.init (c.last ∷ []) c.rest) in
            ground (arith, full_page limit todo c.last, c.ends)
      ]
    where
      less : (c : IsCut limit todo) → length c.rest < fuel
      less c = let m = length-middle c.init c.last c.rest in ground (arith, c.whole)

  length-insert : (x : A) (ys : List A) → length (insert_by before x ys) ≡ suc (length ys)
  length-insert x [] = refl
  length-insert x (y ∷ ys) = ground (arith, length-insert x ys)

  length-order : (xs : List A) → length (order_by before xs) ≡ length xs
  length-order [] = refl
  length-order (x ∷ xs) = ground (arith, length-insert x (order_by before xs), length-order xs)

  pub walk-cursor :
      (order : IsOrder key before after) (limit fuel : ℕ) (rows : List A)
      → 1 ≤ limit
      → Distinct key rows
      → length rows < fuel
      → walk fuel
          (λ cursor.
            to_cursor_page
              (take (suc limit) (where_cursor after cursor (order_by before rows)))
              limit
              key)
          none
        ≡ some (order_by before rows)
  walk-cursor order limit fuel rows p d h =
      walk_rest order limit fuel [] (order_by before rows) (order_by before rows) none p
        (order-Sorted key before after order rows d) refl refl (ground (arith, length-order rows))

  to_id_page-eq :
      (limit : ℕ) (rows : List A)
      → 1 ≤ limit
      → some (to_id_page rows limit key) ≡ to_cursor_page rows limit key
  to_id_page-eq limit rows p = elim (Bool-cases (leb (length rows) limit)) [
    | inl short ↦ ground arith
    | inr more ↦ let c = cut limit rows p (ground arith) in ground (arith, c.ends)
  ]

  pub walk-id :
      (order : IsOrder key before after) (limit fuel : ℕ) (rows : List A)
      → 1 ≤ limit
      → Distinct key rows
      → length rows < fuel
      → walk fuel
          (λ cursor. some (
            to_id_page
              (take (suc limit) (where_cursor after cursor (order_by before rows)))
              limit
              key))
          none
        ≡ some (order_by before rows)
  walk-id order limit fuel rows p d h =
      ap (λ list. walk fuel list none)
        (λ i cursor. to_id_page-eq limit (rows_from limit (order_by before rows) cursor) p i)
      ∙ walk-cursor order limit fuel rows p d h
