-- ===== src/Database/Pages.antt =====
-- Pages of a table: utils/pagination.ts of packages/yucca-api and of packages/yucca-admin-api, and the
-- queries that use them (`ORDER BY`, a `WHERE` on the cursor, `LIMIT limit + 1`). A cursor is a number,
-- like the ids and the times that it is.
pub mod Order
pub mod Walk
use yucca.Common.{
  ℕ, zero, suc, Bool, Option, none, some, List, [], ◌∷◌, ◌++◌, length, take, get_last?, select, leb,
  if◌then◌else◌,
}

pub record Page (A : Type 0) : Type 0 where
  pub items : List A
  pub next_cursor : Option ℕ

-- `Number.parseInt(limit)` of a string of digits, or `DEFAULT_PAGE_SIZE`
abbrev pub resolve_limit : Option ℕ → ℕ
resolve_limit none = 50
resolve_limit (some n) = n

module _ {A : Type 0} where
  -- yucca-api's `toCursorPage`: `none` is the `TypeError` of `getCursor(items.at(-1)!)` on no items.
  abbrev pub to_cursor_page : List A → ℕ → (A → ℕ) → Option (Page A)
  to_cursor_page rows limit get_cursor =
      if leb (length rows) limit
      then some (record { items = rows; next_cursor = none })
      else elim (get_last? (take limit rows)) [
        | none ↦ none
        | some last ↦
            some (record { items = take limit rows; next_cursor = some (get_cursor last) })
      ]

  -- yucca-admin-api's `toCursorPage`, where `items.at(-1)?.id ?? null` is no error
  abbrev pub to_id_page : List A → ℕ → (A → ℕ) → Page A
  to_id_page rows limit id =
      if leb (length rows) limit then record { items = rows; next_cursor = none } else record {
        items = take limit rows;
        next_cursor = elim (get_last? (take limit rows)) [
          | none ↦ none
          | some last ↦ some (id last)
        ];
      }

  abbrev insert_by : (A → A → Bool) → A → List A → List A
  insert_by before x [] = x ∷ []
  insert_by before x (y ∷ ys) = if before x y then x ∷ y ∷ ys else y ∷ insert_by before x ys

  -- `ORDER BY`
  abbrev pub order_by : (A → A → Bool) → List A → List A
  order_by before [] = []
  order_by before (x ∷ xs) = insert_by before x (order_by before xs)

  -- `WHERE` on the cursor, if there is one
  abbrev pub where_cursor : (ℕ → A → Bool) → Option ℕ → List A → List A
  where_cursor after none rows = rows
  where_cursor after (some c) rows = select (after c) rows

  -- A client that asks for the next page until there is no cursor: `none` when a request fails or
  -- the fuel runs out.
  abbrev pub walk : ℕ → (Option ℕ → Option (Page A)) → Option ℕ → Option (List A)
  walk zero list cursor = none
  walk (suc fuel) list cursor = elim (list cursor) [
    | none ↦ none
    | some page ↦ elim page.next_cursor [
      | none ↦ some page.items
      | some c ↦ elim (walk fuel list (some c)) [
        | none ↦ none
        | some rest ↦ some (page.items ++ rest)
      ]
    ]
  ]
