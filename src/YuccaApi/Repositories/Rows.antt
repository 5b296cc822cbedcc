-- ===== src/YuccaApi/Repositories/Rows.antt =====
-- The row of an id under the queries of the repositories.
use yucca.Common.{ℕ, ◌==◌, ◌≡◌, refl, ◌≢◌, Option, none, some, List, [], ◌∷◌, ◌++◌, find, arith}
use yucca.Database.{Repository, update_rows, delete_rows}
use yucca.YuccaApi.Repositories.{UpdateDto, change}

abbrev pub row_in : ℕ → List Repository → Option Repository
row_in id = find (λ r. r.id == id)

pub row_in-append :
    (id : ℕ) (rows : List Repository) (x r : Repository)
    → row_in id rows ≡ some r
    → row_in id (rows ++ x ∷ []) ≡ some r
row_in-append id [] x r e = cc
row_in-append id (y ∷ rows) x r e = ground (arith, row_in-append id rows x r)

pub row_in-update_self :
    (id : ℕ) (dto : UpdateDto) (rows : List Repository) (r : Repository)
    → row_in id rows ≡ some r
    → row_in id (update_rows (λ x. x.id == id) (change dto) rows) ≡ some (change dto r)
row_in-update_self id dto [] r e = cc
row_in-update_self id dto (y ∷ rows) r e = ground (arith, row_in-update_self id dto rows r)

pub row_in-update_ne :
    (id other : ℕ) (dto : UpdateDto) (rows : List Repository)
    → other ≢ id
    → row_in id (update_rows (λ x. x.id == other) (change dto) rows) ≡ row_in id rows
row_in-update_ne id other dto [] n = refl
row_in-update_ne id other dto (y ∷ rows) n = ground (arith, row_in-update_ne id other dto rows n)

pub row_in-delete_ne :
    (id other : ℕ) (rows : List Repository)
    → other ≢ id
    → row_in id (delete_rows (λ x. x.id == other) rows) ≡ row_in id rows
row_in-delete_ne id other [] n = refl
row_in-delete_ne id other (y ∷ rows) n = ground (arith, row_in-delete_ne id other rows n)

pub row_in-delete_self :
    (id : ℕ) (rows : List Repository) → row_in id (delete_rows (λ x. x.id == id) rows) ≡ none
row_in-delete_self id [] = refl
row_in-delete_self id (y ∷ rows) = ground (arith, row_in-delete_self id rows)
