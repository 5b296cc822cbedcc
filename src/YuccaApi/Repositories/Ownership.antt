-- ===== src/YuccaApi/Repositories/Ownership.antt =====
-- An account sees and changes only its own repositories.
use yucca.Common.{
  ℕ, ◌==◌, ==_iff, nat_eq-ne, ◌≡◌, ◌≢◌, ◌↔◌, inl, inr, Bool, some, String, arith, Bool-cases,
  Option-cases,
}
use yucca.Common.Monad.{ok, err}
use yucca.Database.{Db, Repository, unauthorized}
use yucca.YuccaApi.Repositories.{
  View, to_view, row, get, create, update, delete, create_url, UpdateDto, Request,
  create_repository, get_repository, get_repositories, update_repository, delete_repository,
  create_restic_url, request,
}
use yucca.YuccaApi.Repositories.Rows.{row_in-append, row_in-update_ne, row_in-delete_ne}

-- A repository is shown to an account exactly when it exists and belongs to it; otherwise the answer is
-- an error. The tables are not changed.
pub get-ok :
    (auth_id id : ℕ) (db : Db) (v : View)
    → (get auth_id id db ≡ (ok v, db))
      ↔ ((r : Repository) × (row id db ≡ some r) × (r.user_id ≡ auth_id) × (v ≡ to_view db r))
unfolding get to_view
get-ok auth_id id db v = elim (Option-cases (row id db)) [
  | inl absent ↦ (λ e. absurd (ground arith), λ (r, found, _, _). absurd (ground arith))
  | inr (r, found) ↦
      (λ e. (r, found, ground arith, ground arith), λ (x, same, own, view). ground arith)
]

create-others :
    (auth_id id fresh : ℕ) (name : String) (worm : Bool) (db : Db) (r : Repository)
    → row id db ≡ some r
    → row id (create fresh auth_id name worm db).1 ≡ some r
unfolding create
create-others auth_id id fresh name worm db r found =
    let x : Repository = record { id = fresh; user_id = auth_id; worm = worm; name = name } in
    ground (arith, row_in-append id db.repositories x r found)

-- A request for a repository that is not the account's own changes no table.
pub update-refused :
    (auth_id id : ℕ) (dto : UpdateDto) (db : Db) (r : Repository)
    → row id db ≡ some r
    → r.user_id ≢ auth_id
    → update auth_id id dto db ≡ (err (unauthorized "Unauthorized"), db)
unfolding update to_view
update-refused auth_id id dto db r found other = ground arith

pub delete-refused :
    (auth_id id : ℕ) (db : Db) (r : Repository)
    → row id db ≡ some r
    → r.user_id ≢ auth_id
    → delete auth_id id db ≡ (err (unauthorized "Unauthorized"), db)
unfolding delete to_view
delete-refused auth_id id db r found other = ground arith

update-elsewhere :
    (auth_id id other : ℕ) (dto : UpdateDto) (db : Db)
    → other ≢ id
    → row id (update auth_id other dto db).1 ≡ row id db
unfolding update to_view
update-elsewhere auth_id id other dto db n =
    ground (arith, row_in-update_ne id other dto db.repositories n)

delete-elsewhere :
    (auth_id id other : ℕ) (db : Db) → other ≢ id → row id (delete auth_id other db).1 ≡ row id db
unfolding delete to_view
delete-elsewhere auth_id id other db n = ground (arith, row_in-delete_ne id other db.repositories n)

-- Under any request of another account the row of a repository stays as it is.
pub request-others :
    (auth_id id : ℕ) (q : Request) (db : Db) (r : Repository)
    → row id db ≡ some r
    → r.user_id ≢ auth_id
    → row id (request auth_id q db) ≡ some r
unfolding request
request-others auth_id id (create_repository fresh name worm) db r found other =
    create-others auth_id id fresh name worm db r found
request-others auth_id id (get_repository j) db r found other = unfold get in ground arith
request-others auth_id id get_repositories db r found other = found
request-others auth_id id (create_restic_url j) db r found other = unfold create_url in ground arith
request-others auth_id id (update_repository j dto) db r found other = elim (Bool-cases (j == id)) [
  | inl same ↦
      let e : j ≡ id = (==_iff j id).0 same in
      ground (arith, update-refused auth_id id dto db r found other)
  | inr ne ↦ ground (arith, update-elsewhere auth_id id j dto db (nat_eq-ne j id ne))
]
request-others auth_id id (delete_repository j) db r found other = elim (Bool-cases (j == id)) [
  | inl same ↦
      let e : j ≡ id = (==_iff j id).0 same in
      ground (arith, delete-refused auth_id id db r found other)
  | inr ne ↦ ground (arith, delete-elsewhere auth_id id j db (nat_eq-ne j id ne))
]
