-- ===== src/YuccaApi/Repositories/Worm.antt =====
-- A write-only repository stays one, and so do the tokens that the API signs for it.
use yucca.Common.{
  ℕ, ◌==◌, ==_iff, nat_eq-ne, ◌≡◌, inl, inr, Bool, true, false, ◌&&◌, not, some, List, [], ◌∷◌,
  String, arith, Bool-cases,
}
use yucca.Common.Monad.{ok}
use yucca.Database.{Db, Repository}
use yucca.Database.Rows.{find-mem}
use yucca.ResticApi.Types as ResticTypes
use yucca.YuccaApi.Repositories.{
  to_view, row, get, create, update, delete, create_url, UpdateDto, change, disables, Request,
  create_repository, get_repository, get_repositories, update_repository, delete_repository,
  create_restic_url, request, requests,
}
use yucca.YuccaApi.Repositories.Rows.{
  row_in-append, row_in-update_self, row_in-update_ne, row_in-delete_ne,
}

-- The repository is there, belongs to the account and is write-only.
pub record IsWorm (id owner : ℕ) (db : Db) : Type 0 where
  pub repository : Repository
  pub found : row id db ≡ some repository
  pub owned : repository.user_id ≡ owner
  pub worm : repository.worm ≡ true

change-worm :
    (dto : UpdateDto) (r : Repository)
    → r.worm ≡ true
    → disables dto.worm ≡ false
    → (change dto r).worm ≡ true
change-worm dto r w d = ground arith

create-IsWorm :
    (auth_id id owner fresh : ℕ) (name : String) (worm : Bool) (db : Db)
    → IsWorm id owner db
    → IsWorm id owner (create fresh auth_id name worm db).1
unfolding create
create-IsWorm auth_id id owner fresh name worm db w =
    let x : Repository = record { id = fresh; user_id = auth_id; worm = worm; name = name } in
    record {
      repository = w.repository;
      found = ground (arith, row_in-append id db.repositories x w.repository w.found);
      owned = w.owned;
      worm = w.worm;
    }

update-IsWorm :
    (auth_id id owner j : ℕ) (dto : UpdateDto) (db : Db)
    → IsWorm id owner db
    → IsWorm id owner (update auth_id j dto db).1
unfolding update to_view
update-IsWorm auth_id id owner j dto db w = elim (Bool-cases (j == id)) [
  | inr ne ↦ record {
    repository = w.repository;
    found = ground (arith, row_in-update_ne id j dto db.repositories (nat_eq-ne j id ne), w.found);
    owned = w.owned;
    worm = w.worm;
  }
  | inl same ↦
      let e : j ≡ id = (==_iff j id).0 same in
      elim (Bool-cases ((w.repository.user_id == auth_id) && not (disables dto.worm))) [
        | inl allowed ↦ record {
          repository = change dto w.repository;
          found =
              ground
                (arith, row_in-update_self id dto db.repositories w.repository, w.found, w.worm);
          owned = w.owned;
          worm = change-worm dto w.repository w.worm (ground arith);
        }
        | inr refused ↦ record {
          repository = w.repository;
          found = ground (arith, w.found, w.worm);
          owned = w.owned;
          worm = w.worm;
        }
      ]
]

delete-IsWorm :
    (auth_id id owner j : ℕ) (db : Db)
    → IsWorm id owner db
    → IsWorm id owner (delete auth_id j db).1
unfolding delete to_view
delete-IsWorm auth_id id owner j db w = record {
  repository = w.repository;
  found = elim (Bool-cases (j == id)) [
    | inl same ↦ let e : j ≡ id = (==_iff j id).0 same in ground (arith, w.found, w.worm)
    | inr ne ↦ ground (arith, row_in-delete_ne id j db.repositories (nat_eq-ne j id ne), w.found)
  ];
  owned = w.owned;
  worm = w.worm;
}

request-IsWorm :
    (auth_id id owner : ℕ) (q : Request) (db : Db)
    → IsWorm id owner db
    → IsWorm id owner (request auth_id q db)
unfolding request
request-IsWorm auth_id id owner (create_repository fresh name worm) db w =
    create-IsWorm auth_id id owner fresh name worm db w
request-IsWorm auth_id id owner (get_repository j) db w = record {
  repository = w.repository;
  found = unfold get in ground (arith, w.found);
  owned = w.owned;
  worm = w.worm;
}
request-IsWorm auth_id id owner get_repositories db w = w
request-IsWorm auth_id id owner (create_restic_url j) db w = record {
  repository = w.repository;
  found = unfold create_url in ground (arith, w.found);
  owned = w.owned;
  worm = w.worm;
}
request-IsWorm auth_id id owner (update_repository j dto) db w =
    update-IsWorm auth_id id owner j dto db w
request-IsWorm auth_id id owner (delete_repository j) db w = delete-IsWorm auth_id id owner j db w

-- A write-only repository is still there after any requests of any accounts, with the same owner, and
-- still write-only.
pub requests-IsWorm :
    (id owner : ℕ) (qs : List (ℕ × Request)) (db : Db)
    → IsWorm id owner db
    → IsWorm id owner (requests qs db)
unfolding requests
requests-IsWorm id owner [] db w = w
requests-IsWorm id owner ((auth_id, q) ∷ qs) db w =
    requests-IsWorm id owner qs (request auth_id q db) (request-IsWorm auth_id id owner q db w)

-- Every token that is signed for a write-only repository, whatever came before, is for the account that
-- owns it, names this repository and is write-once.
pub create_url-write_once :
    (id owner auth_id : ℕ) (qs : List (ℕ × Request)) (db : Db) (token : ResticTypes.AuthDto)
    → IsWorm id owner db
    → (create_url auth_id id (requests qs db)).0 ≡ ok token
    → (auth_id ≡ owner) × (token ≡ record { user = owner; repository = id; write_once = true })
unfolding create_url to_view
create_url-write_once id owner auth_id qs db token w e =
    let w' = requests-IsWorm id owner qs db w in
    let (m, h) = find-mem (λ r. r.id == id) (requests qs db).repositories w'.found in
    ground (arith, w'.found, w'.owned, w'.worm)
