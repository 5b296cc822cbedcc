-- ===== src/YuccaApi/Repositories.antt =====
-- packages/yucca-api/src/services/repository.service.ts and repositories/repository.repository.ts.
-- Signing the token is a library's: `create_url` returns the payload that it signs.
pub mod Rows
pub mod Ownership
pub mod Worm
mod Tests
use yucca.Common.{
  ℕ, ◌==◌, Bool, true, false, ◌&&◌, ◌||◌, not, Option, none, some, List, [], ◌∷◌, ◌++◌, select,
  find, any, map, String, if◌then◌else◌,
}
use yucca.Common.Monad.{
  Result, ok, err, Action, pure, throw, gets, or_throw, throw_if, modify, ◌>>=◌, ◌>>◌,
}
use yucca.Database.{
  Db, Query, User, Repository, Metrics, History, Meter, Error, unauthorized, bad_request, no_result,
  constraint, update_rows, delete_rows, set_or,
}
use yucca.ResticApi.Types as ResticTypes

-- `metricsJson` and `meterJson`
pub record View : Type 0 where
  pub repository : Repository
  pub size_bytes : ℕ
  pub last_backup : Option ℕ
  pub last_successful_backup : Option ℕ
  pub last_backup_duration : Option ℕ
  pub meter_size_bytes : ℕ
  pub meter_object_count : ℕ
  pub meter_last_updated : Option ℕ

abbrev pub metrics_of : ℕ → Db → Option Metrics
metrics_of id db = find (λ m. m.id == id) db.metrics

abbrev pub meter_of : ℕ → Db → Option Meter
meter_of id db = find (λ m. m.repository_id == id) db.meter

-- the row with its left joins, whose absent columns are null, or 0 under `coalesce`
unfoldable pub to_view : Db → Repository → View
to_view db r = record {
  repository = r;
  size_bytes = elim (metrics_of r.id db) [ none ↦ 0 | some m ↦ m.size_bytes ];
  last_backup = elim (metrics_of r.id db) [ none ↦ none | some m ↦ m.last_backup ];
  last_successful_backup = elim (metrics_of r.id db) [
    | none ↦ none
    | some m ↦ m.last_successful_backup
  ];
  last_backup_duration = elim (metrics_of r.id db) [
    | none ↦ none
    | some m ↦ m.last_backup_duration
  ];
  meter_size_bytes = elim (meter_of r.id db) [ none ↦ 0 | some m ↦ m.size_bytes ];
  meter_object_count = elim (meter_of r.id db) [ none ↦ 0 | some m ↦ m.object_count ];
  meter_last_updated = elim (meter_of r.id db) [ none ↦ none | some m ↦ some m.timestamp ];
}

abbrev pub row : ℕ → Db → Option Repository
row id db = find (λ r. r.id == id) db.repositories

unfoldable pub get_row : ℕ → Query View
get_row id = do db ← gets (λ db. db); r ← or_throw (row id db) no_result; pure (to_view db r)

-- `repositoryRepository.create`, under the generated id; the owner is a foreign key
unfoldable pub create_row : Repository → Query View
unfolding get_row
create_row r = do
  db ← gets (λ db. db)
  throw_if (not (any (λ u. u.id == r.user_id) db.users)) constraint
  modify λ t. record t { repositories = t.repositories ++ r ∷ [] }
  get_row r.id

unfoldable pub get_by_user : ℕ → Db → List View
get_by_user user_id db = map (to_view db) (select (λ r. r.user_id == user_id) db.repositories)

pub record UpdateDto : Type 0 where
  pub name : Option String
  pub worm : Option Bool

abbrev pub change : UpdateDto → Repository → Repository
change dto r = record r { name = set_or dto.name r.name; worm = set_or dto.worm r.worm }

unfoldable pub update_row : ℕ → UpdateDto → Query View
unfolding get_row
update_row id dto = do
  modify λ t. record t { repositories = update_rows (λ r. r.id == id) (change dto) t.repositories }
  get_row id

-- The metrics and meters of a repository go with it (`onDelete: 'CASCADE'`).
unfoldable pub delete_row : ℕ → Query (Unit {0})
delete_row id = modify λ t. record t {
  repositories = delete_rows (λ r. r.id == id) t.repositories;
  metrics = delete_rows (λ m. m.id == id) t.metrics;
  history = delete_rows (λ h. h.repository_id == id) t.history;
  meter = delete_rows (λ m. m.repository_id == id) t.meter;
  meter_history = delete_rows (λ m. m.repository_id == id) t.meter_history;
}

-- `this.get(auth, id)`, the check of ownership
unfoldable pub get : ℕ → ℕ → Query View
unfolding get_row
get auth_id id = do
  view ← get_row id
  throw_if (not (view.repository.user_id == auth_id)) (unauthorized "Unauthorized")
  pure view

unfoldable pub create : (fresh auth_id : ℕ) → (name : String) → (worm : Bool) → Query View
unfolding create_row
create fresh auth_id name worm =
    create_row (record { id = fresh; user_id = auth_id; worm = worm; name = name })

-- `typeof dto.worm === 'boolean' && dto.worm !== repository.worm`, where `repository.worm`
abbrev pub disables : Option Bool → Bool
disables (some false) = true
disables _ = false

unfoldable pub update : ℕ → ℕ → UpdateDto → Query View
unfolding get update_row
update auth_id id dto = do
  view ← get auth_id id
  throw_if (view.repository.worm && disables dto.worm)
      (bad_request "Refusing to disable write-only on repository")
  update_row id dto

unfoldable pub create_url : ℕ → ℕ → Query ResticTypes.AuthDto
unfolding get
create_url auth_id id = do
  view ← get auth_id id
  pure (record {
    user = auth_id;
    repository = view.repository.id;
    write_once = view.repository.worm;
  })

unfoldable pub delete : ℕ → ℕ → Query (Unit {0})
unfolding get delete_row
delete auth_id id = do
  view ← get auth_id id
  throw_if view.repository.worm (bad_request "Refusing to delete write-only repository")
  delete_row id

-- the requests that an account sends to its controller
pub data Request : Type 0 where
  create_repository : (fresh : ℕ) (name : String) (worm : Bool) → Request
  get_repository delete_repository create_restic_url : ℕ → Request
  get_repositories : Request
  update_repository : ℕ → UpdateDto → Request

-- the tables after a request of an account
unfoldable pub request : ℕ → Request → Db → Db
unfolding create update delete
request auth_id (create_repository fresh name worm) db = (create fresh auth_id name worm db).1
request auth_id (get_repository id) db = (get auth_id id db).1
request auth_id get_repositories db = db
request auth_id (update_repository id dto) db = (update auth_id id dto db).1
request auth_id (delete_repository id) db = (delete auth_id id db).1
request auth_id (create_restic_url id) db = (create_url auth_id id db).1

unfoldable pub requests : List (ℕ × Request) → Db → Db
requests [] db = db
requests ((auth_id, r) ∷ rest) db = requests rest (request auth_id r db)
