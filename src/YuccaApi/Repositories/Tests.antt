-- ===== src/YuccaApi/Repositories/Tests.antt =====
-- The theorems on repositories at concrete tables.
use yucca.Common.{ℕ, ◌≡◌, refl, true, false, some, List, [], ◌∷◌, arith}
use yucca.Database.{Repository, Db}
use yucca.ResticApi.Types as ResticTypes
use yucca.YuccaApi.Repositories.{
  to_view, row, get, request, requests, Request, delete_repository, update_repository, create_url,
  create_repository, update, delete, create,
}
use yucca.YuccaApi.Repositories.Ownership.{request-others}
use yucca.YuccaApi.Repositories.Worm.{IsWorm, requests-IsWorm, create_url-write_once}

abbrev vault : Repository
vault = record { id = 5; user_id = 1; worm = true; name = "vault" }

abbrev tables : Db
tables = record {
  users =
      record { id = 1; sub = "a"; name = "Alice"; email = "a@x"; disabled = false }
      ∷ record { id = 2; sub = "b"; name = "Bob"; email = "b@x"; disabled = false }
      ∷ [];
  sessions = [];
  repositories = vault ∷ record { id = 6; user_id = 2; worm = false; name = "box" } ∷ [];
  metrics = [];
  history = [];
  meter = [];
  meter_history = [];
}

vault-IsWorm : IsWorm 5 1 tables
vault-IsWorm = record { repository = vault; found = refl; owned = refl; worm = refl }

abbrev signed : ResticTypes.AuthDto
signed = record { user = 1; repository = 5; write_once = true }

abbrev attacks : List (ℕ × Request)
attacks =
    (1, delete_repository 5)
    ∷ (2, delete_repository 5)
    ∷ (1, update_repository 5 (record { name = some "open"; worm = some false }))
    ∷ (1, create_repository 7 "new" false)
    ∷ []

request-others_example : row 5 (request 2 (delete_repository 5) tables) ≡ some vault
request-others_example = request-others 2 5 (delete_repository 5) tables vault refl (ground arith)

requests-IsWorm_example : IsWorm 5 1 (requests attacks tables)
requests-IsWorm_example = requests-IsWorm 5 1 attacks tables vault-IsWorm

create_url-write_once_example :
    (◌≡◌ {A = ℕ} 1 1) × (signed ≡ record { user = 1; repository = 5; write_once = true })
unfolding create_url requests request get update delete create to_view
create_url-write_once_example = create_url-write_once 5 1 1 attacks tables signed vault-IsWorm refl
