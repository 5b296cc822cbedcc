-- ===== src/AdminApi/Tests.antt =====
-- The theorems on accounts at concrete tables.
use yucca.Common.{◌≡◌, refl, ◌≢◌, ◌⊎◌, true, false, some, List, [], ◌∷◌, arith, All}
use yucca.Common.Monad.{ok, err}
use yucca.Database.{Db, conflict}
use yucca.YuccaApi.Auth.{
  AuthDto, authenticate, open_session, get_by_access_token, get_or_create_user, create_session,
}
use yucca.AdminApi.Users
use yucca.AdminApi.Users.Lockout.{Step, login, update-authenticate}
use yucca.AdminApi.Users.Sessions.{update-reenabled, delete-cases}

abbrev tables : Db
tables = record {
  users =
      record { id = 2; sub = "b"; name = "Bob"; email = "b@x"; disabled = false }
      ∷ record { id = 1; sub = "a"; name = "Alice"; email = "a@x"; disabled = false }
      ∷ [];
  sessions =
      record { id = 10; user_id = 1; access_token = "t" }
      ∷ record { id = 11; user_id = 2; access_token = "u" }
      ∷ [];
  repositories = record { id = 5; user_id = 2; worm = false; name = "r" } ∷ [];
  metrics = [];
  history = [];
  meter = [];
  meter_history = [];
}

abbrev bob : AuthDto
bob = record { id = 2; sub = "b"; name = "Bob"; email = "b@x"; session_id = 11 }

abbrev alice_logs_in : List Step
alice_logs_in =
    login 7 12 "w" (some (record { sub = "a"; name = some "Alice"; email = some "a@x" })) ∷ []

update-authenticate_example : bob.id ≢ 1
unfolding Users.update authenticate get_by_access_token open_session get_or_create_user
    create_session
update-authenticate_example =
    update-authenticate 1 tables alice_logs_in (some "u") bob (ground arith, tt) refl

update-reenabled_example : bob.id ≢ 1
unfolding Users.update authenticate get_by_access_token
update-reenabled_example = update-reenabled 1 tables (some "u") bob refl

delete-cases_example :
    ((Users.has_repositories 2 tables ≡ true)
      × (Users.delete 2 tables
          ≡ (err (conflict "Cannot delete a user that still owns repositories"), tables)))
    ⊎ ((Users.has_repositories 2 tables ≡ false)
        × ((Users.delete 2 tables).0 ≡ ok tt)
        × All (λ u. u.id ≢ 2) (Users.delete 2 tables).1.users
        × All (λ s. s.user_id ≢ 2) (Users.delete 2 tables).1.sessions
        × ((Users.delete 2 tables).1.repositories ≡ tables.repositories))
delete-cases_example = delete-cases 2 tables
