-- ===== src/YuccaApi/Auth/Tests.antt =====
-- The theorems on logins at concrete tables.
use text.Mathlib.TextEquality.{eq_iff}
use yucca.Common.{◌≡◌, refl, true, false, Option, none, some, [], ◌∷◌, arith, String}
use yucca.Common.Monad.{Result, ok, err}
use yucca.Database.{User, Db, Error, unauthorized}
use yucca.YuccaApi.Auth.{
  AuthDto, Claims, authenticate, logout, get_or_create_user, create_user, open_session,
  create_session, oidc_callback, oidc_device_flow, get_by_access_token,
}
use yucca.YuccaApi.Auth.Rows.{IsBacked}
use yucca.YuccaApi.Auth.Account.{IsKeyed}
use yucca.YuccaApi.Auth.Login.{
  Opens, logout-authenticate, authenticate-IsBacked, oidc_callback-Opens, oidc_device_flow-Opens,
}

abbrev alice : User
alice = record { id = 1; sub = "a"; name = "Alice"; email = "a@x"; disabled = false }

abbrev carol : User
carol = record { id = 2; sub = "c"; name = "Carol"; email = "c@x"; disabled = true }

abbrev tables : Db
tables = record {
  users = alice ∷ carol ∷ [];
  sessions =
      record { id = 10; user_id = 1; access_token = "t" }
      ∷ record { id = 11; user_id = 2; access_token = "u" }
      ∷ [];
  repositories = [];
  metrics = [];
  history = [];
  meter = [];
  meter_history = [];
}

abbrev alice_auth : AuthDto
alice_auth = record { id = 1; sub = "a"; name = "Alice"; email = "a@x"; session_id = 10 }

abbrev bob : Claims
bob = record { sub = "b"; name = some "Bob"; email = some "b@x" }

abbrev carol_claims : Claims
carol_claims = record { sub = "c"; name = some "Carol"; email = some "c@x" }

abbrev tokens : Result Error (Option Claims)
tokens = ok (some bob)

abbrev given : String → String → Result Error (Option Claims)
given s v = ok (some bob)

tables-IsKeyed : IsKeyed tables
tables-IsKeyed = record {
  ids = ((ground arith, tt), (tt, tt));
  subs = ((ground (arith, eq_iff "c" "a"), tt), (tt, tt));
  tokens = ((ground (arith, eq_iff "u" "t"), tt), (tt, tt));
}

logout-authenticate_example :
    (authenticate (some "t") (logout alice_auth tables).1).0
    ≡ err (unauthorized "Invalid access token")
unfolding authenticate get_by_access_token
logout-authenticate_example =
    logout-authenticate (some "t") tables alice_auth tables-IsKeyed.tokens refl

authenticate-IsBacked_example :
    (token : String) × (some "t" ≡ some token)
    × IsBacked token tables.sessions tables.users alice_auth
unfolding authenticate get_by_access_token
authenticate-IsBacked_example = authenticate-IsBacked (some "t") tables alice_auth refl

oidc_callback-Opens_example :
    (s v : String) × (claims : Claims) × (some "state" ≡ some s)
    × (some "verifier" ≡ some v)
    × (given s v ≡ ok (some claims))
    × Opens claims 12 "w"
        (oidc_callback 7 12 "w" none (some "state") (some "verifier") given tables).1
unfolding oidc_callback open_session get_or_create_user create_user create_session
oidc_callback-Opens_example =
    oidc_callback-Opens 7 12 "w" none (some "state") (some "verifier") given tables "w"
      tables-IsKeyed (ground arith, (ground arith, tt)) refl refl

oidc_device_flow-Opens_example :
    (claims : Claims) × (tokens ≡ ok (some claims))
    × Opens claims 12 "w" (oidc_device_flow 7 12 "w" (ok ("code", "uri")) tokens tables).1
unfolding oidc_device_flow open_session get_or_create_user create_user create_session
oidc_device_flow-Opens_example =
    oidc_device_flow-Opens 7 12 "w" "code" "uri" tokens tables "w" tables-IsKeyed
      (ground arith, (ground arith, tt)) refl refl
