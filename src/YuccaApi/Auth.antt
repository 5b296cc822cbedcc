-- ===== src/YuccaApi/Auth.antt =====
-- packages/yucca-api/src/services/auth.service.ts with repositories/{user,session}.repository.ts and
-- middleware/auth.guard.ts. The cookie parser, the OIDC client and the random token are arguments:
-- cookies come as parsed values, the OIDC exchange as its outcome. Log context is left out.
pub mod Rows
pub mod Account
pub mod Login
mod Tests
use text.Mathlib.Text.{◌==◌ as str_eq}
use yucca.Common.{
  ℕ, ◌==◌, Bool, true, false, ◌&&◌, ◌||◌, not, Option, none, some, List, [], ◌∷◌, ◌++◌, select,
  find, any, String, if◌then◌else◌,
}
use yucca.Common.Monad.{
  Result, ok, err, Action, pure, throw, gets, or_throw, throw_if, modify, ◌>>=◌, ◌>>◌,
}
use yucca.Database.{
  Db, Query, User, Session, Error, unauthorized, internal, no_result, constraint, update_rows,
  delete_rows,
}

pub record AuthDto : Type 0 where
  pub id : ℕ
  pub sub : String
  pub name : String
  pub email : String
  pub session_id : ℕ

-- `Pick<UserInfoResponse, 'sub' | 'name' | 'email'>`, where name and email may not be strings
pub record Claims : Type 0 where
  pub sub : String
  pub name : Option String
  pub email : Option String

-- `userRepository.create`: sub and email are unique
unfoldable pub create_user : User → Query User
create_user u = do
  db ← gets (λ db. db)
  throw_if (any (λ v. str_eq v.sub u.sub || str_eq v.email u.email) db.users) constraint
  modify λ t. record t { users = t.users ++ u ∷ [] }
  pure u

abbrev pub get_by_sub : String → List User → Option User
get_by_sub sub = find (λ u. str_eq u.sub sub)

-- the `innerJoin` of a session with the users that are not disabled
abbrev pub owner : ℕ → List User → Option User
owner id = find (λ u. (u.id == id) && not u.disabled)

abbrev pub to_auth : User → Session → AuthDto
to_auth u s = record { id = u.id; sub = u.sub; name = u.name; email = u.email; session_id = s.id }

unfoldable pub get_by_access_token : String → List Session → List User → Option AuthDto
get_by_access_token token [] users = none
get_by_access_token token (s ∷ sessions) users =
    let rest = get_by_access_token token sessions users in
    if str_eq s.access_token token
    then elim (owner s.user_id users) [ none ↦ rest | some u ↦ some (to_auth u s) ]
    else rest

-- `userRepository.update`: email is unique
unfoldable pub update_user : ℕ → String → String → Query (Unit {0})
update_user id name email = do
  db ← gets (λ db. db)
  throw_if (any (λ v. str_eq v.email email && not (v.id == id)) db.users) constraint
  modify λ t. record t {
    users = update_rows (λ u. u.id == id) (λ u. record u { name = name; email = email }) t.users;
  }

-- `sessionRepository.create`: the token is unique, and the user exists
unfoldable pub create_session : Session → Query (Unit {0})
create_session s = do
  db ← gets (λ db. db)
  throw_if
      (any (λ v. str_eq v.access_token s.access_token) db.sessions
        || not (any (λ u. u.id == s.user_id) db.users))
      constraint
  modify λ t. record t { sessions = t.sessions ++ s ∷ [] }

unfoldable pub delete_session : ℕ → Query (Unit {0})
delete_session id = modify λ t. record t { sessions = delete_rows (λ s. s.id == id) t.sessions }

-- an empty cookie is falsy
abbrev pub present : Option String → Option String
present none = none
present (some c) = if str_eq c "" then none else some c

unfoldable pub authenticate : Option String → Query AuthDto
authenticate cookie = do
  access_token ← or_throw (present cookie) (unauthorized "Missing yucca-access-token cookie")
  db ← gets (λ db. db)
  or_throw (get_by_access_token access_token db.sessions db.users)
      (unauthorized "Invalid access token")

unfoldable pub logout : AuthDto → Query (Unit {0})
logout auth = delete_session auth.session_id

-- `getOrCreateUser`; the id is the one that PostgreSQL generates if it creates the user
unfoldable pub get_or_create_user : ℕ → Claims → Query ℕ
get_or_create_user fresh claims = do
  name ← or_throw claims.name (internal "name is missing from claims")
  email ← or_throw claims.email (internal "email is missing from claims")
  found ← gets (λ db. get_by_sub claims.sub db.users)
  elim found [
    | some user ↦ do
      throw_if user.disabled (unauthorized "Account is disabled")
      update_user user.id name email
      pure user.id
    | none ↦ do
      user ←
          create_user
            (record { id = fresh; sub = claims.sub; name = name; email = email; disabled = false })
      pure user.id
  ]

-- the end of a login, the same in `oidcCallback` and `oidcDeviceFlow`
unfoldable pub open_session : ℕ → ℕ → String → Option Claims → Query String
open_session fresh_user fresh_session token claims = do
  claims ← or_throw claims (internal "no id token received")
  user_id ← get_or_create_user fresh_user claims
  create_session (record { id = fresh_session; user_id = user_id; access_token = token })
  pure token

-- `oidcCallback`: whether the URL has an `error`, the two cookies, and the exchange with the provider
unfoldable pub oidc_callback :
    ℕ
    → ℕ
    → String
    → Option String
    → (state verifier : Option String) → (String → String → Result Error (Option Claims))
    → Query String
oidc_callback fresh_user fresh_session token error state verifier exchange = do
  elim error [ none ↦ pure tt | some description ↦ throw (internal description) ]
  expected_state ← or_throw (present state) (internal "missing expectedState")
  code_verifier ← or_throw (present verifier) (internal "missing codeVerifier")
  claims ← λ s. (exchange expected_state code_verifier, s)
  open_session fresh_user fresh_session token claims

-- the messages of the device flow's event stream
pub data Message : Type 0 where
  start : (user_code verification_uri : String) → Message
  success : String → Message
  failure : Message

-- `oidcDeviceFlowObservable`: the outcome of starting the flow, and of polling for the claims
unfoldable pub oidc_device_flow :
    ℕ
    → ℕ
    → String
    → Result Error (String × String)
    → Result Error (Option Claims)
    → Db
    → List Message × Db
oidc_device_flow fresh_user fresh_session token (err e) tokens db = (failure ∷ [], db)
oidc_device_flow fresh_user fresh_session token (ok (code, uri)) (err e) db =
    (start code uri ∷ failure ∷ [], db)
oidc_device_flow fresh_user fresh_session token (ok (code, uri)) (ok claims) db =
    let (r, db') = open_session fresh_user fresh_session token claims db in
    (start code uri ∷ elim r [ ok t ↦ success t | err e ↦ failure ] ∷ [], db')
