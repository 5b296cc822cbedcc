-- ===== src/AdminApi/Auth.antt =====
-- packages/yucca-admin-api/src/services/auth.service.ts and middleware/auth.guard.ts: an administrator is
-- whoever the provider knows. The cookie parser and the provider are arguments.
use yucca.Common.{Bool, true, false, Option, none, some, String}
use yucca.Common.Monad.{Result, ok, err}
use yucca.Database.{Error, unauthorized, internal}
use yucca.YuccaApi.Auth.{present}

-- `authenticate`: the cookies sub and accessToken, and `oidc.fetchUserInfo`, which gives the sub
unfoldable pub authenticate :
    (sub access_token : Option String)
    → (fetch_user_info : String → String → Result Error (Option String)) → Result Error String
authenticate sub access_token fetch_user_info = elim (present sub) [
  | none ↦ err (unauthorized "Missing yucca-admin-sub cookie")
  | some s ↦ elim (present access_token) [
    | none ↦ err (unauthorized "Missing yucca-admin-access-token cookie")
    | some t ↦ elim (fetch_user_info t s) [
      | err e ↦ err e
      | ok none ↦ err (unauthorized "Missing user info")
      | ok (some info) ↦ ok info
    ]
  ]
]

pub record Callback : Type 0 where
  pub sub : String
  pub access_token : String

-- `oidcCallback`: the `error` of the URL, the cookies, and the exchange, which gives the sub of the
-- claims if there is an id token, and the access token
unfoldable pub oidc_callback :
    Option String
    → (state verifier : Option String)
    → (callback : String → String → Result Error (Option String × String)) → Result Error Callback
oidc_callback (some description) state verifier callback = err (internal description)
oidc_callback none state verifier callback = elim (present state) [
  | none ↦ err (internal "missing expectedState")
  | some s ↦ elim (present verifier) [
    | none ↦ err (internal "missing codeVerifier")
    | some v ↦ elim (callback s v) [
      | err e ↦ err e
      | ok (none, token) ↦ err (internal "no id token received")
      | ok (some sub, token) ↦ ok (record { sub = sub; access_token = token })
    ]
  ]
]

-- `canActivate`: a route that asks for an administrator answers only one; another answers anyone.
unfoldable pub can_activate :
    Bool
    → (sub access_token : Option String)
    → (fetch_user_info : String → String → Result Error (Option String))
    → Result Error (Option String)
unfolding authenticate
can_activate false sub access_token fetch_user_info = ok none
can_activate true sub access_token fetch_user_info =
    elim (authenticate sub access_token fetch_user_info) [ ok s ↦ ok (some s) | err e ↦ err e ]
