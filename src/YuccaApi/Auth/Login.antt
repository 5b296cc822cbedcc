-- ===== src/YuccaApi/Auth/Login.antt =====
-- Logging in, authenticating and logging out.
use mathlib.Core.Path.{subst, subst₂, sym}
use text.Mathlib.Text.{◌==◌ as str_eq}
use yucca.Common.{
  ℕ, ◌==◌, ◌≡◌, refl, inl, inr, Bool, false, ◌||◌, not, Option, none, some, List, [], ◌∷◌, ◌++◌,
  any, arith, Option-cases, String,
}
use yucca.Common.Monad.{Result, ok, err, Result-cases}
use yucca.Database.{Session, Db, Error, unauthorized, internal, delete_rows}
use yucca.Database.Rows.{Distinct, any-false}
use yucca.YuccaApi.Auth.{
  AuthDto, Claims, to_auth, get_by_access_token, present, authenticate, logout, delete_session,
  get_or_create_user, create_session, open_session, oidc_callback, oidc_device_flow, start, success,
}
use yucca.YuccaApi.Auth.Rows.{
  IsBacked, get_by_access_token-IsBacked, Unused, get_by_access_token-append,
  get_by_access_token-Unused, delete-Unused,
}
use yucca.YuccaApi.Auth.Account.{IsKeyed, IsFresh, IsAccount, get_or_create_user-IsAccount}

-- The token of a login opens the account of the claims.
abbrev pub Opens : Claims → ℕ → String → Db → Type 0
Opens claims session_id token db =
    (auth : AuthDto) × (authenticate (some token) db ≡ (ok auth, db))
    × (auth.sub ≡ claims.sub)
    × (some auth.name ≡ claims.name)
    × (some auth.email ≡ claims.email)
    × (auth.session_id ≡ session_id)

Unused-any :
    (token : String) (b : Bool) (sessions : List Session)
    → (any (λ v. str_eq v.access_token token) sessions || b) ≡ false
    → Unused token sessions
Unused-any token b sessions h = any-false (λ v. str_eq v.access_token token) sessions (ground arith)

session-Opens :
    (session_id : ℕ) (token : String) (claims : Claims) (db db1 : Db) (id : ℕ)
    → IsAccount claims db db1 id
    → str_eq token "" ≡ false
    → Unused token db1.sessions
    → Opens claims session_id token (record db1 {
      sessions =
          db1.sessions ++ record { id = session_id; user_id = id; access_token = token } ∷ [];
    })
unfolding authenticate
session-Opens session_id token claims db db1 id a nonempty unused =
    let s : Session = record { id = session_id; user_id = id; access_token = token } in
    (
      to_auth a.user s,
      ground (
        arith,
        get_by_access_token-append token db1.sessions s db1.users a.user unused refl a.found,
      ),
      a.sub,
      a.name,
      a.email,
      refl,
    )

open_session-Opens :
    (fresh session_id : ℕ) (token t : String) (claims : Claims) (db : Db)
    → IsKeyed db
    → IsFresh fresh db
    → str_eq token "" ≡ false
    → (open_session fresh session_id token (some claims) db).0 ≡ ok t
    → (t ≡ token)
      × Opens claims session_id token (open_session fresh session_id token (some claims) db).1
unfolding open_session create_session
open_session-Opens fresh session_id token t claims db keyed f nonempty e =
    elim (Result-cases (get_or_create_user fresh claims db).0) [
      | inr (x, failed) ↦ absurd (ground arith)
      | inl (id, opened) ↦
          let a = get_or_create_user-IsAccount fresh claims db id keyed f opened in
          let db1 : Db = (get_or_create_user fresh claims db).1 in
          let s : Session = record { id = session_id; user_id = id; access_token = token } in
          let shape : (t ≡ token)
              × ((any (λ v. str_eq v.access_token token) db1.sessions
                    || not (any (λ u. u.id == id) db1.users))
                  ≡ false)
              × (record db1 { sessions = db1.sessions ++ s ∷ [] }
                  ≡ (open_session fresh session_id token (some claims) db).1) =
            ground arith in
          (
            shape.0,
            subst (Opens claims session_id token) shape.2 (
                session-Opens session_id token claims db db1 id a nonempty
                  (Unused-any token _ db1.sessions shape.1)),
          )
    ]

open_session-none :
    (fresh session_id : ℕ) (token : String) (db : Db)
    → open_session fresh session_id token none db ≡ (err (internal "no id token received"), db)
unfolding open_session
open_session-none fresh session_id token db = refl

-- Logging out ends the session: its token is refused from then on.
pub logout-authenticate :
    (cookie : Option String) (db : Db) (auth : AuthDto)
    → Distinct (λ s. s.access_token) db.sessions
    → (authenticate cookie db).0 ≡ ok auth
    → (authenticate cookie (logout auth db).1).0 ≡ err (unauthorized "Invalid access token")
unfolding authenticate logout delete_session
logout-authenticate cookie db auth d e = elim (Option-cases (present cookie)) [
  | inl missing ↦ absurd (ground arith)
  | inr (token, given) ↦
      let found : get_by_access_token token db.sessions db.users ≡ some auth = ground arith in
      let b = get_by_access_token-IsBacked token db.sessions db.users auth found in
      let same : b.session.id ≡ auth.session_id = ground arith in
      let unused : Unused token (delete_rows (λ s. s.id == auth.session_id) db.sessions) =
        subst (λ i. Unused token (delete_rows (λ s. s.id == i) db.sessions)) same
          (delete-Unused token db.sessions b.session d b.listed b.token_matches) in
      ground (
        arith,
        get_by_access_token-Unused token (delete_rows (λ s. s.id == auth.session_id) db.sessions)
            db.users unused,
      )
]

-- Only a token of a session authenticates, and only as a user that is not disabled.
pub authenticate-IsBacked :
    (cookie : Option String) (db : Db) (auth : AuthDto)
    → (authenticate cookie db).0 ≡ ok auth
    → (token : String) × (cookie ≡ some token) × IsBacked token db.sessions db.users auth
unfolding authenticate
authenticate-IsBacked none db auth e = cc
authenticate-IsBacked (some token) db auth e =
    (token, refl, get_by_access_token-IsBacked token db.sessions db.users auth (ground arith))

-- A login through the provider's callback ends with a token that opens the account of the claims that
-- the provider gave for the two cookies.
pub oidc_callback-Opens :
    (fresh session_id : ℕ) (token : String) (error state verifier : Option String)
    (exchange : String → String → Result Error (Option Claims)) (db : Db) (t : String)
    → IsKeyed db
    → IsFresh fresh db
    → str_eq token "" ≡ false
    → (oidc_callback fresh session_id token error state verifier exchange db).0 ≡ ok t
    → (s v : String) × (claims : Claims) × (state ≡ some s)
      × (verifier ≡ some v)
      × (exchange s v ≡ ok (some claims))
      × Opens claims session_id t
          (oidc_callback fresh session_id token error state verifier exchange db).1
unfolding oidc_callback
oidc_callback-Opens fresh session_id token error none verifier exchange db t keyed f nonempty e =
    absurd (ground arith)
oidc_callback-Opens fresh session_id token error (some s) none exchange db t keyed f nonempty e =
    absurd (ground arith)
oidc_callback-Opens fresh session_id token error (some s) (some v) exchange db t keyed f nonempty
      e =
    elim (Result-cases (exchange s v)) [
      | inr (x, failed) ↦ absurd (ground arith)
      | inl (none, got) ↦ absurd (ground (arith, open_session-none fresh session_id token db))
      | inl (some claims, got) ↦
          let opened : ((open_session fresh session_id token (some claims) db).0 ≡ ok t)
              × ((open_session fresh session_id token (some claims) db).1
                  ≡ (oidc_callback fresh session_id token error (some s) (some v) exchange db).1) =
            ground arith in
          let (same, opens) =
            open_session-Opens fresh session_id token t claims db keyed f nonempty opened.0 in
          (
            s,
            v,
            claims,
            refl,
            refl,
            got,
            subst₂ (λ d u. Opens claims session_id u d) opened.1 (sym same) opens,
          )
    ]

-- The device flow's stream ends with a success only if its token opens the account of the claims.
pub oidc_device_flow-Opens :
    (fresh session_id : ℕ) (token code uri : String) (tokens : Result Error (Option Claims))
    (db : Db) (t : String)
    → IsKeyed db
    → IsFresh fresh db
    → str_eq token "" ≡ false
    → (oidc_device_flow fresh session_id token (ok (code, uri)) tokens db).0
      ≡ start code uri ∷ success t ∷ []
    → (claims : Claims) × (tokens ≡ ok (some claims))
      × Opens claims session_id t
          (oidc_device_flow fresh session_id token (ok (code, uri)) tokens db).1
unfolding oidc_device_flow
oidc_device_flow-Opens fresh session_id token code uri (err x) db t keyed f nonempty e =
    absurd (ground arith)
oidc_device_flow-Opens fresh session_id token code uri (ok none) db t keyed f nonempty e =
    absurd (ground (arith, open_session-none fresh session_id token db))
oidc_device_flow-Opens fresh session_id token code uri (ok (some claims)) db t keyed f nonempty e =
    let opened : (open_session fresh session_id token (some claims) db).0 ≡ ok t = ground arith in
    let (same, opens) =
      open_session-Opens fresh session_id token t claims db keyed f nonempty opened in
    (
      claims,
      refl,
      subst
          (λ u. Opens claims session_id u (open_session fresh session_id token (some claims) db).1)
          (sym same) opens,
    )
