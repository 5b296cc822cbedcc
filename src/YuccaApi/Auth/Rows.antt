-- ===== src/YuccaApi/Auth/Rows.antt =====
-- How the queries of a login act on the rows of users and sessions.
use mathlib.Core.List.{Memᴰ}
use text.Mathlib.Text.{◌==◌ as str_eq}
use text.Mathlib.TextEquality.{eq_iff}
use yucca.Common.{
  ◌==◌, ==_iff, ◌≡◌, refl, ◌≢◌, inl, inr, true, false, none, some, List, [], ◌∷◌, ◌++◌, All, arith,
  Bool-cases, Option-cases, String,
}
use yucca.Database.{User, Session, update_rows, delete_rows}
use yucca.Database.Rows.{find-mem, All-mem, Distinct}
use yucca.YuccaApi.Auth.{AuthDto, owner, to_auth, get_by_access_token, get_by_sub}

-- A cookie gives an account only through a session with that token, and a user that is not disabled.
pub record IsBacked (token : String) (sessions : List Session) (users : List User) (auth : AuthDto)
    : Type 0 where
  pub session : Session
  pub user : User
  pub listed : Memᴰ session sessions
  pub known : Memᴰ user users
  pub token_matches : session.access_token ≡ token
  pub owned : user.id ≡ session.user_id
  pub enabled : user.disabled ≡ false
  pub account : auth ≡ to_auth user session

IsBacked-cons :
    {token : String} {s : Session} {sessions : List Session} {users : List User} {auth : AuthDto}
    → IsBacked token sessions users auth
    → IsBacked token (s ∷ sessions) users auth
IsBacked-cons b = record {
  session = b.session;
  user = b.user;
  listed = Memᴰ.tail b.listed;
  known = b.known;
  token_matches = b.token_matches;
  owned = b.owned;
  enabled = b.enabled;
  account = b.account;
}

pub get_by_access_token-IsBacked :
    (token : String) (sessions : List Session) (users : List User) (auth : AuthDto)
    → get_by_access_token token sessions users ≡ some auth
    → IsBacked token sessions users auth
unfolding get_by_access_token
get_by_access_token-IsBacked token [] users auth e = cc
get_by_access_token-IsBacked token (s ∷ sessions) users auth e =
    elim (Bool-cases (str_eq s.access_token token)) [
      | inr other ↦
          IsBacked-cons (get_by_access_token-IsBacked token sessions users auth (ground arith))
      | inl same ↦ elim (Option-cases (owner s.user_id users)) [
        | inl nobody ↦
            IsBacked-cons (get_by_access_token-IsBacked token sessions users auth (ground arith))
        | inr (u, found) ↦
            let (m, h) = find-mem _ users found in
            record {
              session = s;
              user = u;
              listed = Memᴰ.head refl;
              known = m;
              token_matches = (eq_iff _ _).0 same;
              owned = ground arith;
              enabled = ground arith;
              account = ground arith;
            }
      ]
    ]

-- A token that no session carries.
abbrev pub Unused : String → List Session → Type 0
Unused token sessions = All (λ s. str_eq s.access_token token ≡ false) sessions

pub get_by_access_token-append :
    (token : String) (sessions : List Session) (s : Session) (users : List User) (u : User)
    → Unused token sessions
    → s.access_token ≡ token
    → owner s.user_id users ≡ some u
    → get_by_access_token token (sessions ++ s ∷ []) users ≡ some (to_auth u s)
unfolding get_by_access_token
get_by_access_token-append token [] s users u h e o = ground (arith, eq_iff s.access_token token)
get_by_access_token-append token (x ∷ sessions) s users u (n, h) e o =
    ground (arith, get_by_access_token-append token sessions s users u h e o)

pub get_by_access_token-Unused :
    (token : String) (sessions : List Session) (users : List User)
    → Unused token sessions
    → get_by_access_token token sessions users ≡ none
unfolding get_by_access_token
get_by_access_token-Unused token [] users h = refl
get_by_access_token-Unused token (x ∷ sessions) users (n, h) =
    ground (arith, get_by_access_token-Unused token sessions users h)

-- Where tokens differ, deleting the session of a token leaves nobody with it.
pub delete-Unused :
    (token : String) (sessions : List Session) (s : Session)
    → Distinct (λ t. t.access_token) sessions
    → Memᴰ s sessions
    → s.access_token ≡ token
    → Unused token (delete_rows (λ t. t.id == s.id) sessions)
delete-Unused token [] s d m e = elim m [ ]
delete-Unused token (x ∷ sessions) s (a, d) (Memᴰ.head same) e =
    let hit : (x.id == s.id) ≡ true = (==_iff _ _).1 (cc) in rw hit (others sessions a)
  where
    others :
        (rest : List Session)
        → All (λ y. y.access_token ≢ x.access_token) rest
        → Unused token (delete_rows (λ t. t.id == s.id) rest)
    others [] h = tt
    others (y ∷ rest) (n, h) = elim (Bool-cases (y.id == s.id)) [
      | inl gone ↦ rw gone (others rest h)
      | inr kept ↦ rw kept (ground (arith, eq_iff y.access_token token), others rest h)
    ]
delete-Unused token (x ∷ sessions) s (a, d) (Memᴰ.tail m) e =
    let differs : s.access_token ≢ x.access_token = All-mem _ sessions a m in
    elim (Bool-cases (x.id == s.id)) [
      | inl gone ↦ rw gone (delete-Unused token sessions s d m e)
      | inr kept ↦
          rw kept
            (ground (arith, eq_iff x.access_token token), delete-Unused token sessions s d m e)
    ]

-- The user that a login finds or creates is the one that its session gives.
pub owner-update :
    (sub name email : String) (users : List User) (u : User)
    → Distinct (λ v. v.id) users
    → get_by_sub sub users ≡ some u
    → u.disabled ≡ false
    → owner u.id
        (update_rows (λ v. v.id == u.id) (λ v. record v { name = name; email = email }) users)
      ≡ some (record u { name = name; email = email })
owner-update sub name email [] u d e h = cc
owner-update sub name email (x ∷ users) u (a, d) e h = elim (Bool-cases (str_eq x.sub sub)) [
  | inl hit ↦ ground arith
  | inr miss ↦
      let found : get_by_sub sub users ≡ some u = ground arith in
      let differs : u.id ≢ x.id = All-mem _ users a (find-mem _ users found).0 in
      ground (arith, owner-update sub name email users u d found h)
]

pub owner-append :
    (users : List User) (u : User)
    → All (λ v. v.id ≢ u.id) users
    → u.disabled ≡ false
    → owner u.id (users ++ u ∷ []) ≡ some u
owner-append [] u n h = ground arith
owner-append (x ∷ users) u (n, ns) h = ground (arith, owner-append users u ns h)
