-- ===== src/AdminApi/Users/Lockout.antt =====
-- A disabled account stays shut, whatever the logins of packages/yucca-api do.
use mathlib.Core.Path.{subst, sym}
use text.Mathlib.Text.{◌==◌ as str_eq}
use yucca.Common.{
  ℕ, ◌==◌, nat_eq-ne, ◌≡◌, refl, ◌≢◌, inl, inr, true, false, ◌&&◌, ◌||◌, not, Option, none, some,
  List, [], ◌∷◌, any, All, arith, Bool-cases, Option-cases, String,
}
use yucca.Common.Monad.{ok}
use yucca.Database.{User, Db, update_rows}
use yucca.Database.Rows.{All-mem, All-append}
use yucca.YuccaApi.Auth.{
  AuthDto, Claims, authenticate, logout, delete_session as end_session, get_or_create_user,
  create_user, update_user, create_session, open_session, get_by_sub,
}
use yucca.YuccaApi.Auth.Login.{authenticate-IsBacked}
use yucca.AdminApi.Users.{update, set_disabled, user_by_id}

-- Nobody with this id is enabled.
abbrev pub IsLocked : ℕ → Db → Type 0
IsLocked id db = All (λ u. u.id ≡ id → u.disabled ≡ true) db.users

-- A login or a logout of packages/yucca-api
pub data Step : Type 0 where
  login : (fresh_user fresh_session : ℕ) (token : String) (claims : Option Claims) → Step
  end : AuthDto → Step

abbrev pub step : Step → Db → Db
step (login fresh_user fresh_session token claims) db =
    (open_session fresh_user fresh_session token claims db).1
step (end auth) db = (logout auth db).1

abbrev pub steps : List Step → Db → Db
steps [] db = db
steps (s ∷ ss) db = steps ss (step s db)

-- The generated ids are not this one.
abbrev pub Avoids : ℕ → Step → Type 0
Avoids id (login fresh_user fresh_session token claims) = fresh_user ≢ id
Avoids id (end auth) = Unit {0}

IsLocked-renamed :
    (id j : ℕ) (name email : String) (users : List User)
    → All (λ u. u.id ≡ id → u.disabled ≡ true) users
    → All
        (λ u. u.id ≡ id → u.disabled ≡ true)
        (update_rows (λ u. u.id == j) (λ u. record u { name = name; email = email }) users)
IsLocked-renamed id j name email [] h = tt
IsLocked-renamed id j name email (u ∷ users) (k, h) = elim (Bool-cases (u.id == j)) [
  | inl hit ↦ rw hit (k, IsLocked-renamed id j name email users h)
  | inr miss ↦ rw miss (k, IsLocked-renamed id j name email users h)
]

update_user-IsLocked :
    (id j : ℕ) (name email : String) (db : Db)
    → IsLocked id db
    → IsLocked id (update_user j name email db).1
unfolding update_user
update_user-IsLocked id j name email db k =
    elim (Bool-cases (any (λ v. str_eq v.email email && not (v.id == j)) db.users)) [
      | inl taken ↦ rw taken k
      | inr free ↦ rw free (IsLocked-renamed id j name email db.users k)
    ]

create_user-IsLocked :
    (id : ℕ) (u : User) (db : Db) → u.id ≢ id → IsLocked id db → IsLocked id (create_user u db).1
unfolding create_user
create_user-IsLocked id u db n k =
    elim (Bool-cases (any (λ v. str_eq v.sub u.sub || str_eq v.email u.email) db.users)) [
      | inl taken ↦ rw taken k
      | inr free ↦ rw free (
          All-append (λ u. u.id ≡ id → u.disabled ≡ true) db.users (u ∷ []) k
            ((λ e. absurd (n e)), tt))
    ]

get_or_create_user-IsLocked :
    (id fresh : ℕ) (claims : Claims) (db : Db)
    → fresh ≢ id
    → IsLocked id db
    → IsLocked id (get_or_create_user fresh claims db).1
unfolding get_or_create_user
get_or_create_user-IsLocked id fresh claims db n k = elim (Option-cases claims.name) [
  | inl missing ↦ rw missing k
  | inr (name, en) ↦ elim (Option-cases claims.email) [
    | inl missing ↦ rw (en, missing) k
    | inr (email, ee) ↦ elim (Option-cases (get_by_sub claims.sub db.users)) [
      | inl unknown ↦
          let u : User = record {
            id = fresh;
            sub = claims.sub;
            name = name;
            email = email;
            disabled = false;
          } in
          let same : (create_user u db).1 ≡ (get_or_create_user fresh claims db).1 = ground arith in
          subst (IsLocked id) same (create_user-IsLocked id u db n k)
      | inr (u, known) ↦ elim (Bool-cases u.disabled) [
        | inl off ↦
            let same : db ≡ (get_or_create_user fresh claims db).1 = ground arith in
            subst (IsLocked id) same k
        | inr on ↦
            let same : (update_user u.id name email db).1 ≡ (get_or_create_user fresh claims db).1 =
              ground arith in
            subst (IsLocked id) same (update_user-IsLocked id u.id name email db k)
      ]
    ]
  ]
]

open_session-users :
    (fresh session : ℕ) (token : String) (claims : Claims) (db : Db)
    → (open_session fresh session token (some claims) db).1.users
      ≡ (get_or_create_user fresh claims db).1.users
unfolding open_session create_session
open_session-users fresh session token claims db = ground arith

step-IsLocked :
    (id : ℕ) (s : Step) (db : Db) → Avoids id s → IsLocked id db → IsLocked id (step s db)
step-IsLocked id (login fresh session token none) db n k = unfold open_session in k
step-IsLocked id (login fresh session token (some claims)) db n k =
    subst (All (λ u. u.id ≡ id → u.disabled ≡ true))
      (sym (open_session-users fresh session token claims db))
      (get_or_create_user-IsLocked id fresh claims db n k)
step-IsLocked id (end auth) db n k = unfold logout end_session in k

steps-IsLocked :
    (id : ℕ) (ss : List Step) (db : Db)
    → All (Avoids id) ss
    → IsLocked id db
    → IsLocked id (steps ss db)
steps-IsLocked id [] db a k = k
steps-IsLocked id (s ∷ ss) db (n, a) k =
    steps-IsLocked id ss (step s db) a (step-IsLocked id s db n k)

disabled-IsLocked :
    (id : ℕ) (users : List User)
    → All
        (λ u. u.id ≡ id → u.disabled ≡ true)
        (update_rows (λ u. u.id == id) (set_disabled (some true)) users)
disabled-IsLocked id [] = tt
disabled-IsLocked id (u ∷ users) = elim (Bool-cases (u.id == id)) [
  | inl hit ↦ rw hit ((λ e. refl), disabled-IsLocked id users)
  | inr miss ↦ rw miss ((λ e. absurd (nat_eq-ne u.id id miss e)), disabled-IsLocked id users)
]

update-IsLocked : (id : ℕ) (db : Db) → IsLocked id (update id (some true) db).1
unfolding update
update-IsLocked id db =
    elim (Option-cases (
      user_by_id id (record db {
        users = update_rows (λ u. u.id == id) (set_disabled (some true)) db.users;
      }))) [
        | inl absent ↦ rw absent (disabled-IsLocked id db.users)
        | inr (u, found) ↦ rw found (disabled-IsLocked id db.users)
      ]

-- After an administrator disables an account no cookie authenticates as it, whoever logs in or out in
-- the meantime, as long as PostgreSQL generates other ids.
pub update-authenticate :
    (id : ℕ) (db : Db) (ss : List Step) (cookie : Option String) (auth : AuthDto)
    → All (Avoids id) ss
    → (authenticate cookie (steps ss (update id (some true) db).1)).0 ≡ ok auth
    → auth.id ≢ id
update-authenticate id db ss cookie auth a e same =
    let k = steps-IsLocked id ss (update id (some true) db).1 a (update-IsLocked id db) in
    let (token, given, b) =
      authenticate-IsBacked cookie (steps ss (update id (some true) db).1) auth e in
    let off = All-mem (λ u. u.id ≡ id → u.disabled ≡ true) _ k b.known (cc (b.account, same)) in
    cc (off, b.enabled)
