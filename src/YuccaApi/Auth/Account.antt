-- ===== src/YuccaApi/Auth/Account.antt =====
-- The account that a login finds or creates.
use mathlib.Core.Path.{subst₂, sym}
use text.Mathlib.Text.{◌==◌ as str_eq}
use text.Mathlib.TextEquality.{eq_iff}
use yucca.Common.{
  ℕ, ◌==◌, ◌≡◌, refl, ◌≢◌, inl, inr, true, false, ◌||◌, some, List, [], ◌∷◌, ◌++◌, any, All, arith,
  Option-cases, String,
}
use yucca.Common.Monad.{ok, err}
use yucca.Database.{User, Db, unauthorized, update_rows}
use yucca.Database.Rows.{find-mem, Distinct, Distinct-append, Distinct-update_rows}
use yucca.YuccaApi.Auth.{Claims, owner, get_by_sub, get_or_create_user, create_user, update_user}
use yucca.YuccaApi.Auth.Rows.{owner-update, owner-append}

-- The keys that the tables keep: ids and subs of users, tokens of sessions.
pub record IsKeyed (db : Db) : Type 0 where
  pub ids : Distinct (λ u. u.id) db.users
  pub subs : Distinct (λ u. u.sub) db.users
  pub tokens : Distinct (λ s. s.access_token) db.sessions

-- The generated id is that of no user.
abbrev pub IsFresh : ℕ → Db → Type 0
IsFresh id db = All (λ u. u.id ≢ id) db.users

-- What `get_or_create_user` promises of its result.
pub record IsAccount (claims : Claims) (db db' : Db) (id : ℕ) : Type 0 where
  pub user : User
  pub found : owner id db'.users ≡ some user
  pub same_id : user.id ≡ id
  pub sub : user.sub ≡ claims.sub
  pub name : some user.name ≡ claims.name
  pub email : some user.email ≡ claims.email
  pub sessions : db'.sessions ≡ db.sessions
  pub keyed : IsKeyed db'

unique_subs :
    (sub email : String) (users : List User)
    → any (λ v. str_eq v.sub sub || str_eq v.email email) users ≡ false
    → All (λ v. v.sub ≢ sub) users
unique_subs sub email [] h = tt
unique_subs sub email (v ∷ users) h =
    (ground (arith, eq_iff v.sub sub), unique_subs sub email users (ground arith))

abbrev created : Db → User → Db
created db u = record db { users = db.users ++ u ∷ [] }

abbrev renamed : String → String → User → User
renamed name email u = record u { name = name; email = email }

abbrev updated : Db → ℕ → String → String → Db
updated db id name email = record db {
  users = update_rows (λ u. u.id == id) (renamed name email) db.users;
}

created-IsAccount :
    (fresh : ℕ) (claims : Claims) (db : Db) (name email : String)
    → IsKeyed db
    → IsFresh fresh db
    → claims.name ≡ some name
    → claims.email ≡ some email
    → any (λ v. str_eq v.sub claims.sub || str_eq v.email email) db.users ≡ false
    → IsAccount claims db
        (created db
          (record { id = fresh; sub = claims.sub; name = name; email = email; disabled = false }))
        fresh
created-IsAccount fresh claims db name email keyed f en ee free =
    let u : User = record {
      id = fresh;
      sub = claims.sub;
      name = name;
      email = email;
      disabled = false;
    } in
    record {
      user = u;
      found = owner-append db.users u f refl;
      same_id = refl;
      sub = refl;
      name = sym en;
      email = sym ee;
      sessions = refl;
      keyed = record {
        ids = Distinct-append _ db.users u keyed.ids f;
        subs = Distinct-append _ db.users u keyed.subs (unique_subs claims.sub email db.users free);
        tokens = keyed.tokens;
      };
    }

updated-IsAccount :
    (claims : Claims) (db : Db) (u : User) (name email : String)
    → IsKeyed db
    → get_by_sub claims.sub db.users ≡ some u
    → u.disabled ≡ false
    → claims.name ≡ some name
    → claims.email ≡ some email
    → IsAccount claims db (updated db u.id name email) u.id
updated-IsAccount claims db u name email keyed known enabled en ee = record {
  user = record u { name = name; email = email };
  found = owner-update claims.sub name email db.users u keyed.ids known enabled;
  same_id = refl;
  sub = (eq_iff _ _).0 (find-mem (λ v. str_eq v.sub claims.sub) db.users known).1;
  name = sym en;
  email = sym ee;
  sessions = refl;
  keyed = record {
    ids =
        Distinct-update_rows (λ v. v.id) (λ v. v.id == u.id) (renamed name email) db.users
          (λ x. refl) keyed.ids;
    subs =
        Distinct-update_rows (λ v. v.sub) (λ v. v.id == u.id) (renamed name email) db.users
          (λ x. refl) keyed.subs;
    tokens = keyed.tokens;
  };
}

-- A login ends in the account of the claims, created with them or updated to them, and never in a
-- disabled one. The keys stay unique.
pub get_or_create_user-IsAccount :
    (fresh : ℕ) (claims : Claims) (db : Db) (id : ℕ)
    → IsKeyed db
    → IsFresh fresh db
    → (get_or_create_user fresh claims db).0 ≡ ok id
    → IsAccount claims db (get_or_create_user fresh claims db).1 id
unfolding get_or_create_user create_user update_user
get_or_create_user-IsAccount fresh claims db id keyed f e = elim (Option-cases claims.name) [
  | inl missing ↦ absurd (ground arith)
  | inr (name, en) ↦ elim (Option-cases claims.email) [
    | inl missing ↦ absurd (ground arith)
    | inr (email, ee) ↦ elim (Option-cases (get_by_sub claims.sub db.users)) [
      | inl unknown ↦
          let u : User = record {
            id = fresh;
            sub = claims.sub;
            name = name;
            email = email;
            disabled = false;
          } in
          let shape : (any (λ v. str_eq v.sub claims.sub || str_eq v.email email) db.users ≡ false)
              × (created db u ≡ (get_or_create_user fresh claims db).1)
              × (fresh ≡ id) =
            ground arith in
          subst₂ (λ d i. IsAccount claims db d i) shape.1 shape.2
            (created-IsAccount fresh claims db name email keyed f en ee shape.0)
      | inr (u, known) ↦
          let shape : (u.disabled ≡ false)
              × (updated db u.id name email ≡ (get_or_create_user fresh claims db).1)
              × (u.id ≡ id) =
            ground arith in
          subst₂ (λ d i. IsAccount claims db d i) shape.1 shape.2
            (updated-IsAccount claims db u name email keyed known shape.0 en ee)
    ]
  ]
]

-- Nobody logs in to a disabled account: the request is refused and the tables stay as they are.
pub get_or_create_user-disabled :
    (fresh : ℕ) (claims : Claims) (db : Db) (name email : String) (u : User)
    → claims.name ≡ some name
    → claims.email ≡ some email
    → get_by_sub claims.sub db.users ≡ some u
    → u.disabled ≡ true
    → get_or_create_user fresh claims db ≡ (err (unauthorized "Account is disabled"), db)
unfolding get_or_create_user
get_or_create_user-disabled fresh claims db name email u en ee known disabled = ground arith
