-- ===== src/AdminApi/Users/Sessions.antt =====
-- What becomes of the sessions of an account that is disabled or deleted.
use mathlib.Core.List.{Memᴰ}
use mathlib.Core.Path.{subst}
use yucca.Common.{
  ℕ, ◌==◌, nat_eq-ne, ◌≡◌, ◌∙◌, ◌≢◌, ◌⊎◌, inl, inr, true, false, Option, some, List, [], ◌∷◌, All,
  arith, Bool-cases, String,
}
use yucca.Common.Monad.{ok, err}
use yucca.Database.{User, Session, Db, conflict, delete_rows}
use yucca.Database.Rows.{All-mem}
use yucca.YuccaApi.Auth.{AuthDto, authenticate}
use yucca.YuccaApi.Auth.Login.{authenticate-IsBacked}
use yucca.AdminApi.Users.{update, delete, has_repositories}

no_session :
    (id : ℕ) (sessions : List Session)
    → All (λ s. s.user_id ≢ id) (delete_rows (λ s. s.user_id == id) sessions)
no_session id [] = tt
no_session id (s ∷ sessions) = elim (Bool-cases (s.user_id == id)) [
  | inl gone ↦ rw gone (no_session id sessions)
  | inr kept ↦ rw kept (nat_eq-ne s.user_id id kept, no_session id sessions)
]

disable-sessions :
    (id : ℕ) (db : Db)
    → (update id (some true) db).1.sessions ≡ delete_rows (λ s. s.user_id == id) db.sessions
unfolding update
disable-sessions id db = ground arith

enable-sessions : (id : ℕ) (db : Db) → (update id (some false) db).1.sessions ≡ db.sessions
unfolding update
enable-sessions id db = ground arith

-- An account that is disabled and enabled again has to log in again: no cookie of before authenticates
-- as it.
pub update-reenabled :
    (id : ℕ) (db : Db) (cookie : Option String) (auth : AuthDto)
    → (authenticate cookie (update id (some false) (update id (some true) db).1).1).0 ≡ ok auth
    → auth.id ≢ id
update-reenabled id db cookie auth e same =
    let db2 : Db = (update id (some false) (update id (some true) db).1).1 in
    let sessions : db2.sessions ≡ delete_rows (λ s. s.user_id == id) db.sessions =
      enable-sessions id (update id (some true) db).1 ∙ disable-sessions id db in
    let (token, given, b) = authenticate-IsBacked cookie db2 auth e in
    All-mem (λ s. s.user_id ≢ id) _ (no_session id db.sessions)
      (subst (Memᴰ b.session) sessions b.listed) (cc (b.owned, b.account, same))

no_user : (id : ℕ) (users : List User) → All (λ u. u.id ≢ id) (delete_rows (λ u. u.id == id) users)
no_user id [] = tt
no_user id (u ∷ users) = elim (Bool-cases (u.id == id)) [
  | inl gone ↦ rw gone (no_user id users)
  | inr kept ↦ rw kept (nat_eq-ne u.id id kept, no_user id users)
]

-- Deleting an account is refused, and changes nothing, exactly when it owns a repository. Otherwise the
-- account and all its sessions are gone, and the repositories are as they were.
pub delete-cases :
    (id : ℕ) (db : Db)
    → ((has_repositories id db ≡ true)
        × (delete id db ≡ (err (conflict "Cannot delete a user that still owns repositories"), db)))
      ⊎ ((has_repositories id db ≡ false)
          × ((delete id db).0 ≡ ok tt)
          × All (λ u. u.id ≢ id) (delete id db).1.users
          × All (λ s. s.user_id ≢ id) (delete id db).1.sessions
          × ((delete id db).1.repositories ≡ db.repositories))
unfolding delete
delete-cases id db = elim (Bool-cases (has_repositories id db)) [
  | inl owns ↦ inl (owns, ground arith)
  | inr free ↦
      let users : delete_rows (λ u. u.id == id) db.users ≡ (delete id db).1.users = ground arith in
      let sessions : delete_rows (λ s. s.user_id == id) db.sessions ≡ (delete id db).1.sessions =
        ground arith in
      inr (
        free,
        ground arith,
        subst (All (λ u. u.id ≢ id)) users (no_user id db.users),
        subst (All (λ s. s.user_id ≢ id)) sessions (no_session id db.sessions),
        ground arith,
      )
]
