-- ===== src/AdminApi/Users.antt =====
-- packages/yucca-admin-api/src/services/{user,session}.service.ts with repositories/user.repository.ts and
-- repositories/session.repository.ts.
pub mod Lockout
pub mod Sessions
pub mod Listing
use yucca.Common.{
  ℕ, suc, ◌==◌, Bool, true, false, not, Option, none, some, List, [], ◌∷◌, find, any, select, map,
  take, ltb, if◌then◌else◌,
}
use yucca.Common.Monad.{
  Result, ok, err, Action, pure, throw, gets, or_throw, throw_if, modify, when, ◌>>=◌, ◌>>◌,
}
use yucca.Database.{
  Db, Query, User, Session, Error, conflict, no_result, constraint, update_rows, delete_rows,
  set_or,
}
use yucca.Database.Pages.{Page, resolve_limit, to_id_page, order_by, where_cursor}

abbrev pub user_by_id : ℕ → Db → Option User
user_by_id id db = find (λ u. u.id == id) db.users

-- `userRepository.get`
unfoldable pub get : ℕ → Query User
get id = do user ← gets (user_by_id id); or_throw user no_result

-- `userRepository.list`: `orderBy('id', 'asc')` and `where('id', '>', cursor)`
abbrev pub by_id : User → User → Bool
by_id u v = ltb u.id v.id

abbrev pub id_after : ℕ → User → Bool
id_after cursor u = ltb cursor u.id

unfoldable pub list : Option ℕ → Option ℕ → Db → Page User
list cursor limit db =
    to_id_page
      (take (suc (resolve_limit limit)) (where_cursor id_after cursor (order_by by_id db.users)))
      (resolve_limit limit) (λ u. u.id)

-- `sessionRepository.deleteByUser`, which is `SessionService.deleteForUser`
unfoldable pub delete_by_user : ℕ → Query (Unit {0})
delete_by_user user_id =
    modify λ t. record t { sessions = delete_rows (λ s. s.user_id == user_id) t.sessions }

-- `SessionService.listForUser`
unfoldable pub list_for_user : ℕ → Db → List ℕ
list_for_user user_id db = map (λ s. s.id) (select (λ s. s.user_id == user_id) db.sessions)

-- `SessionService.delete`
unfoldable pub delete_session : ℕ → Query (Unit {0})
delete_session id = modify λ t. record t { sessions = delete_rows (λ s. s.id == id) t.sessions }

abbrev pub is_true : Option Bool → Bool
is_true (some true) = true
is_true _ = false

abbrev pub set_disabled : Option Bool → User → User
set_disabled disabled u = record u { disabled = set_or disabled u.disabled }

-- `update`, of which `disabled` is the only field
unfoldable pub update : ℕ → Option Bool → Query User
unfolding delete_by_user get
update id disabled = do
  when (is_true disabled) (delete_by_user id)
  modify λ t. record t { users = update_rows (λ u. u.id == id) (set_disabled disabled) t.users }
  get id

abbrev pub has_repositories : ℕ → Db → Bool
has_repositories user_id db = any (λ r. r.user_id == user_id) db.repositories

-- The sessions of a user go with it (`onDelete: 'CASCADE'`), and a user that owns a repository stays
-- (`onDelete: 'RESTRICT'`).
unfoldable pub delete_row : ℕ → Query (Unit {0})
delete_row id = do
  owns ← gets (has_repositories id)
  throw_if owns constraint
  modify λ t. record t {
    users = delete_rows (λ u. u.id == id) t.users;
    sessions = delete_rows (λ s. s.user_id == id) t.sessions;
  }

unfoldable pub delete : ℕ → Query (Unit {0})
unfolding delete_row
delete id = do
  owns ← gets (has_repositories id)
  throw_if owns (conflict "Cannot delete a user that still owns repositories")
  delete_row id
