-- ===== src/AdminApi/Users/Listing.antt =====
-- The pages of the list of users.
use mathlib.Core.List.{Permᴰ}
use yucca.Common.{ℕ, suc, ◌≤◌, ◌≡◌, refl, Option, none, some, List, length, arith}
use yucca.Database.{Db, User}
use yucca.Database.Rows.{Distinct}
use yucca.Database.Pages.{walk, order_by, resolve_limit}
use yucca.Database.Pages.Order.{IsOrder, order-Perm}
use yucca.Database.Pages.Walk.{walk-id}
use yucca.AdminApi.Users.{list, by_id, id_after}

by_id-IsOrder : IsOrder (λ (u : User). u.id) by_id id_after
by_id-IsOrder = record {
  irrefl = λ x. ground arith;
  asym = λ x y h. ground arith;
  trans = λ x y z h k. ground arith;
  yes = λ x y n h. ground arith;
  no = λ x y n h. ground arith;
}

-- A client that follows the cursors of the list of users, on pages of at least one row, gets every user
-- once, in the order of the ids.
pub walk-users :
    (limit : Option ℕ) (db : Db)
    → 1 ≤ resolve_limit limit
    → Distinct (λ u. u.id) db.users
    → (users : List User) × (walk
          (suc (length db.users))
          (λ cursor. some (list cursor limit db))
          none
        ≡ some users)
      × Permᴰ users db.users
      × (users ≡ order_by by_id db.users)
unfolding list
walk-users limit db p d = (
  order_by by_id db.users,
  walk-id (λ u. u.id) by_id id_after by_id-IsOrder (resolve_limit limit) (suc (length db.users))
      db.users p d (omega arith),
  order-Perm (λ u. u.id) by_id id_after db.users,
  refl,
)
