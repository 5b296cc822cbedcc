-- ===== src/AdminApi/Repositories.antt =====
-- packages/yucca-admin-api/src/services/repository.service.ts with repositories/repository.repository.ts.
use mathlib.Core.List.{Permᴰ}
use yucca.Common.{
  ℕ, suc, ◌==◌, ◌≤◌, ◌≡◌, refl, ◌≢◌, inl, inr, Bool, Option, none, some, List, [], ◌∷◌, find,
  select, take, ltb, length, String, arith, Bool-cases, Option-cases, All,
}
use yucca.Common.Monad.{throw, gets, or_throw, modify, ◌>>=◌, ◌>>◌}
use yucca.Database.{Db, Query, User, Repository, Metrics, internal, no_result, update_rows}
use yucca.Database.Rows.{Distinct}
use yucca.Database.Pages.{Page, resolve_limit, to_id_page, order_by, where_cursor, walk}
use yucca.Database.Pages.Order.{IsOrder, order-Perm}
use yucca.Database.Pages.Walk.{walk-id}
use yucca.YuccaApi.Repositories.{UpdateDto, change, metrics_of}

-- `RepositoryAdminDto`: the row with `ownerJson` and `metricsJson`
pub record View : Type 0 where
  pub id : ℕ
  pub name : String
  pub worm : Bool
  pub user : User
  pub size_bytes : ℕ
  pub metrics : Option Metrics

abbrev pub to_view : Db → Repository → User → View
to_view db r u = record {
  id = r.id;
  name = r.name;
  worm = r.worm;
  user = u;
  size_bytes = elim (metrics_of r.id db) [ none ↦ 0 | some m ↦ m.size_bytes ];
  metrics = metrics_of r.id db;
}

-- the rows of the `innerJoin` with the users and the `leftJoin` with the metrics
abbrev pub join : Db → List Repository → List View
join db [] = []
join db (r ∷ rows) =
    let rest = join db rows in
    elim (find (λ u. u.id == r.user_id) db.users) [ none ↦ rest | some u ↦ to_view db r u ∷ rest ]

abbrev pub by_id : View → View → Bool
by_id v w = ltb v.id w.id

abbrev pub id_after : ℕ → View → Bool
id_after cursor v = ltb cursor v.id

-- `where('repositories.userId', '=', userId)`, if there is a user
abbrev pub of_user : Option ℕ → List Repository → List Repository
of_user none rows = rows
of_user (some id) rows = select (λ r. r.user_id == id) rows

unfoldable pub list : Option ℕ → Option ℕ → Option ℕ → Db → Page View
list user_id cursor limit db =
    to_id_page
      (take (suc (resolve_limit limit))
        (where_cursor id_after cursor (order_by by_id (join db (of_user user_id db.repositories)))))
      (resolve_limit limit) (λ v. v.id)

abbrev pub view_by_id : ℕ → Db → Option View
view_by_id id db = find (λ v. v.id == id) (join db db.repositories)

unfoldable pub get : ℕ → Query View
get id = do view ← gets (view_by_id id); or_throw view no_result

unfoldable pub update : ℕ → UpdateDto → Query View
unfolding get
update id dto = do
  modify λ t. record t { repositories = update_rows (λ r. r.id == id) (change dto) t.repositories }
  get id

-- `delete`, whose query is never reached
unfoldable pub delete : ℕ → Query (Unit {0})
delete id = throw (internal "unimplemented - must talk to S3")

by_id-IsOrder : IsOrder (λ (v : View). v.id) by_id id_after
by_id-IsOrder = record {
  irrefl = λ x. ground arith;
  asym = λ x y h. ground arith;
  trans = λ x y z h k. ground arith;
  yes = λ x y n h. ground arith;
  no = λ x y n h. ground arith;
}

join-none :
    (db : Db) (r : Repository) (rows : List Repository)
    → find (λ u. u.id == r.user_id) db.users ≡ none
    → join db (r ∷ rows) ≡ join db rows
join-none db r rows e = ground arith

join-some :
    (db : Db) (r : Repository) (rows : List Repository) (u : User)
    → find (λ u. u.id == r.user_id) db.users ≡ some u
    → join db (r ∷ rows) ≡ to_view db r u ∷ join db rows
join-some db r rows u e = ground arith

All-join :
    (id : ℕ) (db : Db) (rows : List Repository)
    → All (λ r. r.id ≢ id) rows
    → All (λ v. v.id ≢ id) (join db rows)
All-join id db [] h = tt
All-join id db (r ∷ rows) (n, h) = elim (Option-cases (find (λ u. u.id == r.user_id) db.users)) [
  | inl nobody ↦ rw (join-none db r rows nobody) (All-join id db rows h)
  | inr (u, owner) ↦ rw (join-some db r rows u owner) (n, All-join id db rows h)
]

Distinct-join :
    (db : Db) (rows : List Repository)
    → Distinct (λ r. r.id) rows
    → Distinct (λ v. v.id) (join db rows)
Distinct-join db [] d = tt
Distinct-join db (r ∷ rows) (a, d) = elim (Option-cases (find (λ u. u.id == r.user_id) db.users)) [
  | inl nobody ↦ rw (join-none db r rows nobody) (Distinct-join db rows d)
  | inr (u, owner) ↦
      rw (join-some db r rows u owner) (All-join r.id db rows a, Distinct-join db rows d)
]

All-of_user :
    (id : ℕ) (user_id : ℕ) (rows : List Repository)
    → All (λ r. r.id ≢ id) rows
    → All (λ r. r.id ≢ id) (select (λ r. r.user_id == user_id) rows)
All-of_user id user_id [] h = tt
All-of_user id user_id (r ∷ rows) (n, h) = elim (Bool-cases (r.user_id == user_id)) [
  | inl own ↦ rw own (n, All-of_user id user_id rows h)
  | inr other ↦ rw other (All-of_user id user_id rows h)
]

Distinct-of_user :
    (user_id : Option ℕ) (rows : List Repository)
    → Distinct (λ r. r.id) rows
    → Distinct (λ r. r.id) (of_user user_id rows)
Distinct-of_user none rows d = d
Distinct-of_user (some id) [] d = tt
Distinct-of_user (some id) (r ∷ rows) (a, d) = elim (Bool-cases (r.user_id == id)) [
  | inl own ↦ rw own (All-of_user r.id id rows a, Distinct-of_user (some id) rows d)
  | inr other ↦ rw other (Distinct-of_user (some id) rows d)
]

-- A client that follows the cursors of the list of repositories, of one user or of all, on pages of at
-- least one row, gets every one of them that has an owner, once, in the order of the ids.
pub walk-repositories :
    (user_id limit : Option ℕ) (db : Db)
    → 1 ≤ resolve_limit limit
    → Distinct (λ r. r.id) db.repositories
    → (views : List View) × (walk
          (suc (length (join db (of_user user_id db.repositories))))
          (λ cursor. some (list user_id cursor limit db))
          none
        ≡ some views)
      × Permᴰ views (join db (of_user user_id db.repositories))
      × (views ≡ order_by by_id (join db (of_user user_id db.repositories)))
unfolding list
walk-repositories user_id limit db p d =
    let rows : List View = join db (of_user user_id db.repositories) in
    (
      order_by by_id rows,
      walk-id (λ v. v.id) by_id id_after by_id-IsOrder (resolve_limit limit) (suc (length rows))
          rows p
          (Distinct-join db (of_user user_id db.repositories)
            (Distinct-of_user user_id db.repositories d))
          (omega arith),
      order-Perm (λ v. v.id) by_id id_after rows,
      refl,
    )
