-- ===== src/YuccaApi/Metrics/Replay.antt =====
-- The table of metrics against the history: what a repository's row holds is what its history replays to.
use mathlib.Core.Path.{subst, sym}
use yucca.Common.{
  ℕ, ◌==◌, ==_iff, nat_eq-ne, ◌≡◌, refl, ◌≢◌, ◌⊎◌, inl, inr, Bool, true, Option, none, some, List,
  [], ◌∷◌, find, any, arith, Bool-cases, Option-cases,
}
use yucca.Database.{Db, Repository, Metrics, History, delete_rows}
use yucca.YuccaApi.Repositories.{
  row, to_view, delete, Request, request, create_repository, get_repository, get_repositories,
  update_repository, delete_repository, create_restic_url, get, create as create_repo, update,
  create_url,
}
use yucca.YuccaApi.Metrics.{
  own, Stamp, on_success, submit_backup_start, submit_backup_end, submit_repository_size,
}
use yucca.YuccaApi.Metrics.Upsert.{
  values_of, note, replay, metrics_in, IsReplayed, recorded, recorded-IsReplayed,
}

-- a method leaves the tables as they are, or records one row
abbrev Records : Db → Db → Type 0
Records db db' = (db' ≡ db) ⊎ ((h : History) × (db' ≡ recorded db h))

Records-IsReplayed : (db db' : Db) → IsReplayed db → Records db db' → IsReplayed db'
Records-IsReplayed db db' r (inl same) = subst IsReplayed (sym same) r
Records-IsReplayed db db' r (inr (h, new)) = subst IsReplayed (sym new) (recorded-IsReplayed db h r)

any-row :
    (id : ℕ) (rows : List Repository) (r : Repository)
    → find (λ r. r.id == id) rows ≡ some r
    → any (λ r. r.id == id) rows ≡ true
any-row id [] r e = cc
any-row id (x ∷ rows) r e = ground (arith, any-row id rows r)

start-Records :
    (stamp : Stamp) (now auth_id id : ℕ) (db : Db)
    → Records db (submit_backup_start stamp now auth_id id db).1
unfolding submit_backup_start to_view
start-Records stamp now auth_id id db = elim (Option-cases (row id db)) [
  | inl absent ↦ inl (ground arith)
  | inr (r, found) ↦ elim (Bool-cases (r.user_id == auth_id)) [
    | inr other ↦ inl (ground arith)
    | inl own ↦ inr (
      record {
        id = stamp.id;
        repository_id = id;
        created_at = stamp.created_at;
        size_bytes = none;
        started = some now;
        backup = none;
        successful_backup = none;
        backup_duration = none;
      },
      ground (arith, any-row id db.repositories r found),
    )
  ]
]

end-Records :
    (stamp : Stamp) (now auth_id id duration_ms : ℕ) (success : Bool) (db : Db)
    → Records db (submit_backup_end stamp now auth_id id duration_ms success db).1
unfolding submit_backup_end to_view
end-Records stamp now auth_id id duration_ms success db = elim (Option-cases (row id db)) [
  | inl absent ↦ inl (ground arith)
  | inr (r, found) ↦ elim (Bool-cases (r.user_id == auth_id)) [
    | inr other ↦ inl (ground arith)
    | inl own ↦ inr (
      record {
        id = stamp.id;
        repository_id = id;
        created_at = stamp.created_at;
        size_bytes = none;
        started = none;
        backup = some now;
        successful_backup = on_success success now;
        backup_duration = some duration_ms;
      },
      ground (arith, any-row id db.repositories r found),
    )
  ]
]

size-Records :
    (stamp : Stamp) (auth_id id size_bytes : ℕ) (db : Db)
    → Records db (submit_repository_size stamp auth_id id size_bytes db).1
unfolding submit_repository_size to_view
size-Records stamp auth_id id size_bytes db = elim (Option-cases (row id db)) [
  | inl absent ↦ inl (ground arith)
  | inr (r, found) ↦ elim (Bool-cases (r.user_id == auth_id)) [
    | inr other ↦ inl (ground arith)
    | inl own ↦ inr (
      record {
        id = stamp.id;
        repository_id = id;
        created_at = stamp.created_at;
        size_bytes = some size_bytes;
        started = none;
        backup = none;
        successful_backup = none;
        backup_duration = none;
      },
      ground (arith, any-row id db.repositories r found),
    )
  ]
]

replay-delete_self :
    (id : ℕ) (hs : List History) (m : Option Metrics)
    → replay id (delete_rows (λ h. h.repository_id == id) hs) m ≡ m
replay-delete_self id [] m = refl
replay-delete_self id (h ∷ hs) m = ground (arith, replay-delete_self id hs m)

replay-delete_ne :
    (id other : ℕ) (hs : List History) (m : Option Metrics)
    → other ≢ id
    → replay id (delete_rows (λ h. h.repository_id == other) hs) m ≡ replay id hs m
replay-delete_ne id other [] m n = refl
replay-delete_ne id other (h ∷ hs) m n = ground (
  arith,
  replay-delete_ne id other hs m n,
  replay-delete_ne id other hs (note id (values_of h) m) n,
)

metrics-delete_self :
    (id : ℕ) (rows : List Metrics) → metrics_in id (delete_rows (λ m. m.id == id) rows) ≡ none
metrics-delete_self id [] = refl
metrics-delete_self id (x ∷ rows) = ground (arith, metrics-delete_self id rows)

metrics-delete_ne :
    (id other : ℕ) (rows : List Metrics)
    → other ≢ id
    → metrics_in id (delete_rows (λ m. m.id == other) rows) ≡ metrics_in id rows
metrics-delete_ne id other [] n = refl
metrics-delete_ne id other (x ∷ rows) n = ground (arith, metrics-delete_ne id other rows n)

abbrev deleted : Db → ℕ → Db
deleted db id = record db {
  repositories = delete_rows (λ r. r.id == id) db.repositories;
  metrics = delete_rows (λ m. m.id == id) db.metrics;
  history = delete_rows (λ h. h.repository_id == id) db.history;
  meter = delete_rows (λ m. m.repository_id == id) db.meter;
  meter_history = delete_rows (λ m. m.repository_id == id) db.meter_history;
}

deleted-IsReplayed : (db : Db) (j : ℕ) → IsReplayed db → IsReplayed (deleted db j)
deleted-IsReplayed db j r id = elim (Bool-cases (j == id)) [
  | inl same ↦
      let e : j ≡ id = (==_iff j id).0 same in
      ground (arith, metrics-delete_self j db.metrics, replay-delete_self j db.history none)
  | inr other ↦
      let n = nat_eq-ne j id other in
      ground
        (arith, metrics-delete_ne id j db.metrics n, replay-delete_ne id j db.history none n, r id)
]

delete-deleted :
    (auth_id id : ℕ) (db : Db)
    → ((delete auth_id id db).1 ≡ db) ⊎ ((delete auth_id id db).1 ≡ deleted db id)
unfolding delete to_view
delete-deleted auth_id id db = ground arith

request-IsReplayed :
    (auth_id : ℕ) (q : Request) (db : Db) → IsReplayed db → IsReplayed (request auth_id q db)
unfolding request
request-IsReplayed auth_id (create_repository fresh name worm) db r id =
    unfold create_repo in ground (arith, r id)
request-IsReplayed auth_id (get_repository j) db r id = unfold get in ground (arith, r id)
request-IsReplayed auth_id get_repositories db r id = r id
request-IsReplayed auth_id (create_restic_url j) db r id = unfold create_url in ground (arith, r id)
request-IsReplayed auth_id (update_repository j dto) db r id = unfold update in ground (arith, r id)
request-IsReplayed auth_id (delete_repository j) db r id = elim (delete-deleted auth_id j db) [
  | inl same ↦ subst IsReplayed (sym same) r id
  | inr gone ↦ subst IsReplayed (sym gone) (deleted-IsReplayed db j r) id
]

-- what reaches the API: a request for repositories, or a submission
pub data Event : Type 0 where
  repositories : ℕ → Request → Event
  backup_start : Stamp → (now auth_id id : ℕ) → Event
  backup_end : Stamp → (now auth_id id duration_ms : ℕ) → (success : Bool) → Event
  repository_size : Stamp → (auth_id id size_bytes : ℕ) → Event

abbrev pub event : Event → Db → Db
event (repositories auth_id q) db = request auth_id q db
event (backup_start stamp now auth_id id) db = (submit_backup_start stamp now auth_id id db).1
event (backup_end stamp now auth_id id duration_ms success) db =
    (submit_backup_end stamp now auth_id id duration_ms success db).1
event (repository_size stamp auth_id id size_bytes) db =
    (submit_repository_size stamp auth_id id size_bytes db).1

abbrev pub events : List Event → Db → Db
events [] db = db
events (e ∷ es) db = events es (event e db)

event-IsReplayed : (e : Event) (db : Db) → IsReplayed db → IsReplayed (event e db)
event-IsReplayed (repositories auth_id q) db r = request-IsReplayed auth_id q db r
event-IsReplayed (backup_start stamp now auth_id id) db r =
    Records-IsReplayed db _ r (start-Records stamp now auth_id id db)
event-IsReplayed (backup_end stamp now auth_id id duration_ms success) db r =
    Records-IsReplayed db _ r (end-Records stamp now auth_id id duration_ms success db)
event-IsReplayed (repository_size stamp auth_id id size_bytes) db r =
    Records-IsReplayed db _ r (size-Records stamp auth_id id size_bytes db)

-- If the metrics of every repository are what its history replays to, they still are after any requests
-- and submissions: started, failed and successful backups, sizes, refused calls and deletions included.
pub events-IsReplayed : (es : List Event) (db : Db) → IsReplayed db → IsReplayed (events es db)
events-IsReplayed [] db r = r
events-IsReplayed (e ∷ es) db r = events-IsReplayed es (event e db) (event-IsReplayed e db r)
