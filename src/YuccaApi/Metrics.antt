-- ===== src/YuccaApi/Metrics.antt =====
-- packages/yucca-api/src/services/metrics.service.ts with repositories/repositoryMetrics.repository.ts
-- and repositories/repositoryMetricsHistory.repository.ts. The clock, and the id and time that
-- PostgreSQL gives a row of the history, are arguments. A method returns what it records on the gauges.
pub mod Upsert
pub mod Replay
pub mod History
mod Tests
use yucca.Common.{
  ℕ, ◌+◌, ◌/◌, ◌*◌, ◌==◌, Bool, true, false, ◌&&◌, ◌||◌, not, Option, none, some, List, [], ◌∷◌,
  ◌++◌, find, any, suc, take, select, if◌then◌else◌, ltb,
}
use yucca.Common.Monad.{
  Result, ok, err, Action, pure, throw, gets, or_throw, throw_if, modify, ◌>>=◌, ◌>>◌,
}
use yucca.Database.{
  Db, Query, Repository, Metrics, History as HistoryRow, Error, unauthorized, internal, constraint,
  update_rows,
}
use yucca.Database.Pages.{Page, resolve_limit, to_cursor_page, order_by, where_cursor}
use yucca.YuccaApi.Repositories.{get_row}

-- `Updateable<RepositoryMetricsTable>`: a field that is `none` is not set
pub record Values : Type 0 where
  pub size_bytes : Option ℕ
  pub last_started : Option ℕ
  pub last_backup : Option ℕ
  pub last_successful_backup : Option ℕ
  pub last_backup_duration : Option ℕ

abbrev pub or_else : Option ℕ → Option ℕ → Option ℕ
or_else none old = old
or_else (some new) old = some new

abbrev pub or_zero : Option ℕ → ℕ → ℕ
or_zero none old = old
or_zero (some new) old = new

-- `doUpdateSet(metrics)`
abbrev pub set_values : Values → Metrics → Metrics
set_values v m = record {
  id = m.id;
  size_bytes = or_zero v.size_bytes m.size_bytes;
  last_started = or_else v.last_started m.last_started;
  last_backup = or_else v.last_backup m.last_backup;
  last_successful_backup = or_else v.last_successful_backup m.last_successful_backup;
  last_backup_duration = or_else v.last_backup_duration m.last_backup_duration;
}

-- `values({ id, sizeBytes: 0, ...metrics })`
abbrev pub new_metrics : ℕ → Values → Metrics
new_metrics id v = record {
  id = id;
  size_bytes = or_zero v.size_bytes 0;
  last_started = v.last_started;
  last_backup = v.last_backup;
  last_successful_backup = v.last_successful_backup;
  last_backup_duration = v.last_backup_duration;
}

-- `INSERT … ON CONFLICT (id) DO UPDATE`
abbrev pub upsert_metrics : ℕ → Values → List Metrics → List Metrics
upsert_metrics id v rows =
    if any (λ m. m.id == id) rows
    then update_rows (λ m. m.id == id) (set_values v) rows
    else rows ++ new_metrics id v ∷ []

-- `metrics.save`; the id is a foreign key
unfoldable pub save : ℕ → Values → Query (Unit {0})
save id v = do
  db ← gets (λ db. db)
  throw_if (not (any (λ r. r.id == id) db.repositories)) constraint
  modify λ t. record t { metrics = upsert_metrics id v t.metrics }

-- `history.create`; the repository is a foreign key
unfoldable pub create : HistoryRow → Query (Unit {0})
create h = do
  db ← gets (λ db. db)
  throw_if (not (any (λ r. r.id == h.repository_id) db.repositories)) constraint
  modify λ t. record t { history = t.history ++ h ∷ [] }

-- The check of every method here.
unfoldable pub own : ℕ → ℕ → Query Repository
unfolding get_row
own auth_id id = do
  view ← get_row id
  throw_if (not (view.repository.user_id == auth_id)) (unauthorized "Unauthorized")
  pure view.repository

pub data Recording : Type 0 where
  repository_size last_started last_backup last_backup_duration last_successful_backup :
      ℕ → Recording

abbrev pub to_unix_seconds : ℕ → ℕ
to_unix_seconds date = date / 1000

-- the generated columns of a row of the history
pub record Stamp : Type 0 where
  pub id : ℕ
  pub created_at : ℕ

unfoldable pub submit_backup_start : Stamp → ℕ → ℕ → ℕ → Query (List Recording)
unfolding own save create
submit_backup_start stamp now auth_id id = do
  repository ← own auth_id id
  save id (record {
    size_bytes = none;
    last_started = some now;
    last_backup = none;
    last_successful_backup = none;
    last_backup_duration = none;
  })
  create (record {
    id = stamp.id;
    repository_id = id;
    created_at = stamp.created_at;
    size_bytes = none;
    started = some now;
    backup = none;
    successful_backup = none;
    backup_duration = none;
  })
  pure (last_started (to_unix_seconds now) ∷ [])

-- `...(dto.success ? { …: now } : {})`
abbrev pub on_success : Bool → ℕ → Option ℕ
on_success true now = some now
on_success false now = none

unfoldable pub submit_backup_end :
    Stamp → ℕ → ℕ → ℕ → (duration_ms : ℕ) → (success : Bool) → Query (List Recording)
unfolding own save create
submit_backup_end stamp now auth_id id duration_ms success = do
  repository ← own auth_id id
  save id (record {
    size_bytes = none;
    last_started = none;
    last_backup = some now;
    last_successful_backup = on_success success now;
    last_backup_duration = some duration_ms;
  })
  create (record {
    id = stamp.id;
    repository_id = id;
    created_at = stamp.created_at;
    size_bytes = none;
    started = none;
    backup = some now;
    successful_backup = on_success success now;
    backup_duration = some duration_ms;
  })
  pure (
      last_backup (to_unix_seconds now)
      ∷ last_backup_duration duration_ms
      ∷ (if success then last_successful_backup (to_unix_seconds now) ∷ [] else []))

unfoldable pub submit_repository_size : Stamp → ℕ → ℕ → (size_bytes : ℕ) → Query (List Recording)
unfolding own save create
submit_repository_size stamp auth_id id size_bytes = do
  repository ← own auth_id id
  save id (record {
    size_bytes = some size_bytes;
    last_started = none;
    last_backup = none;
    last_successful_backup = none;
    last_backup_duration = none;
  })
  create (record {
    id = stamp.id;
    repository_id = id;
    created_at = stamp.created_at;
    size_bytes = some size_bytes;
    started = none;
    backup = none;
    successful_backup = none;
    backup_duration = none;
  })
  pure (repository_size size_bytes ∷ [])

-- `orderBy('createdAt', 'desc').orderBy('id', 'desc')`
abbrev pub newer : HistoryRow → HistoryRow → Bool
newer h k = ltb k.created_at h.created_at || ((k.created_at == h.created_at) && ltb k.id h.id)

-- `row.createdAt.toISOString()`: the column has microseconds, the cursor milliseconds
abbrev pub cursor_of : HistoryRow → ℕ
cursor_of h = h.created_at / 1000

-- `where('createdAt', '<', new Date(cursor))`
abbrev pub older_than : ℕ → HistoryRow → Bool
older_than cursor h = ltb h.created_at (cursor * 1000)

-- `history.list`
unfoldable pub list : ℕ → Option ℕ → ℕ → Db → Option (Page HistoryRow)
list id cursor limit db =
    to_cursor_page
      (take (suc limit) (
        where_cursor older_than cursor
          (order_by newer (select (λ h. h.repository_id == id) db.history))))
      limit cursor_of

-- `listHistory`; the `TypeError` of a page without rows is an internal error
unfoldable pub list_history : ℕ → ℕ → Option ℕ → Option ℕ → Query (Page HistoryRow)
unfolding own
list_history auth_id id cursor limit = do
  repository ← own auth_id id
  page ← gets (λ db. list id cursor (resolve_limit limit) db)
  or_throw page (internal "TypeError")
