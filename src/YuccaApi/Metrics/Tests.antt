-- ===== src/YuccaApi/Metrics/Tests.antt =====
-- The theorems on metrics at concrete tables, and a history whose pages lose a row.
use yucca.Common.{ℕ, ◌≡◌, refl, true, false, none, some, List, [], ◌∷◌, arith, select, ◌==◌}
use mathlib.Core.List.{Permᴰ}
use yucca.Database.{Db, History}
use yucca.Database.Pages.{walk, order_by}
use yucca.YuccaApi.Repositories.{delete_repository}
use yucca.YuccaApi.Metrics.{list, newer}
use yucca.YuccaApi.Metrics.Upsert.{IsReplayed}
use yucca.YuccaApi.Metrics.Replay.{
  Event, repositories, backup_start, backup_end, repository_size, events, events-IsReplayed,
}
use yucca.YuccaApi.Metrics.History.{walk-history}

abbrev size_at : ℕ → ℕ → ℕ → History
size_at id time size = record {
  id = id;
  repository_id = 5;
  created_at = time;
  size_bytes = some size;
  started = none;
  backup = none;
  successful_backup = none;
  backup_duration = none;
}

abbrev with_history : List History → Db
with_history rows = record {
  users = [];
  sessions = [];
  repositories = record { id = 5; user_id = 1; worm = false; name = "r" } ∷ [];
  metrics = [];
  history = rows;
  meter = [];
  meter_history = [];
}

abbrev empty : Db
empty = with_history []

abbrev day : List Event
day =
    backup_start (record { id = 1; created_at = 10 }) 10 1 5
    ∷ backup_end (record { id = 2; created_at = 20 }) 20 1 5 10 true
    ∷ backup_end (record { id = 3; created_at = 30 }) 30 2 5 10 true
    ∷ repository_size (record { id = 4; created_at = 40 }) 1 5 100
    ∷ repositories 1 (delete_repository 5)
    ∷ []

events-IsReplayed_example : IsReplayed (events day empty)
events-IsReplayed_example = events-IsReplayed day empty (λ id. refl)

abbrev two_rows : Db
two_rows = with_history (size_at 1 10000 100 ∷ size_at 2 20000 200 ∷ [])

walk-history_example :
    (rows : List History) × (walk 3 (λ cursor. list 5 cursor 1 two_rows) none ≡ some rows)
    × Permᴰ rows (select (λ h. h.repository_id == 5) two_rows.history)
    × (rows ≡ order_by newer (select (λ h. h.repository_id == 5) two_rows.history))
walk-history_example = walk-history 5 1 two_rows (ground arith) ((ground arith, tt), (tt, tt))

-- Two rows of one millisecond, at different microseconds: the older one is on no page of one row.
tie :
    walk 3
      (λ cursor. list 5 cursor 1 (with_history (size_at 1 10100 100 ∷ size_at 2 10200 200 ∷ [])))
      none
    ≡ some (size_at 2 10200 200 ∷ [])
unfolding list
tie = refl

-- A limit of 0 is no page.
no_limit : list 5 none 0 two_rows ≡ none
unfolding list
no_limit = refl
