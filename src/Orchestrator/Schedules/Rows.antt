-- ===== src/Orchestrator/Schedules/Rows.antt =====
-- packages/yucca-sdk/orchestration-api/src/repositories/schedule.repository.ts: the queries on schedules
-- and their links, and the links of an update (services/schedule.service.ts).
use yucca.Common.{ℕ, ◌==◌, ◌&&◌, ◌||◌, not, Option, none, some, List, [], ◌∷◌, ◌++◌, any, find, map}
use yucca.Common.Monad.{pure, gets, or_throw, throw_if, modify, skip, ◌>>=◌, ◌>>◌}
use yucca.Common.Sets.{difference, dedupe, nat_Eq}
use yucca.Database.{no_result, constraint, update_rows, delete_rows}
use yucca.Orchestrator.Schedules.{
  ScheduleRow, Schedule, Event, Scheduler, linked_to, to_dto, is_link, Op,
}

module _ {J : Type 0} where
  unfoldable pub publish : Event → Op J (Unit {0})
  publish e = modify λ s. record s { published = s.published ++ e ∷ [] }

  -- `schedule.create`: the id is the primary key
  unfoldable pub create_row : ScheduleRow → Op J (Unit {0})
  create_row r = do
    taken ← gets (λ s. any (λ x. x.id == r.id) s.schedules)
    throw_if taken constraint
    modify λ s. record s { schedules = s.schedules ++ r ∷ [] }

  -- `schedule.get`
  unfoldable pub get : ℕ → Op J Schedule
  get id = do
    s ← gets (λ s. s)
    r ← or_throw (find (λ r. r.id == id) s.schedules) no_result
    pure (to_dto s.tables.repository_schedules r)

  -- `schedule.getAll`
  abbrev pub get_all : Scheduler J → List Schedule
  get_all s = map (to_dto s.tables.repository_schedules) s.schedules

  -- `schedule.updateSchedule`
  unfoldable pub update_row : ℕ → (ScheduleRow → ScheduleRow) → Op J (Unit {0})
  update_row id f = do
    known ← gets (λ s. any (λ r. r.id == id) s.schedules)
    throw_if (not known) no_result
    modify λ s. record s { schedules = update_rows (λ r. r.id == id) f s.schedules }

  -- `schedule.removeSchedule`: a link goes with its schedule, the row of an integration does not
  unfoldable pub remove_row : ℕ → Op J (Unit {0})
  remove_row id = do
    used ← gets (λ s. any (λ i. i.schedule_id == id) s.tables.integrations)
    throw_if used constraint
    modify λ s. record s {
      schedules = delete_rows (λ r. r.id == id) s.schedules;
      tables = record s.tables {
        repository_schedules = delete_rows (λ l. l.schedule == id) s.tables.repository_schedules;
      };
    }

  -- `addRepositoryToSchedule`: the primary key is the pair, both are foreign keys
  unfoldable pub add_repository : (schedule repository : ℕ) → Op J (Unit {0})
  add_repository id r = do
    s ← gets (λ s. s)
    throw_if
        (any (is_link id r) s.tables.repository_schedules
          || not (any (λ x. x.id == r) s.tables.repositories && any (λ x. x.id == id) s.schedules))
        constraint
    modify λ s. record s {
      tables = record s.tables {
        repository_schedules =
            s.tables.repository_schedules ++ record { schedule = id; repository = r } ∷ [];
      };
    }

  -- `removeRepositoryFromSchedule`
  unfoldable pub remove_repository : (schedule repository : ℕ) → Op J (Unit {0})
  remove_repository id r = modify λ s. record s {
    tables = record s.tables {
      repository_schedules = delete_rows (is_link id r) s.tables.repository_schedules;
    };
  }

  unfoldable pub add_repositories : ℕ → List ℕ → Op J (Unit {0})
  add_repositories id [] = skip
  add_repositories id (r ∷ rs) = add_repository id r >> add_repositories id rs

  unfoldable pub remove_repositories : ℕ → List ℕ → Op J (Unit {0})
  remove_repositories id [] = skip
  remove_repositories id (r ∷ rs) = remove_repository id r >> remove_repositories id rs

  -- the links of an update: `toAdd` keeps what is asked for twice, `toRemove` has nothing twice
  unfoldable pub set_links : ℕ → Option (List ℕ) → Op J (Unit {0})
  unfolding add_repositories remove_repositories
  set_links id none = skip
  set_links id (some requested) = do
    linked ← gets (λ s. linked_to id s.tables.repository_schedules)
    add_repositories id (difference requested linked)
    remove_repositories id (difference (dedupe linked) requested)
