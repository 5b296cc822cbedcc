-- ===== src/Orchestrator/Schedules/Run.antt =====
-- packages/yucca-sdk/orchestration-api/src/services/schedule.service.ts: the run of a schedule. A backup of
-- the service for repositories, awaited to its end, is an argument, which Service gives: it may change all that
-- the agent keeps.
-- The two times are arguments, and so is the abort controller that the task of the schedule gets.
pub mod Ending
pub mod Service
mod Tests
use yucca.Common.{ℕ, Bool, true, false, not, Option, none, some, List, [], ◌∷◌, ◌++◌, map}
use yucca.Common.Monad.{
  Result, ok, err, Action, pure, throw, gets, catch, modify, skip, ◌>>=◌, ◌>>◌,
}
use yucca.Database.{Error}
use yucca.Orchestrator.{TaskStatus, TaskType}
use yucca.Orchestrator.Schedules.{Scheduler, ScheduleRow, Partial, schedule_update, Op}
use yucca.Orchestrator.Schedules.Rows.{get, update_row, publish}
use yucca.Orchestrator.Tasks.{Running, Item, start_task, update_task, end_task}

pub record Agent (J : Type 0) : Type 0 where
  pub scheduler : Scheduler J
  pub running : Running

abbrev pub Run : (J A : Type 0) → Type 0
Run J A = Action Error (Agent J) A

abbrev pub item : ℕ → TaskStatus → Item
item r status = record { repository_id = r; status = status }

abbrev pub pending : List ℕ → List Item
pending rs = map (λ r. item r TaskStatus.incomplete) rs

abbrev pub set_last_run : ℕ → ScheduleRow → ScheduleRow
set_last_run time r = record r { last_run = some time }

abbrev pub set_last_finished : ℕ → ScheduleRow → ScheduleRow
set_last_finished time r = record r { last_finished = some time }

abbrev pub nothing : Partial
nothing = record {
  name = none;
  paused = none;
  cron = none;
  repositories = none;
  last_run = none;
  last_finished = none;
}

module _ {J : Type 0} where
  abbrev pub on_scheduler : {A : Type 0} → Op J A → Run J A
  on_scheduler m a = let (r, s) = m a.scheduler in (r, record a { scheduler = s })

  abbrev pub on_running : {A : Type 0} → Action Error Running A → Run J A
  on_running m a = let (r, s) = m a.running in (r, record a { running = s })

  abbrev pub show : ℕ → List Item → Run J (Unit {0})
  show id status = on_running (update_task id none none (some status))

  module _ (create_backup : (repository signal : ℕ) → Run J (Unit {0})) where
    -- one turn of the loop; the update of the task is in the `try` as well
    unfoldable pub run_item : (id signal : ℕ) → List Item → ℕ → List ℕ → Run J TaskStatus
    run_item id signal before r rest =
        catch
          (do
            create_backup r signal
            show id (before ++ item r TaskStatus.complete ∷ pending rest)
            pure TaskStatus.complete)
          (λ e. do
            show id (before ++ item r TaskStatus.failed ∷ pending rest)
            pure TaskStatus.failed)

    unfoldable pub run_items : (id signal : ℕ) → List Item → List ℕ → Run J (List Item)
    run_items id signal before [] = pure before
    run_items id signal before (r ∷ rest) = do
      aborted ← gets (λ a. a.running.aborted signal)
      elim aborted [
        | true ↦ pure (before ++ pending (r ∷ rest))
        | false ↦ (do
          status ← run_item id signal before r rest
          run_items id signal (before ++ item r status ∷ []) rest)
      ]

    unfoldable pub run_repositories : (id signal finished : ℕ) → List ℕ → Run J (Unit {0})
    unfolding run_items
    run_repositories id signal finished [] = skip
    run_repositories id signal finished (r ∷ rs) = do
      modify λ a. record a { running = start_task signal id TaskType.schedule none none a.running }
      show id (pending (r ∷ rs))
      run_items id signal [] (r ∷ rs)
      modify λ a. record a { running = end_task id a.running }
      on_scheduler (update_row id (set_last_finished finished))
      on_scheduler
          (publish (schedule_update id (record nothing { last_finished = some (some finished) })))

    -- `runSchedule`; without the lock it does nothing
    unfoldable pub run_schedule : Bool → (id signal started finished : ℕ) → Run J (Unit {0})
    unfolding run_repositories
    run_schedule false id signal started finished = skip
    run_schedule true id signal started finished = do
      s ← on_scheduler (get id)
      on_scheduler (update_row id (set_last_run started))
      on_scheduler
          (publish (schedule_update id (record nothing { last_run = some (some started) })))
      run_repositories id signal finished s.repositories
