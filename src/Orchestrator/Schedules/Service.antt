-- ===== src/Orchestrator/Schedules/Service.antt =====
-- packages/yucca-sdk/orchestration-api/src/services/schedule.service.ts: the cron jobs and the requests.
use yucca.Common.{ℕ, ◌==◌, Bool, false, ◌&&◌, not, none, List, [], ◌∷◌, ◌++◌, if◌then◌else◌, String}
use yucca.Common.Monad.{Result, ok, err, pure, gets, or_throw, throw_if, modify, skip, ◌>>=◌, ◌>>◌}
use yucca.Common.Sets.{contains, nat_Eq}
use yucca.Database.{Error, bad_request, internal, delete_rows}
use yucca.Orchestrator.Schedules.{
  Schedule, schedule_create, schedule_update, schedule_delete, Job, Registry, Scheduler, CreateDto,
  UpdateDto, whole, set_row, sets_nothing, only_paused, is_managed, Op,
}
use yucca.Orchestrator.Schedules.Rows.{
  publish, create_row, get, get_all, update_row, remove_row, add_repositories, set_links,
}

-- the job that `new CronJob` makes of the schedule
abbrev pub job_of : String → Bool → Job
job_of cron paused = record { cron = cron; running = not paused }

abbrev pub with_jobs : {J : Type 0} → Result Error J → Op J (Unit {0})
with_jobs (err e) s = (err e, s)
with_jobs (ok j) s = (ok tt, record s { jobs = j })

module _ {J : Type 0} (registry : Registry J) (parses : String → Bool) where
  -- `createCronJob`
  unfoldable pub create_cron_job : ℕ → String → Bool → Op J (Unit {0})
  create_cron_job id cron paused = do
    modify λ s. record s {
      cron_jobs = if contains s.cron_jobs id then s.cron_jobs else s.cron_jobs ++ id ∷ [];
    }
    throw_if (not (parses cron)) (internal "CronError")
    added ← gets (λ s. registry.add_job id (job_of cron paused) s.jobs)
    with_jobs added

  -- `updateCronJob`
  unfoldable pub update_cron_job : ℕ → String → Bool → Op J (Unit {0})
  update_cron_job id cron paused = do
    job ← gets (λ s. registry.get_job id s.jobs)
    or_throw job (internal "No Cron Job was found")
    throw_if (not (parses cron)) (internal "CronError")
    modify λ s. record s { jobs = registry.set_job id (job_of cron paused) s.jobs }

  unfoldable pub delete_cron_job : ℕ → Op J (Unit {0})
  delete_cron_job id = do deleted ← gets (λ s. registry.delete_job id s.jobs); with_jobs deleted

  unfoldable pub delete_cron_jobs : List ℕ → Op J (Unit {0})
  delete_cron_jobs [] = skip
  delete_cron_jobs (id ∷ ids) = delete_cron_job id >> delete_cron_jobs ids

  unfoldable pub create_cron_jobs : List Schedule → Op J (Unit {0})
  create_cron_jobs [] = skip
  create_cron_jobs (s ∷ ss) = create_cron_job s.id s.cron s.paused >> create_cron_jobs ss

  unfoldable pub bootstrap : Op J (Unit {0})
  unfolding delete_cron_jobs create_cron_jobs
  bootstrap = do
    ids ← gets (λ s. s.cron_jobs)
    delete_cron_jobs ids
    modify λ s. record s { cron_jobs = [] }
    schedules ← gets get_all
    create_cron_jobs schedules

  unfoldable pub create_schedule : ℕ → CreateDto → Op J Schedule
  unfolding add_repositories
  create_schedule id dto = do
    create_row (record {
      id = id;
      name = dto.name;
      paused = false;
      cron = dto.cron;
      ordering = [];
      last_run = none;
      last_finished = none;
    })
    add_repositories id dto.repositories
    schedule ← pure (record {
      id = id;
      name = dto.name;
      paused = false;
      cron = dto.cron;
      repositories = dto.repositories;
      last_run = none;
      last_finished = none;
    })
    publish (schedule_create schedule)
    create_cron_job id dto.cron false
    pure schedule

  unfoldable pub apply_schedule_update : ℕ → UpdateDto → Op J Schedule
  unfolding set_links
  apply_schedule_update id dto = do
    set_links id dto.repositories
    throw_if (sets_nothing dto) (internal "near where: syntax error")
    update_row id (set_row dto)
    schedule ← get id
    publish (schedule_update id (whole schedule))
    update_cron_job id schedule.cron schedule.paused
    pure schedule

  unfoldable pub update_schedule : ℕ → UpdateDto → Op J Schedule
  unfolding apply_schedule_update
  update_schedule id dto = do
    managed ← gets (λ s. is_managed id s.tables)
    throw_if (managed && not (only_paused dto))
        (bad_request "Schedule managed by Immich integration")
    apply_schedule_update id dto

  unfoldable pub remove_schedule : ℕ → Op J (Unit {0})
  remove_schedule id = do
    managed ← gets (λ s. is_managed id s.tables)
    throw_if managed (bad_request "Schedule managed by Immich integration")
    remove_row id
    delete_cron_job id
    modify λ s. record s { cron_jobs = delete_rows (λ x. x == id) s.cron_jobs }
    publish (schedule_delete id)

-- the routes of controllers/schedule.controller.ts that change something, with the id that a creation
-- draws, and a start of the agent
pub data Request : Type 0 where
  create : ℕ → CreateDto → Request
  update : ℕ → UpdateDto → Request
  remove : ℕ → Request
  restart : Request

module _ {J : Type 0} (registry : Registry J) (parses : String → Bool) where
  unfoldable pub handle : Request → Op J (Unit {0})
  handle (create id dto) = create_schedule registry parses id dto >>= λ x. skip
  handle (update id dto) = update_schedule registry parses id dto >>= λ x. skip
  handle (remove id) = remove_schedule registry parses id
  handle restart = bootstrap registry parses

  unfoldable pub handle_all : List Request → Scheduler J → Scheduler J
  handle_all [] s = s
  handle_all (r ∷ rs) s = handle_all rs (handle r s).1
