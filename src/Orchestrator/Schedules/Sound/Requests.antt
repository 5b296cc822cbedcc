-- ===== src/Orchestrator/Schedules/Sound/Requests.antt =====
-- Every request on schedules keeps the keys of the tables (services/schedule.service.ts).
use yucca.Common.{ℕ, ◌≡◌, refl, sym, Bool, Option, none, some, List, [], ◌∷◌, String}
use yucca.Common.Monad.{Result, ok, err, Keeps, bind-Keeps, skip-Keeps, modify, keeps}
use yucca.Database.{Error}
use yucca.Orchestrator.Schedules.{
  Scheduler, Schedule, Registry, CreateDto, UpdateDto, Event, set_row,
}
use yucca.Orchestrator.Schedules.Rows.{
  update_row, publish, get, add_repositories, remove_repositories, set_links,
}
use yucca.Orchestrator.Schedules.Sound.{
  IsSound, create_row-IsSound, update_row-IsSound, remove_row-IsSound, add_repository-IsSound,
  remove_repository-IsSound,
}
use yucca.Orchestrator.Schedules.Service.{
  Request, create, update, remove, restart, handle, with_jobs, create_cron_job, update_cron_job,
  delete_cron_job, delete_cron_jobs, create_cron_jobs, bootstrap, create_schedule,
  apply_schedule_update, update_schedule, remove_schedule,
}

module _ {J : Type 0} where
  abbrev Sound : Scheduler J → Type 0
  Sound = IsSound {J = J}

  -- a change of neither the rows nor the links
  modify-IsSound :
      (f : Scheduler J → Scheduler J)
      → ((s : Scheduler J) → (f s).schedules ≡ s.schedules)
      → ((s : Scheduler J) → (f s).tables ≡ s.tables)
      → Keeps Sound (modify {E = Error} f)
  modify-IsSound f rows links = record {
    keep = λ s o. record {
      ids = rw (rows s) o.ids;
      linked = λ id h. rw (links s) (o.linked id (rw (sym (rows s)) h));
      once = λ id. rw (links s) (o.once id);
    };
  }

  publish-IsSound : (e : Event) → Keeps Sound (publish e)
  unfolding publish
  publish-IsSound e = modify-IsSound _ (λ s. refl) (λ s. refl)

  add_repositories-IsSound : (id : ℕ) (rs : List ℕ) → Keeps Sound (add_repositories id rs)
  unfolding add_repositories
  add_repositories-IsSound id [] = skip-Keeps
  add_repositories-IsSound id (r ∷ rs) =
      bind-Keeps (add_repository-IsSound id r) (λ u. add_repositories-IsSound id rs)

  remove_repositories-IsSound : (id : ℕ) (rs : List ℕ) → Keeps Sound (remove_repositories id rs)
  unfolding remove_repositories
  remove_repositories-IsSound id [] = skip-Keeps
  remove_repositories-IsSound id (r ∷ rs) =
      bind-Keeps (remove_repository-IsSound id r) (λ u. remove_repositories-IsSound id rs)

  set_links-IsSound : (id : ℕ) (o : Option (List ℕ)) → Keeps Sound (set_links id o)
  unfolding set_links
  set_links-IsSound id none = skip-Keeps
  set_links-IsSound id (some requested) =
      search (keeps, add_repositories-IsSound, remove_repositories-IsSound)

  set_row-IsSound : (id : ℕ) (dto : UpdateDto) → Keeps Sound (update_row id (set_row dto))
  set_row-IsSound id dto = update_row-IsSound id (set_row dto) (λ r. refl)

  get-IsSound : (id : ℕ) → Keeps Sound (get id)
  unfolding get
  get-IsSound id = search keeps

  with_jobs-IsSound : (r : Result Error J) → Keeps Sound (with_jobs r)
  with_jobs-IsSound (ok j) = record {
    keep = λ s o. record { ids = o.ids; linked = o.linked; once = o.once };
  }
  with_jobs-IsSound (err e) = record { keep = λ s o. o }

  module _ (registry : Registry J) (parses : String → Bool) where
    create_cron_job-IsSound :
        (id : ℕ) (cron : String) (paused : Bool)
        → Keeps Sound (create_cron_job registry parses id cron paused)
    unfolding create_cron_job
    create_cron_job-IsSound id cron paused =
        search (keeps, modify-IsSound, with_jobs-IsSound) depth 9

    update_cron_job-IsSound :
        (id : ℕ) (cron : String) (paused : Bool)
        → Keeps Sound (update_cron_job registry parses id cron paused)
    unfolding update_cron_job
    update_cron_job-IsSound id cron paused = search (keeps, modify-IsSound) depth 9

    delete_cron_job-IsSound : (id : ℕ) → Keeps Sound (delete_cron_job registry parses id)
    unfolding delete_cron_job
    delete_cron_job-IsSound id = search (keeps, with_jobs-IsSound)

    delete_cron_jobs-IsSound : (ids : List ℕ) → Keeps Sound (delete_cron_jobs registry parses ids)
    unfolding delete_cron_jobs
    delete_cron_jobs-IsSound [] = skip-Keeps
    delete_cron_jobs-IsSound (id ∷ ids) =
        bind-Keeps (delete_cron_job-IsSound id) (λ u. delete_cron_jobs-IsSound ids)

    create_cron_jobs-IsSound :
        (ss : List Schedule) → Keeps Sound (create_cron_jobs registry parses ss)
    unfolding create_cron_jobs
    create_cron_jobs-IsSound [] = skip-Keeps
    create_cron_jobs-IsSound (x ∷ ss) =
        bind-Keeps (create_cron_job-IsSound x.id x.cron x.paused) (λ u. create_cron_jobs-IsSound ss)

    bootstrap-IsSound : Keeps Sound (bootstrap registry parses)
    unfolding bootstrap
    bootstrap-IsSound =
        search (keeps, delete_cron_jobs-IsSound, create_cron_jobs-IsSound, modify-IsSound) depth 9

    create_schedule-IsSound :
        (id : ℕ) (dto : CreateDto) → Keeps Sound (create_schedule registry parses id dto)
    unfolding create_schedule
    create_schedule-IsSound id dto =
        search
          (
            keeps, create_row-IsSound, add_repositories-IsSound, publish-IsSound,
            create_cron_job-IsSound,
          )
          depth 12

    apply_schedule_update-IsSound :
        (id : ℕ) (dto : UpdateDto) → Keeps Sound (apply_schedule_update registry parses id dto)
    unfolding apply_schedule_update
    apply_schedule_update-IsSound id dto =
        search
          (
            keeps, set_links-IsSound, set_row-IsSound, get-IsSound, publish-IsSound,
            update_cron_job-IsSound,
          )
          depth 12

    update_schedule-IsSound :
        (id : ℕ) (dto : UpdateDto) → Keeps Sound (update_schedule registry parses id dto)
    unfolding update_schedule
    update_schedule-IsSound id dto = search (keeps, apply_schedule_update-IsSound)

    remove_schedule-IsSound : (id : ℕ) → Keeps Sound (remove_schedule registry parses id)
    unfolding remove_schedule
    remove_schedule-IsSound id =
        search (keeps, remove_row-IsSound, delete_cron_job-IsSound, modify-IsSound, publish-IsSound)
          depth 12

    pub handle-IsSound : (r : Request) → Keeps Sound (handle registry parses r)
    unfolding handle
    handle-IsSound (create id dto) = bind-Keeps (create_schedule-IsSound id dto) (λ x. skip-Keeps)
    handle-IsSound (update id dto) = bind-Keeps (update_schedule-IsSound id dto) (λ x. skip-Keeps)
    handle-IsSound (remove id) = remove_schedule-IsSound id
    handle-IsSound restart = bootstrap-IsSound
