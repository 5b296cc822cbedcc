-- ===== src/Orchestrator/Schedules/Run/Tests.antt =====
-- Runs of a schedule at a concrete agent, of whose two repositories one cannot be backed up.
use yucca.Common.{ℕ, ◌+◌, ◌==◌, ◌≡◌, refl, true, false, none, some, [], ◌∷◌, find}
use yucca.Common.Monad.{ok, err}
use yucca.Database.{internal}
use yucca.Orchestrator.Schedules.Rows.{get, update_row, publish}
use yucca.Orchestrator.Schedules.Tests.{Jobs, agent, row}
use yucca.Orchestrator.Schedules.Run.{
  Agent, Run, run_item, run_items, run_repositories, run_schedule, item, set_last_run,
}
use yucca.Orchestrator.Schedules.Run.Service.{Drawn, await_backup}
use yucca.Orchestrator.Repositories.{Remote, Backend, get_backend}
use yucca.Orchestrator.Repositories.Update.{get_row}
use yucca.Orchestrator.RunHistory
use yucca.Orchestrator.RunHistory.{create_log, insert_run, finalize}
use yucca.Orchestrator.Backups
use yucca.Orchestrator.Backups.{
  Restic, MetricsApi, create_backup, get_restic_parameters, run_restic, backup_ended,
  update_local_metrics, refresh_metrics, save_metrics, run_forget_and_prune,
}
use yucca.Orchestrator.Schedules.{Scheduler}
use yucca.Orchestrator.{TaskType, TaskStatus, local_backend}
use yucca.Orchestrator.Tasks.{no_tasks, end_task, start_task, update_task}

abbrev remote : Remote
remote = record { id = 70; name = "r"; worm = false; metrics = none }

abbrev disk : ℕ → Backend
disk b = record {
  create_repository = λ name worm. ok remote;
  update_repository = λ id name. ok remote;
  get_repository = λ id. ok remote;
  get_repositories = ok (remote ∷ []);
  get_restic_endpoint = λ id. ok "/disk";
}

abbrev restic : Restic
restic = record {
  derive_encryption_key = λ remote_id. ok remote_id;
  unlock_all = λ endpoint key. ok tt;
  backup = λ endpoint key paths. ok tt;
  forget_by_policy = λ endpoint key policy. ok tt;
  prune = λ endpoint key. ok tt;
  forget = λ endpoint key snapshot. ok tt;
  restore = λ endpoint key snapshot. ok tt;
  stats = λ endpoint key. ok 5;
}

abbrev silent : ℕ → MetricsApi
silent b = record {
  is_metrics_capable = false;
  submit_backup_start = λ id. ok tt;
  submit_backup_end = λ id success duration. ok tt;
  submit_repository_size = λ id size. ok tt;
}

abbrev drawn : ℕ → Agent Jobs → Drawn
drawn r a = record { controller = r + 20; start = 120; time = 130 }

-- the agent with a path for the first repository of the schedule, and none for the second
abbrev scheduler : Scheduler Jobs
scheduler = record (agent "0 1 * * *") {
  tables = record (agent "0 1 * * *").tables {
    backends = record { id = 3; kind = local_backend } ∷ [];
    paths = record { id = 1; path = "/a" } ∷ [];
  };
}

abbrev machine : Agent Jobs
machine = record { scheduler = scheduler; running = no_tasks }

abbrev back_up : (repository signal : ℕ) → Run Jobs (Unit {0})
back_up = await_backup disk silent restic drawn

abbrev started : Agent Jobs
started = record machine { running = start_task 1 9 TaskType.schedule none none machine.running }

-- the repository with a path is backed up, the other one is not
run_items-mixed :
    (run_items back_up 9 1 [] (1 ∷ 4 ∷ []) started).0
    ≡ ok (item 1 TaskStatus.complete ∷ item 4 TaskStatus.failed ∷ [])
unfolding run_items run_item await_backup start_task update_task create_backup get_restic_parameters
    create_log run_restic Backups.back_up backup_ended update_local_metrics refresh_metrics
    save_metrics run_forget_and_prune insert_run finalize RunHistory.publish get_row get_backend
    end_task
run_items-mixed = refl

-- another run of the same schedule ends while a backup of this one is awaited
abbrev overlapped : (repository signal : ℕ) → Run Jobs (Unit {0})
overlapped r signal a = (ok tt, record a { running = end_task 9 a.running })

-- The first of two overlapping runs throws, and its end is not recorded.
run_schedule-overlapped :
    ((run_schedule overlapped true 9 1 100 200 machine).0 ≡ err (internal "Task does not exist."))
    × (find
          (λ r. r.id == 9)
          (run_schedule overlapped true 9 1 100 200 machine).1.scheduler.schedules
        ≡ some (set_last_run 100 (row "0 1 * * *")))
unfolding run_schedule run_repositories run_items run_item get update_row publish start_task
    update_task end_task
run_schedule-overlapped = (refl, refl)
