-- ===== src/Orchestrator/Backups/Tests.antt =====
-- Backups of a repository at a concrete agent, whose backend takes metrics.
use yucca.Common.{ℕ, ◌≡◌, refl, ◌⊎◌, true, false, none, some, [], ◌∷◌, ◌++◌}
use yucca.Common.Monad.{Result, ok, err}
use yucca.Database.{Error, internal}
use yucca.Orchestrator.{local_backend, TaskStatus, TaskType}
use yucca.Orchestrator.Repositories.{Remote, Backend, default_retention_policy, get_backend}
use yucca.Orchestrator.Repositories.Update.{get_row}
use yucca.Orchestrator.RunHistory.{
  Worker, finished, status_of, create_log, insert_run, publish, finalize,
}
use yucca.Orchestrator.Tasks.{no_tasks, can_start, start_task, end_task}
use yucca.Orchestrator.Backups.{
  Restic, MetricsApi, create_backup, get_restic_parameters, back_up, run_restic, backup_ended,
  update_local_metrics, refresh_metrics, save_metrics, run_forget_and_prune,
}
use yucca.Orchestrator.Backups.Ending.{create_backup-ends}

abbrev remote : Remote
remote = record { id = 70; name = "r"; worm = false; metrics = none }

abbrev disk : ℕ → Backend
disk b = record {
  create_repository = λ name worm. ok remote;
  update_repository = λ id name. ok remote;
  get_repository = λ id. ok remote;
  get_repositories = ok (remote ∷ []);
  get_restic_endpoint = λ id. ok "/disk";
}

abbrev restic : Restic
restic = record {
  derive_encryption_key = λ remote_id. ok remote_id;
  unlock_all = λ endpoint key. ok tt;
  backup = λ endpoint key paths. ok tt;
  forget_by_policy = λ endpoint key policy. ok tt;
  prune = λ endpoint key. err (internal "prune");
  forget = λ endpoint key snapshot. ok tt;
  restore = λ endpoint key snapshot. ok tt;
  stats = λ endpoint key. ok 5;
}

-- a backend that takes the start of a backup and is not reached at its end
abbrev api : ℕ → MetricsApi
api b = record {
  is_metrics_capable = true;
  submit_backup_start = λ id. ok tt;
  submit_backup_end = λ id success duration. err (internal "offline");
  submit_repository_size = λ id size. ok tt;
}

abbrev worker : Worker
worker = record {
  tables = record {
    backends = record { id = 3; kind = local_backend } ∷ [];
    repositories =
        record {
          id = 1;
          remote_id = 70;
          backend_id = 3;
          retention_policy = some default_retention_policy;
        }
        ∷ [];
    paths = record { id = 1; path = "/a" } ∷ [];
    local_metrics = [];
    repository_schedules = [];
    runs = [];
    integrations = [];
  };
  running = no_tasks;
  published = [];
  submitted = [];
  rejected = [];
}

create_backup-ends_example :
    (outcome : Result Error (Unit {0})) × ((create_backup disk api restic 8 20 1 100 200
        (ok tt)
        none
        worker).0
      ≡ ok (some outcome))
    × ((create_backup disk api restic 8 20 1 100 200 (ok tt) none worker).1.tables.runs
        ≡ []
          ++ finished (status_of outcome) 200 (record {
            id = 20;
            repository_id = 1;
            kind = TaskType.backup;
            start = 100;
            ended = none;
            status = TaskStatus.incomplete;
          })
            ∷ [])
    × (can_start 1 (create_backup disk api restic 8 20 1 100 200 (ok tt) none worker).1.running
        ≡ true)
    × (((outcome ≡ ok tt) × (restic.backup "/disk" 70 ("/a" ∷ []) ≡ ok tt))
        ⊎ ((e : Error) × (outcome ≡ err e)))
create_backup-ends_example =
    create_backup-ends disk api restic 8 20 1 100 200 none
      (record {
        id = 1;
        remote_id = 70;
        backend_id = 3;
        retention_policy = some default_retention_policy;
      })
      (record { id = 3; kind = local_backend }) "/disk" "/a" 70 [] worker refl refl refl refl refl
      refl refl

-- A log that cannot be made leaves the caller without an answer.
create_backup-unanswered :
    (create_backup disk api restic 8 20 1 100 200 (err (internal "ENOSPC")) none worker).0 ≡ ok none
unfolding create_backup get_restic_parameters get_row get_backend create_log backup_ended
    update_local_metrics refresh_metrics save_metrics publish
create_backup-unanswered = refl

-- The end of a backup that cannot be submitted is a rejection that nothing handles.
create_backup-rejected :
    (create_backup disk api restic 8 20 1 100 200 (ok tt) none worker).1.rejected
    ≡ internal "offline" ∷ []
unfolding create_backup get_restic_parameters get_row get_backend create_log insert_run finalize
    back_up run_restic run_forget_and_prune start_task end_task backup_ended update_local_metrics
    refresh_metrics save_metrics publish
create_backup-rejected = refl
