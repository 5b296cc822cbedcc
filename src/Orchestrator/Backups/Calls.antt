-- ===== src/Orchestrator/Backups/Calls.antt =====
-- packages/yucca-sdk/orchestration-api/src/services/repository.service.ts: pruning, restoring and forgetting.
use yucca.Common.{ℕ, not, Option, none, some, String}
use yucca.Common.Monad.{Result, pure, gets, throw_if, or_throw, ◌>>=◌, ◌>>◌}
use yucca.Database.{Error, bad_request}
use yucca.Orchestrator.{Run, TaskStatus, TaskType}
use yucca.Orchestrator.Repositories.{Backend}
use yucca.Orchestrator.Repositories.Update.{get_row}
use yucca.Orchestrator.RunHistory.{Work, create_log}
use yucca.Orchestrator.Tasks.{can_start}
use yucca.Orchestrator.Backups.{
  Restic, MetricsApi, Update, reply, on_tables, finally, begin, finish, get_restic_parameters,
  update_local_metrics, run_forget_and_prune,
}

abbrev pub no_update : Update
no_update = record {
  size_bytes = none;
  last_backup = none;
  last_successful_backup = none;
  last_backup_duration = none;
}

abbrev pub new_run : (log id : ℕ) → TaskType → (start : ℕ) → Run
new_run log id kind start = record {
  id = log;
  repository_id = id;
  kind = kind;
  start = start;
  ended = none;
  status = TaskStatus.incomplete;
}

module _ (backend : ℕ → Backend) (api : ℕ → MetricsApi) (restic : Restic) where
  abbrev parameters : ℕ → Work (String × ℕ)
  parameters = get_restic_parameters backend api restic

  abbrev metrics : ℕ → String → ℕ → Update → Work (Unit {0})
  metrics = update_local_metrics backend api restic

  unfoldable pub prune_repository :
      (controller log id start time : ℕ)
      → Result Error (Unit {0})
      → Option ℕ
      → Work (Option (Result Error (Unit {0})))
  unfolding get_row
  prune_repository controller log id start time log_file signal = do
    free ← gets (λ w. can_start id w.running)
    throw_if (not free) (bad_request "Task already running!")
    r ← on_tables (get_row id)
    policy ←
        or_throw r.retention_policy
          (bad_request "No retention policy configured for this repository")
    (endpoint, key) ← parameters id
    create_log (new_run log id TaskType.forget start) time log_file
        (finally
          (do
            begin controller id TaskType.forget (some log) signal
            reply (restic.unlock_all endpoint key)
            run_forget_and_prune backend api restic endpoint key policy)
          (finish id))
        (λ e. metrics id endpoint key no_update)

  unfoldable pub restore_snapshot :
      (controller log id start time snapshot : ℕ)
      → Result Error (Unit {0})
      → Work (Option (Result Error (Unit {0})))
  restore_snapshot controller log id start time snapshot log_file =
      create_log (new_run log id TaskType.restore start) time log_file
        (do
          (endpoint, key) ← parameters id
          finally
              (do
                begin controller id TaskType.restore (some log) none
                reply (restic.restore endpoint key snapshot))
              (finish id))
        (λ e. pure tt)

  unfoldable pub forget_snapshot : (controller id snapshot : ℕ) → Work (Unit {0})
  forget_snapshot controller id snapshot = do
    free ← gets (λ w. can_start id w.running)
    throw_if (not free) (bad_request "Task already running!")
    (endpoint, key) ← parameters id
    finally
        (do
          begin controller id TaskType.forget none none
          reply (restic.unlock_all endpoint key)
          reply (restic.forget endpoint key snapshot))
        (finish id)
    metrics id endpoint key no_update
