-- ===== src/Orchestrator/Backups.antt =====
-- packages/yucca-sdk/orchestration-api/src/services/repository.service.ts: the calls that run restic. What
-- restic, the derivation of keys and the backends answer is an argument. A call is
-- followed to its end; Tasks has the interleavings of such calls.
pub mod Calls
pub mod Leaving
pub mod Others
pub mod Ending
pub mod Answered
mod Tests
use yucca.Common.{
  ℕ, ◌==◌, Bool, true, false, not, Option, none, some, List, [], ◌∷◌, ◌++◌, find, any, ◌-◌,
  if◌then◌else◌, String,
}
use yucca.Common.Monad.{
  Result, ok, err, Action, pure, throw, gets, throw_if, modify, skip, catch, when, ◌>>=◌, ◌>>◌,
}
use yucca.Database.{Error, bad_request, constraint, update_rows, set_or}
use yucca.Orchestrator.{
  Tables, Query, BackendRow, RepositoryRow, RetentionPolicy, Metrics, MetricsRow, Run, TaskStatus,
  TaskType,
}
use yucca.Orchestrator.Paths.{paths_in}
use yucca.Orchestrator.Repositories.{Backend, get_backend, answer}
use yucca.Orchestrator.Repositories.Update.{get_row}
use yucca.Orchestrator.RunHistory.{
  Worker, Work, Submission, backup_start, backup_end, repository_size, metrics_update, publish,
  create_log,
}
use yucca.Orchestrator.Tasks.{can_start, start_task, end_task}

-- what restic answers, for an endpoint and a key, and what `config.deriveEncryptionKey` answers for a remote
-- id: an error where no encryption key is stored
pub record Restic : Type 0 where
  pub derive_encryption_key : ℕ → Result Error ℕ
  pub unlock_all : String → ℕ → Result Error (Unit {0})
  pub backup : String → ℕ → List String → Result Error (Unit {0})
  pub forget_by_policy : String → ℕ → RetentionPolicy → Result Error (Unit {0})
  pub prune : String → ℕ → Result Error (Unit {0})
  pub forget : String → ℕ → (snapshot : ℕ) → Result Error (Unit {0})
  pub restore : String → ℕ → (snapshot : ℕ) → Result Error (Unit {0})
  pub stats : String → ℕ → Result Error ℕ

-- whether a backend takes metrics, and what it answers
pub record MetricsApi : Type 0 where
  pub is_metrics_capable : Bool
  pub submit_backup_start : ℕ → Result Error (Unit {0})
  pub submit_backup_end : ℕ → Bool → ℕ → Result Error (Unit {0})
  pub submit_repository_size : ℕ → ℕ → Result Error (Unit {0})

-- `Updateable<RepositoryLocalMetricsTable>`
pub record Update : Type 0 where
  pub size_bytes : Option ℕ
  pub last_backup : Option ℕ
  pub last_successful_backup : Option ℕ
  pub last_backup_duration : Option ℕ

abbrev pub reply : {A : Type 0} → Result Error A → Work A
reply r w = (r, w)

abbrev pub on_tables : {A : Type 0} → Query A → Work A
on_tables m w = let (r, t) = m w.tables in (r, record w { tables = t })

abbrev pub submit : Submission → Result Error (Unit {0}) → Work (Unit {0})
submit s r w = (r, record w { submitted = w.submitted ++ s ∷ [] })

-- `try { m } finally { k }`
abbrev pub finally : {A : Type 0} → Work A → (Worker → Worker) → Work A
finally m k w = let (r, w') = m w in (r, k w')

abbrev pub or_some : Option ℕ → Option ℕ → Option ℕ
or_some none old = old
or_some (some n) old = some n

abbrev pub set_metrics : Update → Metrics → Metrics
set_metrics u m = record {
  size_bytes = set_or u.size_bytes m.size_bytes;
  last_backup = or_some u.last_backup m.last_backup;
  last_successful_backup = or_some u.last_successful_backup m.last_successful_backup;
  last_backup_duration = or_some u.last_backup_duration m.last_backup_duration;
}

abbrev pub no_metrics : Metrics
no_metrics = record {
  size_bytes = 0;
  last_backup = none;
  last_successful_backup = none;
  last_backup_duration = none;
}

abbrev pub set_local_metrics : List MetricsRow → Worker → Worker
set_local_metrics rows w = record w { tables = record w.tables { local_metrics = rows } }

-- `repositoryLocalMetrics.save`: the id is the primary key and a foreign key
unfoldable pub save_metrics : ℕ → Update → Work Metrics
save_metrics id u = do
  w ← gets (λ w. w)
  throw_if (not (any (λ r. r.id == id) w.tables.repositories)) constraint
  elim (find (λ m. m.id == id) w.tables.local_metrics) [
    | some m ↦ (do
      modify λ w.
          set_local_metrics
            (update_rows (λ m. m.id == id) (λ m. record m { metrics = set_metrics u m.metrics })
              w.tables.local_metrics)
            w
      pure (set_metrics u m.metrics))
    | none ↦ (do
      modify λ w.
          set_local_metrics
            (w.tables.local_metrics ++ record { id = id; metrics = set_metrics u no_metrics } ∷ [])
            w
      pure (set_metrics u no_metrics))
  ]

abbrev pub begin : (controller id : ℕ) → TaskType → (log signal : Option ℕ) → Work (Unit {0})
begin controller id kind log signal =
    modify λ w. record w { running = start_task controller id kind log signal w.running }

abbrev pub finish : ℕ → Worker → Worker
finish id w = record w { running = end_task id w.running }

abbrev pub success_of : Option Error → Bool
success_of none = true
success_of (some e) = false

-- a rejection that nothing handles
abbrev pub unhandled : Work (Unit {0}) → Work (Unit {0})
unhandled m = catch m (λ e. modify λ w. record w { rejected = w.rejected ++ e ∷ [] })

module _ (backend : ℕ → Backend) (api : ℕ → MetricsApi) (restic : Restic) where
  -- `getResticParameters` of a repository of the agent
  unfoldable pub get_restic_parameters : ℕ → Work (String × ℕ)
  unfolding get_row get_backend
  get_restic_parameters id = do
    r ← on_tables (get_row id)
    on_tables (get_backend r.backend_id)
    endpoint ← reply ((backend r.backend_id).get_restic_endpoint r.remote_id)
    key ← reply (restic.derive_encryption_key r.remote_id)
    pure (endpoint, key)

  -- what `updateLocalMetrics` tries, with the parameters of restic, which all callers give
  unfoldable pub refresh_metrics : ℕ → String → ℕ → Update → Work (Unit {0})
  unfolding get_row get_backend save_metrics
  refresh_metrics id endpoint key u = do
    size ← reply (restic.stats endpoint key)
    m ← save_metrics id (record u { size_bytes = some size })
    publish (metrics_update id m)
    when (not (size == 0)) (do
      r ← on_tables (get_row id)
      on_tables (get_backend r.backend_id)
      when (api r.backend_id).is_metrics_capable (
          submit (repository_size r.remote_id size)
            ((api r.backend_id).submit_repository_size r.remote_id size)))

  -- `updateLocalMetrics`: each error is only logged
  unfoldable pub update_local_metrics : ℕ → String → ℕ → Update → Work (Unit {0})
  unfolding refresh_metrics
  update_local_metrics id endpoint key u = catch (refresh_metrics id endpoint key u) (λ e. skip)

  unfoldable pub run_forget_and_prune : String → ℕ → RetentionPolicy → Work (Unit {0})
  run_forget_and_prune endpoint key policy = do
    reply (restic.forget_by_policy endpoint key policy)
    reply (restic.prune endpoint key)

  abbrev pub prune_by : String → ℕ → Option RetentionPolicy → Work (Unit {0})
  prune_by endpoint key none = skip
  prune_by endpoint key (some policy) = run_forget_and_prune endpoint key policy

  -- what a backup does under its `try`
  unfoldable pub run_restic :
      (controller id log : ℕ) → Option ℕ → String → ℕ → List String → Work (Unit {0})
  unfolding get_row run_forget_and_prune
  run_restic controller id log signal endpoint key paths = do
    begin controller id TaskType.backup (some log) signal
    reply (restic.unlock_all endpoint key)
    reply (restic.backup endpoint key paths)
    r ← on_tables (get_row id)
    prune_by endpoint key r.retention_policy

  -- the work of a backup
  unfoldable pub back_up :
      (controller id backend_id remote_id log : ℕ)
      → Option ℕ
      → String
      → ℕ
      → List String
      → Work (Unit {0})
  unfolding run_restic
  back_up controller id backend_id remote_id log signal endpoint key paths = do
    when (api backend_id).is_metrics_capable
        (submit (backup_start remote_id) ((api backend_id).submit_backup_start remote_id))
    finally (run_restic controller id log signal endpoint key paths) (finish id)

  -- the callback of a backup; the last call is awaited in a promise that nothing awaits
  unfoldable pub backup_ended :
      (id backend_id remote_id : ℕ) → String → ℕ → (start time : ℕ) → Option Error → Work (Unit {0})
  unfolding update_local_metrics
  backup_ended id backend_id remote_id endpoint key start time error = do
    update_local_metrics id endpoint key (record {
      size_bytes = none;
      last_backup = some time;
      last_successful_backup = if success_of error then some time else none;
      last_backup_duration = some (time - start);
    })
    when (api backend_id).is_metrics_capable (
        unhandled (
          submit (backup_end remote_id (success_of error) (time - start))
            ((api backend_id).submit_backup_end remote_id (success_of error) (time - start))))

  -- The controller and the id of the run are drawn; `log_file` tells whether the log can be made. The call
  -- answers when the work begins, and the end of its task is given here: `none` if it never answers.
  unfoldable pub create_backup :
      (controller log id start time : ℕ)
      → Result Error (Unit {0})
      → Option ℕ
      → Work (Option (Result Error (Unit {0})))
  unfolding get_row get_backend get_restic_parameters back_up backup_ended
  create_backup controller log id start time log_file signal = do
    free ← gets (λ w. can_start id w.running)
    throw_if (not free) (bad_request "Task already running!")
    r ← on_tables (get_row id)
    on_tables (get_backend r.backend_id)
    (endpoint, key) ← get_restic_parameters id
    paths ← gets (λ w. paths_in id w.tables.paths)
    throw_if (elim paths [ [] ↦ true | ◌∷◌ p ps ↦ false ])
        (bad_request "Missing configuration paths")
    create_log
        (record {
          id = log;
          repository_id = id;
          kind = TaskType.backup;
          start = start;
          ended = none;
          status = TaskStatus.incomplete;
        })
        time log_file (back_up controller id r.backend_id r.remote_id log signal endpoint key paths)
        (backup_ended id r.backend_id r.remote_id endpoint key start time)
