-- ===== src/Orchestrator/Repositories.antt =====
-- packages/yucca-sdk/orchestration-api/src/services/repository.service.ts with repositories/repository
-- .repository.ts: the repositories that are linked to a backend, without their tasks.
pub mod Update
pub mod Deletion
pub mod Import
pub mod Requested
pub mod Listing
use yucca.Common.{
  ℕ, ◌==◌, Bool, true, false, ◌&&◌, not, Option, none, some, List, [], ◌∷◌, ◌++◌, any, find, select,
  map, ltb, if◌then◌else◌, String,
}
use yucca.Common.Monad.{
  Result, ok, err, Action, pure, throw, gets, or_throw, throw_if, modify, skip, ◌>>=◌, ◌>>◌,
}
use yucca.Database.{Error, internal, no_result, constraint, update_rows, delete_rows}
use yucca.Orchestrator.{
  Tables, Query, BackendType, BackendRow, RetentionPolicy, RepositoryRow, PathRow, Metrics,
  MetricsRow,
}
use yucca.Orchestrator.Paths.{paths_in, create_paths, sync_paths}

-- a repository as a backend gives it
pub record Remote : Type 0 where
  pub id : ℕ
  pub name : String
  pub worm : Bool
  pub metrics : Option Metrics

-- what a backend answers
pub record Backend : Type 0 where
  pub create_repository : String → Bool → Result Error Remote
  pub update_repository : ℕ → String → Result Error Remote
  pub get_repository : ℕ → Result Error Remote
  pub get_repositories : Result Error (List Remote)
  pub get_restic_endpoint : ℕ → Result Error String

pub record Snapshot : Type 0 where
  pub time : ℕ
  pub paths : List String

-- what restic answers for the endpoint and the key of a repository, which its remote id gives; a failure to
-- derive that key is an error of the call
pub record Restic : Type 0 where
  pub init : String → ℕ → Result Error (Unit {0})
  pub key_list : String → ℕ → Result Error (Unit {0})
  pub snapshots : String → ℕ → Result Error (List Snapshot)

pub record Configuration : Type 0 where
  pub paths : List String
  pub retention_policy : Option RetentionPolicy

pub record Primary : Type 0 where
  pub id : ℕ
  pub kind : BackendType
  pub online : Bool

-- `LocalRepositoryDto`
pub record LocalRepository : Type 0 where
  pub id : ℕ
  pub name : String
  pub worm : Bool
  pub metrics : Option Metrics
  pub configuration : Option Configuration
  pub primary : Primary

abbrev pub default_retention_policy : RetentionPolicy
default_retention_policy = record {
  keep_last = none;
  keep_within = some "60d";
  keep_within_hourly = none;
  keep_within_daily = none;
  keep_within_weekly = none;
  keep_within_monthly = none;
  keep_within_yearly = none;
}

abbrev pub answer : {A : Type 0} → Result Error A → Query A
answer r s = (r, s)

abbrev pub row : ℕ → Tables → Option RepositoryRow
row id t = find (λ r. r.id == id) t.repositories

-- `repositoryLocalMetrics.get`
abbrev pub metrics_of : ℕ → Tables → Metrics
metrics_of id t = elim (find (λ m. m.id == id) t.local_metrics) [
  | none ↦ record {
    size_bytes = 0;
    last_backup = none;
    last_successful_backup = none;
    last_backup_duration = none;
  }
  | some m ↦ m.metrics
]

unfoldable pub get_backend : ℕ → Query BackendRow
get_backend id = do t ← gets (λ t. t); or_throw (find (λ b. b.id == id) t.backends) no_result

-- `repositoryRepository.create`: the id is the primary key, the backend a foreign key
unfoldable pub create_row : RepositoryRow → Query (Unit {0})
create_row r = do
  t ← gets (λ t. t)
  throw_if
      (not (
        not (any (λ x. x.id == r.id) t.repositories) && any (λ b. b.id == r.backend_id) t.backends))
      constraint
  modify λ t. record t { repositories = t.repositories ++ r ∷ [] }

abbrev pub or_metrics : Option Metrics → Metrics → Option Metrics
or_metrics none m = some m
or_metrics (some r) m = some r

-- `{ ...local, ...remote, id, backends }`
abbrev pub to_local : ℕ → Configuration → Remote → BackendRow → Tables → LocalRepository
to_local id configuration remote b t = record {
  id = id;
  name = remote.name;
  worm = remote.worm;
  metrics = or_metrics remote.metrics (metrics_of id t);
  configuration = some configuration;
  primary = record { id = b.id; kind = b.kind; online = true };
}

pub record CreateDto : Type 0 where
  pub name : String
  pub worm : Bool
  pub paths : Option (List String)

abbrev pub or_empty : Option (List String) → List String
or_empty none = []
or_empty (some ps) = ps

-- `backends[0].id`, a `TypeError` where there is no backend
abbrev pub default_backend : Option ℕ → Tables → Result Error ℕ
default_backend (some id) t = ok id
default_backend none t = elim t.backends [ [] ↦ err (internal "TypeError") | ◌∷◌ b bs ↦ ok b.id ]

-- The backends and restic answer the methods.
module _ (backend : ℕ → Backend) (restic : Restic) where
  unfoldable pub create_repository : ℕ → CreateDto → Option ℕ → Query LocalRepository
  unfolding get_backend create_row create_paths
  create_repository fresh dto backend_id = do
    chosen ← gets (default_backend backend_id)
    id ← answer chosen
    b ← get_backend id
    remote ← answer ((backend id).create_repository dto.name dto.worm)
    endpoint ← answer ((backend id).get_restic_endpoint remote.id)
    answer (restic.init endpoint remote.id)
    create_row (record {
      id = fresh;
      remote_id = remote.id;
      backend_id = id;
      retention_policy = some default_retention_policy;
    })
    create_paths fresh (or_empty dto.paths)
    t ← gets (λ t. t)
    pure (
        to_local fresh
          (record { paths = or_empty dto.paths; retention_policy = some default_retention_policy })
          remote b t)

  -- `snapshots.sort((a, b) => +b.time - +a.time)[0].paths`: the first of the newest
  abbrev pub newest : List Snapshot → Option Snapshot
  newest [] = none
  newest (s ∷ rest) = elim (newest rest) [
    | none ↦ some s
    | some n ↦ (if ltb s.time n.time then some n else some s)
  ]

  -- the paths that an import infers; a failure gives none
  abbrev pub infer_paths : Result Error (List Snapshot) → List String
  infer_paths (err e) = []
  infer_paths (ok snapshots) = elim (newest snapshots) [ none ↦ [] | some s ↦ s.paths ]

  unfoldable pub import_repository : (fresh id backend_id : ℕ) → Query LocalRepository
  unfolding get_backend create_row
  import_repository fresh id backend_id = do
    b ← get_backend backend_id
    remote ← answer ((backend backend_id).get_repository id)
    endpoint ← answer ((backend backend_id).get_restic_endpoint remote.id)
    answer (restic.key_list endpoint remote.id)
    create_row (record {
      id = fresh;
      remote_id = remote.id;
      backend_id = backend_id;
      retention_policy = some default_retention_policy;
    })
    t ← gets (λ t. t)
    pure (
        to_local fresh
          (record {
            paths = infer_paths (restic.snapshots endpoint remote.id);
            retention_policy = some default_retention_policy;
          })
          remote b t)

-- `repositoryRepository.delete`. The queries run one by one; the last one violates the foreign key of the
-- integration's row, if there is one.
unfoldable pub delete_repository : ℕ → Query (Unit {0})
delete_repository id = do
  modify λ t. record t { local_metrics = delete_rows (λ m. m.id == id) t.local_metrics }
  modify λ t. record t { paths = delete_rows (λ p. p.id == id) t.paths }
  modify λ t. record t {
    repository_schedules = delete_rows (λ s. s.repository == id) t.repository_schedules;
  }
  modify λ t. record t { runs = delete_rows (λ r. r.repository_id == id) t.runs }
  integrated ← gets (λ t. any (λ i. i.id == id) t.integrations)
  throw_if integrated constraint
  modify λ t. record t { repositories = delete_rows (λ r. r.id == id) t.repositories }
