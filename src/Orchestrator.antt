-- ===== src/Orchestrator.antt =====
-- packages/yucca-sdk/orchestration-api/src: the agent that backs a machine up. Its tables are those of
-- schema/tables, in SQLite with foreign keys on. Ids are UUIDs, which are only compared, so they are
-- numbers. The remote backends and restic are arguments: what they answer. Telemetry is left out, and so are
-- the events about repositories and tasks.
pub mod Paths
pub mod Repositories
pub mod Schedules
pub mod Startup
pub mod SampledLog
pub mod Integrations
pub mod Tasks
pub mod RunHistory
pub mod Backups
mod Tests
use yucca.Common.{ℕ, Option, List, String, Bool}
use yucca.Common.Monad.{Action}
use yucca.Database.{Error}

pub data BackendType : Type 0 where
  yucca_backend local_backend s3_backend : BackendType

pub record BackendRow : Type 0 where
  pub id : ℕ
  pub kind : BackendType

pub record RetentionPolicy : Type 0 where
  pub keep_last : Option ℕ
  pub keep_within : Option String
  pub keep_within_hourly : Option String
  pub keep_within_daily : Option String
  pub keep_within_weekly : Option String
  pub keep_within_monthly : Option String
  pub keep_within_yearly : Option String

pub record RepositoryRow : Type 0 where
  pub id : ℕ
  pub remote_id : ℕ
  pub backend_id : ℕ
  pub retention_policy : Option RetentionPolicy

pub record PathRow : Type 0 where
  pub id : ℕ
  pub path : String

-- `RepositoryMetricsDto`
pub record Metrics : Type 0 where
  pub size_bytes : ℕ
  pub last_backup : Option ℕ
  pub last_successful_backup : Option ℕ
  pub last_backup_duration : Option ℕ

pub record MetricsRow : Type 0 where
  pub id : ℕ
  pub metrics : Metrics

pub record RepositorySchedule : Type 0 where
  pub schedule : ℕ
  pub repository : ℕ

pub data TaskStatus : Type 0 where
  incomplete complete failed : TaskStatus

pub data TaskType : Type 0 where
  schedule restore backup forget : TaskType

pub record Run : Type 0 where
  pub id : ℕ
  pub repository_id : ℕ
  pub kind : TaskType
  pub start : ℕ
  pub ended : Option ℕ
  pub status : TaskStatus

-- `'all'`, or ids
pub data Libraries : Type 0 where
  all_libraries : Libraries
  selected : List ℕ → Libraries

-- `ImmichRepositoryConfig`
pub record ImmichConfiguration : Type 0 where
  pub data_folders : List String
  pub backup_configuration : Bool
  pub libraries : Libraries

-- the row of the Immich integration
pub record Integration : Type 0 where
  pub id : ℕ
  pub schedule_id : ℕ
  pub configuration : ImmichConfiguration

pub record Tables : Type 0 where
  pub backends : List BackendRow
  pub repositories : List RepositoryRow
  pub paths : List PathRow
  pub local_metrics : List MetricsRow
  pub repository_schedules : List RepositorySchedule
  pub runs : List Run
  pub integrations : List Integration

abbrev pub Query : Type 0 → Type 0
Query A = Action Error Tables A
