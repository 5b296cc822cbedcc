-- ===== src/Orchestrator/Startup.antt =====
-- packages/yucca-sdk/orchestration-api/src/services/bootstrap.service.ts with repositories/config
-- .repository.ts, database.repository.ts (on the table of the configuration), moduleConfig.repository.ts and
-- bootstrap.repository.ts, services/onboarding.service.ts, and the gate of the web sockets
-- (events/events.gateway.ts). The answer of the migrations and the random key are arguments.
pub mod Ready
pub mod Keys
mod Tests
use yucca.Common.{
  ℕ, ◌==◌, Bool, true, false, ◌||◌, not, Option, none, some, List, [], ◌∷◌, ◌++◌, any, find, String,
  if◌then◌else◌,
}
use yucca.Common.Monad.{Result, ok, err, Action, modify, or_throw, gets, ◌>>=◌, ◌>>◌}
use yucca.Database.{Error, no_result, update_rows}
use yucca.Orchestrator.{Tables, Run}
use yucca.Orchestrator.RunHistory.{is_incomplete, set_failed}
use yucca.Orchestrator.Schedules.{Scheduler, Registry}
use yucca.Orchestrator.Schedules.Service.{bootstrap}

pub data ConfigurationKey : Type 0 where
  encryption_key onboarded_key telemetry skipped_onboarding_extra_config : ConfigurationKey

pub data BootstrapStatus : Type 0 where
  not_ready ready : BootstrapStatus
  failed : Error → BootstrapStatus

pub record Entry : Type 0 where
  pub key : ConfigurationKey
  pub value : String

abbrev pub number : ConfigurationKey → ℕ
number encryption_key = 0
number onboarded_key = 1
number telemetry = 2
number skipped_onboarding_extra_config = 3

abbrev pub is_key : ConfigurationKey → Entry → Bool
is_key key e = number e.key == number key

-- `has`
abbrev pub has_key : ConfigurationKey → List Entry → Bool
has_key key entries = any (is_key key) entries

-- `set`: the key is the primary key
abbrev pub set_key : ConfigurationKey → String → List Entry → List Entry
set_key key value entries =
    if has_key key entries
    then update_rows (is_key key) (λ e. record e { value = value }) entries
    else entries ++ record { key = key; value = value } ∷ []

-- `get`
abbrev pub get_key : ConfigurationKey → List Entry → Result Error String
get_key key entries = elim (find (is_key key) entries) [
  | none ↦ err no_result
  | some e ↦ ok e.value
]

pub record Host (J : Type 0) : Type 0 where
  pub config : List Entry
  pub scheduler : Scheduler J
  pub status : BootstrapStatus

-- the `bootstrap` of the configuration
unfoldable pub bootstrap_config : String → List Entry → List Entry
bootstrap_config random entries =
    if has_key encryption_key entries then entries else set_key encryption_key random entries

-- `importEncryptionKey`
unfoldable pub import_encryption_key : String → List Entry → List Entry
import_encryption_key key = set_key encryption_key key

-- the other requests that write to the configuration: `confirmKeyOnboarded`, `enableTelemetry`,
-- `skipExtraConfig`
pub data Flag : Type 0 where
  confirm_key_onboarded enable_telemetry skip_extra_config : Flag

unfoldable pub set_flag : Flag → List Entry → List Entry
set_flag confirm_key_onboarded = set_key onboarded_key "1"
set_flag enable_telemetry = set_key telemetry "full"
set_flag skip_extra_config = set_key skipped_onboarding_extra_config "1"

-- How a restore from a point ends: `attached` is the answer of all that comes before the table of the
-- configuration is emptied, `copied` what its copy out of the restored database answers, and `migrated` the
-- answer of what comes between that copy and the bootstrap that follows.
pub record Restored : Type 0 where
  pub attached : Result Error (Unit {0})
  pub copied : Result Error (List Entry)
  pub migrated : Result Error (Unit {0})

-- `database.restoreFrom`, on the table of the configuration: the rows are deleted, then copied
unfoldable pub restore_from : Restored → Action Error (List Entry) (Unit {0})
restore_from r = do
  (λ t. (r.attached, t))
  modify λ t. []
  rows ← (λ t. (r.copied, t))
  modify λ t. t ++ rows
  (λ t. (r.migrated, t))

-- the end of `restoreFromPoint` with a configuration
unfoldable pub restore_config : Restored → String → Action Error (List Entry) (Unit {0})
unfolding restore_from bootstrap_config
restore_config r random = do restore_from r; modify (bootstrap_config random)

-- what is written to the configuration
pub data Write : Type 0 where
  at_start : (random : String) → Write
  flag : Flag → Write
  imported : (key : String) → Write
  restored : Restored → (random : String) → Write

unfoldable pub write_one : Write → List Entry → List Entry
unfolding bootstrap_config set_flag import_encryption_key restore_config
write_one (at_start random) entries = bootstrap_config random entries
write_one (flag f) entries = set_flag f entries
write_one (imported key) entries = import_encryption_key key entries
write_one (restored r random) entries = (restore_config r random entries).1

unfoldable pub write_all : List Write → List Entry → List Entry
unfolding write_one
write_all [] entries = entries
write_all (w ∷ ws) entries = write_all ws (write_one w entries)

abbrev pub mark_failed : Tables → Tables
mark_failed t = record t { runs = update_rows is_incomplete set_failed t.runs }

module _ {J : Type 0} (registry : Registry J) (parses : String → Bool) where
  abbrev pub on_scheduler : Action Error (Scheduler J) (Unit {0}) → Action Error (Host J) (Unit {0})
  on_scheduler m h = let (r, s) = m h.scheduler in (r, record h { scheduler = s })

  unfoldable pub start : Result Error (Unit {0}) → String → Action Error (Host J) (Unit {0})
  unfolding bootstrap_config
  start migrations random = do
    (λ h. (migrations, h))
    modify λ h. record h { config = bootstrap_config random h.config }
    on_scheduler (bootstrap registry parses)
    modify
        λ h. record h { scheduler = record h.scheduler { tables = mark_failed h.scheduler.tables } }

  unfoldable pub on_application_bootstrap : Result Error (Unit {0}) → String → Host J → Host J
  unfolding start
  on_application_bootstrap migrations random h =
      let (r, h') = start migrations random h in
      elim r [ ok u ↦ record h' { status = ready } | err e ↦ record h' { status = failed e } ]

-- `OnboardingStatusResponseDto`
pub record OnboardingStatus : Type 0 where
  pub status : BootstrapStatus
  pub has_telemetry : Bool
  pub has_onboarded_key : Bool
  pub has_backend : Bool
  pub has_backup : Bool
  pub has_schedule : Bool
  pub has_skipped_extra_config : Bool

abbrev pub is_empty : {A : Type 0} → List A → Bool
is_empty [] = true
is_empty (x ∷ xs) = false

abbrev pub nothing_yet : BootstrapStatus → OnboardingStatus
nothing_yet status = record {
  status = status;
  has_telemetry = false;
  has_onboarded_key = false;
  has_backend = false;
  has_backup = false;
  has_schedule = false;
  has_skipped_extra_config = false;
}

unfoldable pub onboarding_status : {J : Type 0} → Host J → OnboardingStatus
onboarding_status h = elim h.status [
  | not_ready ↦ nothing_yet not_ready
  | failed e ↦ nothing_yet (failed e)
  | ready ↦ record {
    status = ready;
    has_telemetry = has_key telemetry h.config;
    has_onboarded_key = has_key onboarded_key h.config;
    has_backend = not (is_empty h.scheduler.tables.backends);
    has_backup = not (is_empty h.scheduler.tables.repositories);
    has_schedule = not (is_empty h.scheduler.schedules);
    has_skipped_extra_config = has_key skipped_onboarding_extra_config h.config;
  }
]

-- `hasLock`
unfoldable pub has_lock : (lock require_lock : Bool) → Bool
has_lock lock require_lock = lock || not require_lock

-- whether the client of a web socket stays connected; `auth` is what the function that was set answers for
-- it: whether its user is an administrator
unfoldable pub handle_connection :
    (require_ws_auth : Bool) (auth : Option (Result Error Bool)) → Bool
handle_connection require_ws_auth none = not require_ws_auth
handle_connection require_ws_auth (some (err e)) = false
handle_connection require_ws_auth (some (ok is_admin)) = is_admin
