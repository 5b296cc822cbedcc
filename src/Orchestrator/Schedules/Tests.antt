-- ===== src/Orchestrator/Schedules/Tests.antt =====
-- The theorems on schedules at a concrete agent, whose scheduler registry is a function of the names.
use mathlib.Core.Path.{subst}
use yucca.Common.{
  ℕ, ◌==◌, ◌≡◌, refl, ◌≢◌, Bool, true, false, Option, none, some, [], ◌∷◌, arith, String,
  Option-cases, Bool-cases, inl, inr, if◌then◌else◌,
}
use text.Mathlib.Text.{◌==◌ as str_eq}
use yucca.Common.Monad.{ok, err}
use yucca.Common.Sets.{nat_Eq}
use yucca.Database.{internal, constraint}
use yucca.Orchestrator.{ImmichConfiguration, all_libraries, RepositoryRow}
use yucca.Orchestrator.Schedules.{
  Scheduler, ScheduleRow, Schedule, Registry, IsRegistry, IsSetAt, Job, UpdateDto, linked_to,
}
use yucca.Orchestrator.Schedules.Rows.{
  create_row, get, add_repository, remove_repository, update_row, publish,
}
use yucca.Orchestrator.Schedules.Service.{
  create, update, restart, handle, create_schedule, apply_schedule_update, update_schedule,
  update_cron_job,
}
use yucca.Orchestrator.Schedules.Outcomes.{new_row}
use yucca.Orchestrator.Schedules.Requested.{apply_schedule_update-requested}
use yucca.Orchestrator.Schedules.Sound.{IsSound}
use yucca.Orchestrator.Schedules.Registered.{IsRegistered, handle-IsRegistered}
use yucca.Orchestrator.Schedules.Registered.Startup.{IsTracked}

abbrev pub Jobs : Type 0
Jobs = ℕ → Option Job

abbrev put : ℕ → Option Job → Jobs → Jobs
put id job j n = if n == id then job else j n

abbrev pub names : Registry Jobs
names = record {
  get_job = λ id j. j id;
  add_job = λ id job j. elim (j id) [
    | none ↦ ok (put id (some job) j)
    | some old ↦ err (internal "DUPLICATE_SCHEDULER")
  ];
  delete_job = λ id j. elim (j id) [
    | none ↦ err (internal "NO_SCHEDULER_FOUND")
    | some old ↦ ok (put id none j)
  ];
  set_job = λ id job j. put id (some job) j;
}

put-IsSetAt : (id : ℕ) (job : Option Job) (j : Jobs) → IsSetAt names id job j (put id job j)
put-IsSetAt id job j = record { here = ground arith; others = λ other n. ground (arith, n) }

delete_job-IsSetAt :
    (id : ℕ) (j j' : Jobs) → names.delete_job id j ≡ ok j' → IsSetAt names id none j j'
delete_job-IsSetAt id j j' h = elim (Option-cases (j id)) [
  | inl gone ↦ absurd (ground (arith, h, gone))
  | inr (old, held) ↦
      let e : put id none j ≡ j' = ground (arith, h, held) in
      subst (IsSetAt names id none j) e (put-IsSetAt id none j)
]

pub names-IsRegistry : IsRegistry names
names-IsRegistry = record {
  add_new = λ id job j h. (put id (some job) j, ground (arith, h), put-IsSetAt id (some job) j);
  delete_old = λ id job j h. (put id none j, ground (arith, h));
  delete_ok = delete_job-IsSetAt;
  set_old = λ id old job j h. put-IsSetAt id (some job) j;
}

-- `* *` stands for the expressions that do not parse.
abbrev pub parses : String → Bool
parses cron = if str_eq cron "* *" then false else true

abbrev repository : ℕ → RepositoryRow
repository id = record { id = id; remote_id = id; backend_id = 3; retention_policy = none }

abbrev pub row : String → ScheduleRow
row cron = record {
  id = 9;
  name = "nightly";
  paused = false;
  cron = cron;
  ordering = [];
  last_run = none;
  last_finished = none;
}

abbrev folders_only : ImmichConfiguration
folders_only = record {
  data_folders = "library" ∷ [];
  backup_configuration = true;
  libraries = all_libraries;
}

abbrev pub agent : String → Scheduler Jobs
agent cron = record {
  tables = record {
    backends = [];
    repositories = repository 1 ∷ repository 2 ∷ repository 4 ∷ [];
    paths = [];
    local_metrics = [];
    repository_schedules =
        record { schedule = 9; repository = 1 } ∷ record { schedule = 9; repository = 4 } ∷ [];
    runs = [];
    integrations = record { id = 4; schedule_id = 8; configuration = folders_only } ∷ [];
  };
  schedules = row cron ∷ [];
  jobs = put 9 (some (record { cron = cron; running = true })) (λ n. none);
  cron_jobs = 9 ∷ [];
  published = [];
}

pub agent-IsSound : IsSound (agent "0 1 * * *")
agent-IsSound = record {
  ids = (refl, tt);
  linked = λ id h. ground arith;
  once = λ id. elim (Bool-cases (9 == id)) [
    | inl own ↦ rw own (refl, (refl, tt))
    | inr other ↦ rw other tt
  ];
}

agent-IsRegistered : IsRegistered names (agent "0 1 * * *")
agent-IsRegistered = record {
  jobs = λ id. ground arith;
  names = λ id. ground arith;
  once = (refl, tt);
}

abbrev pub ask : UpdateDto
ask = record { name = none; paused = some true; cron = none; repositories = some (2 ∷ 1 ∷ []) }

-- the request that asks for two repositories is served
pub asked : (handle names parses (update 9 ask) (agent "0 1 * * *")).0 ≡ ok tt
unfolding handle update_schedule apply_schedule_update add_repository remove_repository update_row
    get publish update_cron_job
asked = refl

pub update-restart : update 9 ask ≢ restart
update-restart e = cc

handle-IsRegistered_example :
    IsRegistered names (handle names parses (update 9 ask) (agent "0 1 * * *")).1
handle-IsRegistered_example =
    handle-IsRegistered names parses names-IsRegistry (update 9 ask) (agent "0 1 * * *")
      update-restart agent-IsRegistered asked

pub agent-IsTracked : (cron : String) → IsTracked names (agent cron)
agent-IsTracked cron = record { names = λ id. ground arith; once = (refl, tt) }

apply_schedule_update-requested_example :
    (x : Schedule) × ((apply_schedule_update names parses 9 ask (agent "0 1 * * *")).0 ≡ ok x)
    × (x.repositories ≡ 2 ∷ 1 ∷ [])
    × ((get 9 (apply_schedule_update names parses 9 ask (agent "0 1 * * *")).1).0 ≡ ok x)
    × ((other : ℕ)
        → other ≢ 9
        → linked_to other
            (apply_schedule_update names parses 9 ask
              (agent "0 1 * * *")).1.tables.repository_schedules
          ≡ linked_to other (agent "0 1 * * *").tables.repository_schedules)
apply_schedule_update-requested_example =
    apply_schedule_update-requested names parses 9 ask (2 ∷ 1 ∷ []) (row "0 1 * * *")
      (record { cron = "0 1 * * *"; running = true }) (agent "0 1 * * *") refl
      (refl, (λ p h. ground (arith, h))) (refl, (refl, tt)) (refl, (refl, tt)) refl refl refl

-- A creation that names a repository twice fails, and leaves a schedule without a job.
half_created :
    ((handle names parses
        (create 5 (record { name = "n"; cron = "0 1 * * *"; repositories = 1 ∷ 1 ∷ [] }))
        (agent "0 1 * * *")).0
      ≡ err constraint)
    × ((handle names parses
          (create 5 (record { name = "n"; cron = "0 1 * * *"; repositories = 1 ∷ 1 ∷ [] }))
          (agent "0 1 * * *")).1.schedules
        ≡ row "0 1 * * *"
          ∷ new_row 5 (record { name = "n"; cron = "0 1 * * *"; repositories = 1 ∷ 1 ∷ [] })
          ∷ [])
unfolding handle create_schedule create_row add_repository
half_created = (refl, refl)
