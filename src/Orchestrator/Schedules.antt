-- ===== src/Orchestrator/Schedules.antt =====
-- packages/yucca-sdk/orchestration-api/src/services/schedule.service.ts with repositories/schedule
-- .repository.ts: schedules, the repositories that are linked to them, and their cron jobs. The scheduler
-- registry of NestJS is the record `Registry`, with the laws `IsRegistry`; whether `cron` takes an
-- expression is the argument `parses`. The fields of an `Updateable` that are `undefined` are `none`.
pub mod Links
pub mod Order
pub mod Outcomes
pub mod Registered
pub mod Requested
pub mod Rows
pub mod Sound
pub mod Run
pub mod Service
pub mod Tests
use yucca.Common.{
  ℕ, zero, suc, ◌==◌, ◌≡◌, ◌≢◌, Bool, true, false, ◌&&◌, ◌||◌, not, Option, none, some, List, [],
  ◌∷◌, ◌++◌, any, find, select, map, leb, if◌then◌else◌, String,
}
use yucca.Common.Monad.{
  Result, ok, err, Action, pure, throw, gets, or_throw, throw_if, modify, skip, ◌>>=◌, ◌>>◌,
}
use yucca.Common.Sets.{contains, difference, dedupe, nat_Eq}
use yucca.Database.{
  Error, bad_request, internal, no_result, constraint, update_rows, delete_rows, set_or,
}
use yucca.Orchestrator.{Tables, RepositorySchedule}

-- a row of `schedules`; its ordering is a JSON text of ids, of which only the positions are read
pub record ScheduleRow : Type 0 where
  pub id : ℕ
  pub name : String
  pub paused : Bool
  pub cron : String
  pub ordering : List ℕ
  pub last_run : Option ℕ
  pub last_finished : Option ℕ

-- `ScheduleDto`
pub record Schedule : Type 0 where
  pub id : ℕ
  pub name : String
  pub paused : Bool
  pub cron : String
  pub repositories : List ℕ
  pub last_run : Option ℕ
  pub last_finished : Option ℕ

-- `Partial<ScheduleDto>`
pub record Partial : Type 0 where
  pub name : Option String
  pub paused : Option Bool
  pub cron : Option String
  pub repositories : Option (List ℕ)
  pub last_run : Option (Option ℕ)
  pub last_finished : Option (Option ℕ)

-- the events of `GatewayEvent` that are about schedules
pub data Event : Type 0 where
  schedule_create : Schedule → Event
  schedule_update : ℕ → Partial → Event
  schedule_delete : ℕ → Event

-- a `CronJob`
pub record Job : Type 0 where
  pub cron : String
  pub running : Bool

-- `SchedulerRegistry`; `set_job` changes the job that has the name in place
pub record Registry (J : Type 0) : Type 0 where
  pub get_job : ℕ → J → Option Job
  pub add_job : ℕ → Job → J → Result Error J
  pub delete_job : ℕ → J → Result Error J
  pub set_job : ℕ → Job → J → J

-- What holds at one name, and what is kept at the others.
pub record IsSetAt {J : Type 0} (g : Registry J) (id : ℕ) (job : Option Job) (j j' : J)
    : Type 0 where
  pub here : g.get_job id j' ≡ job
  pub others : (other : ℕ) → other ≢ id → g.get_job other j' ≡ g.get_job other j

pub record IsRegistry {J : Type 0} (g : Registry J) : Type 0 where
  pub add_new :
      (id : ℕ) (job : Job) (j : J)
      → g.get_job id j ≡ none
      → (j' : J) × (g.add_job id job j ≡ ok j') × IsSetAt g id (some job) j j'
  pub delete_old :
      (id : ℕ) (job : Job) (j : J)
      → g.get_job id j ≡ some job
      → (j' : J) × (g.delete_job id j ≡ ok j')
  pub delete_ok : (id : ℕ) (j j' : J) → g.delete_job id j ≡ ok j' → IsSetAt g id none j j'
  pub set_old :
      (id : ℕ) (old job : Job) (j : J)
      → g.get_job id j ≡ some old
      → IsSetAt g id (some job) j (g.set_job id job j)

pub record Scheduler (J : Type 0) : Type 0 where
  pub tables : Tables
  pub schedules : List ScheduleRow
  pub jobs : J
  -- the set `cronJobs`
  pub cron_jobs : List ℕ
  pub published : List Event

-- `ScheduleCreateRequestDto`
pub record CreateDto : Type 0 where
  pub name : String
  pub cron : String
  pub repositories : List ℕ

-- `ScheduleUpdateRequestDto`
pub record UpdateDto : Type 0 where
  pub name : Option String
  pub paused : Option Bool
  pub cron : Option String
  pub repositories : Option (List ℕ)

-- `getRepositoryIds`
abbrev pub linked_to : ℕ → List RepositorySchedule → List ℕ
linked_to id [] = []
linked_to id (l ∷ links) =
    if l.schedule == id then l.repository ∷ linked_to id links else linked_to id links

-- `ordering.indexOf(a) + 1`
abbrev pub position : List ℕ → ℕ → ℕ
position [] a = 0
position (x ∷ xs) a =
    let rest = position xs a in if x == a then 1 else elim rest [ zero ↦ 0 | suc n ↦ suc (suc n) ]

-- `xs.toSorted((a, b) => key(a) - key(b))`, which is stable
abbrev pub insert_by : (ℕ → ℕ) → ℕ → List ℕ → List ℕ
insert_by key x [] = x ∷ []
insert_by key x (y ∷ ys) =
    let rest = insert_by key x ys in if leb (key x) (key y) then x ∷ y ∷ ys else y ∷ rest

abbrev pub sort_by : (ℕ → ℕ) → List ℕ → List ℕ
sort_by key [] = []
sort_by key (x ∷ xs) = insert_by key x (sort_by key xs)

abbrev pub to_dto : List RepositorySchedule → ScheduleRow → Schedule
to_dto links r = record {
  id = r.id;
  name = r.name;
  paused = r.paused;
  cron = r.cron;
  repositories = sort_by (position r.ordering) (linked_to r.id links);
  last_run = r.last_run;
  last_finished = r.last_finished;
}

abbrev pub whole : Schedule → Partial
whole s = record {
  name = some s.name;
  paused = some s.paused;
  cron = some s.cron;
  repositories = some s.repositories;
  last_run = some s.last_run;
  last_finished = some s.last_finished;
}

abbrev pub is_link : ℕ → ℕ → RepositorySchedule → Bool
is_link schedule repository l = (l.schedule == schedule) && (l.repository == repository)

-- the columns that `applyScheduleUpdate` sets
abbrev pub set_row : UpdateDto → ScheduleRow → ScheduleRow
set_row dto r = record r {
  name = set_or dto.name r.name;
  paused = set_or dto.paused r.paused;
  cron = set_or dto.cron r.cron;
  ordering = set_or dto.repositories r.ordering;
}

abbrev pub is_unset : {A : Type 0} → Option A → Bool
is_unset none = true
is_unset (some a) = false

-- An update that sets no column is no statement of SQL.
abbrev pub sets_nothing : UpdateDto → Bool
sets_nothing dto =
    is_unset dto.name && is_unset dto.paused && is_unset dto.cron && is_unset dto.repositories

-- exactly `{ paused }`
abbrev pub only_paused : UpdateDto → Bool
only_paused dto = elim dto.paused [
  | none ↦ false
  | some p ↦ elim dto.name [
    | some n ↦ false
    | none ↦ elim dto.cron [
      | some c ↦ false
      | none ↦ elim dto.repositories [ none ↦ true | some rs ↦ false ]
    ]
  ]
]

-- `integration?.scheduleId === scheduleId`, of the first row
abbrev pub is_managed : ℕ → Tables → Bool
is_managed id t = elim t.integrations [ [] ↦ false | ◌∷◌ i is ↦ i.schedule_id == id ]

abbrev pub Op : (J A : Type 0) → Type 0
Op J A = Action Error (Scheduler J) A
