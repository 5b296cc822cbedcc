-- ===== src/Orchestrator/Tasks.antt =====
-- packages/yucca-sdk/orchestration-api/src/repositories/runningTasks.repository.ts, and the way in which
-- createBackup, pruneRepository, forgetSnapshot and restoreSnapshot of services/repository.service.ts use
-- it. A map is a function of its key. An abort controller is a number; the one that a task gets is that of
-- the call that starts it.
pub mod Cleanup
use yucca.Common.{
  ℕ, ◌==◌, Bool, true, false, ◌&&◌, ◌||◌, Option, none, some, List, String, if◌then◌else◌, ◌≡◌,
}
use yucca.Common.Monad.{Result, ok, err, Action}
use yucca.Database.{Error, internal}
use yucca.Orchestrator.{TaskType, TaskStatus}

-- `ActiveScheduleItemDto`
pub record Item : Type 0 where
  pub repository_id : ℕ
  pub status : TaskStatus

pub record Task : Type 0 where
  pub parent_id : ℕ
  pub kind : TaskType
  pub log_id : Option ℕ
  pub schedule_status : Option (List Item)

pub record Running : Type 0 where
  pub active_tasks : ℕ → Option Task
  pub controllers : ℕ → Option ℕ
  pub aborted : ℕ → Bool
  -- the controller whose signal a controller listens to
  pub listens : ℕ → Option ℕ

abbrev pub set : {A : Type 0} → ℕ → A → (ℕ → A) → ℕ → A
set k v f n = if n == k then v else f n

abbrev pub is_some : {A : Type 0} → Option A → Bool
is_some none = false
is_some (some a) = true

abbrev pub can_start : ℕ → Running → Bool
can_start parent_id s = elim (s.active_tasks parent_id) [ none ↦ true | some t ↦ false ]

unfoldable pub start_task :
    (controller parent_id : ℕ) → TaskType → (log_id signal : Option ℕ) → Running → Running
start_task controller parent_id kind log_id signal s = record {
  active_tasks =
      set parent_id
        (some
          (record { parent_id = parent_id; kind = kind; log_id = log_id; schedule_status = none }))
        s.active_tasks;
  controllers = set parent_id (some controller) s.controllers;
  aborted = set controller false s.aborted;
  listens = set controller signal s.listens;
}

-- `updateTask`
unfoldable pub update_task :
    ℕ → Option TaskType → Option ℕ → Option (List Item) → Action Error Running (Unit {0})
update_task parent_id kind log_id status s = elim (s.active_tasks parent_id) [
  | none ↦ (err (internal "Task does not exist."), s)
  | some t ↦ (
    ok tt,
    record s {
      active_tasks =
          set parent_id
            (some (record {
              parent_id = t.parent_id;
              kind = elim kind [ none ↦ t.kind | some k ↦ k ];
              log_id = elim log_id [ none ↦ t.log_id | some l ↦ some l ];
              schedule_status = elim status [ none ↦ t.schedule_status | some l ↦ some l ];
            }))
            s.active_tasks;
    },
  )
]

unfoldable pub end_task : ℕ → Running → Running
end_task parent_id s = record s {
  active_tasks = set parent_id none s.active_tasks;
  controllers = set parent_id none s.controllers;
}

abbrev pub is_child : ℕ → Option ℕ → Bool
is_child c none = false
is_child c (some p) = p == c

-- `cancelTask`: the abort reaches the signals that listen
unfoldable pub cancel_task : ℕ → Action Error Running (Unit {0})
cancel_task parent_id s = elim (s.controllers parent_id) [
  | none ↦ (err (internal "No running task"), s)
  | some c ↦
      (ok tt, record s { aborted = λ d. (d == c) || is_child c (s.listens d) || s.aborted d })
]

-- A call that runs a task: it awaits the parameters of restic before it starts its task, and ends it in a
-- `finally`.
pub data Phase : Type 0 where
  absent finished : Phase
  prepared working : (repository : ℕ) → TaskType → Phase

pub record System : Type 0 where
  pub running : Running
  pub calls : ℕ → Phase

abbrev pub no_tasks : Running
no_tasks = record {
  active_tasks = λ id. none;
  controllers = λ id. none;
  aborted = λ c. false;
  listens = λ c. none;
}

abbrev pub initial : System
initial = record { running = no_tasks; calls = λ c. absent }

abbrev pub move : ℕ → Phase → System → System
move c phase s = record s { calls = set c phase s.calls }

abbrev pub launched : ℕ → ℕ → TaskType → Option ℕ → Option ℕ → System → System
launched c id kind log_id signal s = record {
  running = start_task c id kind log_id signal s.running;
  calls = set c (working id kind) s.calls;
}

abbrev pub ended : ℕ → ℕ → System → System
ended c id s = record { running = end_task id s.running; calls = set c finished s.calls }

-- The steps between two awaits. A backup, a prune and a forget are admitted by `canStart`, a restore is not
-- asked.
pub data Step : System → System → Type 0 where
  admit :
      (s : System) (c id : ℕ) (kind : TaskType)
      → can_start id s.running ≡ true
      → s.calls c ≡ absent
      → Step s (move c (prepared id kind) s)
  admit_restore :
      (s : System) (c id : ℕ)
      → s.calls c ≡ absent
      → Step s (move c (prepared id TaskType.restore) s)
  launch :
      (s : System) (c id : ℕ) (kind : TaskType) (log_id signal : Option ℕ)
      → s.calls c ≡ prepared id kind
      → Step s (launched c id kind log_id signal s)
  fail :
      (s : System) (c id : ℕ) (kind : TaskType)
      → s.calls c ≡ prepared id kind
      → Step s (move c finished s)
  finish :
      (s : System) (c id : ℕ) (kind : TaskType)
      → s.calls c ≡ working id kind
      → Step s (ended c id s)

pub data Reachable : System → Type 0 where
  start : Reachable initial
  step : (s t : System) → Reachable s → Step s t → Reachable t
