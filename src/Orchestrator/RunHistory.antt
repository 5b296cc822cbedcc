-- ===== src/Orchestrator/RunHistory.antt =====
-- packages/yucca-sdk/orchestration-api/src/repositories/runHistory.repository.ts: the rows of the history of
-- runs. The log files are left out; whether one can be made is an argument. The life of a run is followed
-- from its start to its end.
pub mod Outcome
use yucca.Common.{
  ℕ, ◌==◌, Bool, true, false, ◌||◌, not, Option, none, some, List, [], ◌∷◌, ◌++◌, any, select,
  if◌then◌else◌,
}
use yucca.Common.Monad.{Result, ok, err, Action, pure, throw, gets, throw_if, modify, ◌>>=◌, ◌>>◌}
use yucca.Database.{Error, constraint, update_rows}
use yucca.Orchestrator.{Tables, Run, TaskStatus, TaskType, Metrics}
use yucca.Orchestrator.Tasks.{Running}

-- the events about runs, and the one about the metrics of a repository
pub data Event : Type 0 where
  run_create : Run → Event
  run_update : (id repository : ℕ) → TaskStatus → (ended : ℕ) → Event
  metrics_update : ℕ → Metrics → Event

-- what is sent to a backend that takes metrics
pub data Submission : Type 0 where
  backup_start : ℕ → Submission
  backup_end : ℕ → Bool → ℕ → Submission
  repository_size : ℕ → ℕ → Submission

pub record Worker : Type 0 where
  pub tables : Tables
  pub running : Running
  pub published : List Event
  pub submitted : List Submission
  -- the errors of promises that nothing awaits
  pub rejected : List Error

abbrev pub Work : Type 0 → Type 0
Work A = Action Error Worker A

unfoldable pub publish : Event → Work (Unit {0})
publish e = modify λ w. record w { published = w.published ++ e ∷ [] }

abbrev pub set_runs : List Run → Worker → Worker
set_runs runs w = record w { tables = record w.tables { runs = runs } }

-- the id is the primary key, the repository a foreign key
unfoldable pub insert_run : Run → Work (Unit {0})
insert_run r = do
  w ← gets (λ w. w)
  throw_if
      (any (λ x. x.id == r.id) w.tables.runs
        || not (any (λ x. x.id == r.repository_id) w.tables.repositories))
      constraint
  modify λ w. set_runs (w.tables.runs ++ r ∷ []) w

abbrev pub finished : TaskStatus → ℕ → Run → Run
finished status time r = record r { status = status; ended = some time }

unfoldable pub finalize : (id repository : ℕ) → TaskStatus → (ended : ℕ) → Work (Unit {0})
finalize id repository status time = do
  modify λ w. set_runs (update_rows (λ r. r.id == id) (finished status time) w.tables.runs) w
  publish (run_update id repository status time)

-- a promise whose end is looked at
abbrev pub attempt : {A : Type 0} → Work A → Work (Result Error A)
attempt m w = let (r, w') = m w in (ok r, w')

abbrev pub error_of : Result Error (Unit {0}) → Option Error
error_of (ok u) = none
error_of (err e) = some e

abbrev pub status_of : Result Error (Unit {0}) → TaskStatus
status_of (ok u) = TaskStatus.complete
status_of (err e) = TaskStatus.failed

-- `createLog`: the end of the promise of `fn`, which the callback passes on; `none` if `fn` is not entered
unfoldable pub create_log :
    Run
    → (ended : ℕ) → Result Error (Unit {0})
    → (fn : Work (Unit {0})) → (callback : Option Error → Work (Unit {0}))
    → Work (Option (Result Error (Unit {0})))
create_log run time log_file fn callback = do
  opened ← attempt (do (λ w. (log_file, w)); insert_run run; publish (run_create run))
  elim opened [
    | err e ↦ (do callback (some e); pure none)
    | ok u ↦ (do
      outcome ← attempt fn
      callback (error_of outcome)
      finalize run.id run.repository_id (status_of outcome) time
      pure (some outcome))
  ]

-- `getAll`
abbrev pub runs_of : ℕ → Tables → List Run
runs_of repository t = select (λ r. r.repository_id == repository) t.runs

abbrev pub is_incomplete : Run → Bool
is_incomplete r = elim r.status [ TaskStatus.incomplete ↦ true | _ ↦ false ]

abbrev pub set_failed : Run → Run
set_failed r = record r { status = TaskStatus.failed }

-- `markIncompleteAsFailed`
unfoldable pub mark_incomplete_as_failed : Work (Unit {0})
mark_incomplete_as_failed =
    modify λ w. set_runs (update_rows is_incomplete set_failed w.tables.runs) w
