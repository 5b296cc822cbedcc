-- ===== src/Orchestrator/Schedules/Run/Service.antt =====
-- The run of a schedule over the backups of the service (services/schedule.service.ts, runSchedule, with
-- createBackup of services/repository.service.ts). What a backup draws is an argument, but for the id of its
-- run, which is new. Its log can be made: else createBackup never answers (create_backup-unanswered in
-- Backups/Tests), and the source waits for it for ever. Nothing else happens on the agent during the run. The
-- events about runs are not kept here.
use yucca.Common.{ℕ, ◌≢◌, refl, ◌∙◌, ap, Option, none, some, []}
use yucca.Common.Monad.{Result, ok, err}
use yucca.Database.{Error, internal}
use yucca.Orchestrator.Repositories.{Backend}
use yucca.Orchestrator.RunHistory.{Worker}
use yucca.Orchestrator.Tasks.{is_some}
use yucca.Orchestrator.Backups.{Restic, MetricsApi, create_backup}
use yucca.Orchestrator.Backups.Answered.{new_id, new_id-fresh, create_backup-answers}
use yucca.Orchestrator.Backups.Others.{create_backup-Untouched}
use yucca.Orchestrator.Schedules.Run.{Agent, Run}
use yucca.Orchestrator.Schedules.Run.Ending.{IsBackup}

-- what a backup draws: its abort controller, and the times of its start and its end
pub record Drawn : Type 0 where
  pub controller : ℕ
  pub start : ℕ
  pub time : ℕ

abbrev pub worker : {J : Type 0} → Agent J → Worker
worker a = record {
  tables = a.scheduler.tables;
  running = a.running;
  published = [];
  submitted = [];
  rejected = [];
}

-- the end of the promise of a backup, which always answers here (`await_backup-answers`)
abbrev pub awaited : Result Error (Option (Result Error (Unit {0}))) → Result Error (Unit {0})
awaited (err e) = err e
awaited (ok none) = err (internal "unanswered")
awaited (ok (some r)) = r

module _ {J : Type 0} (backend : ℕ → Backend) (api : ℕ → MetricsApi) (restic : Restic)
    (drawn : ℕ → Agent J → Drawn) where
  -- `const { task } = await createBackup(repositoryId, scheduleSignal); await task`
  unfoldable pub await_backup : (repository signal : ℕ) → Run J (Unit {0})
  await_backup r signal a =
      let d = drawn r a in
      let (x, w) =
        create_backup backend api restic d.controller (new_id a.scheduler.tables.runs) r d.start
          d.time (ok tt) (some signal) (worker a) in
      (
        awaited x,
        record { scheduler = record a.scheduler { tables = w.tables }; running = w.running },
      )

  -- The backup that is awaited answers, be it by an error.
  await_backup-answers :
      (r signal : ℕ) (a : Agent J)
      → let d = drawn r a in
        (create_backup backend api restic d.controller
          (new_id a.scheduler.tables.runs)
          r
          d.start
          d.time
          (ok tt)
          (some signal)
          (worker a)).0
        ≢ ok none
  await_backup-answers r signal a =
      let d = drawn r a in
      create_backup-answers backend api restic d.controller (new_id a.scheduler.tables.runs) r
        d.start d.time (some signal) (worker a) (new_id-fresh a.scheduler.tables.runs)

  pub await_backup-IsBackup : (id : ℕ) → IsBackup await_backup id
  unfolding await_backup
  await_backup-IsBackup id = record {
    task = λ r signal a ne h.
        let d = drawn r a in
        ap is_some (
          (create_backup-Untouched id (a.running.active_tasks id) backend api restic d.controller
              (new_id a.scheduler.tables.runs) r d.start d.time (ok tt) (some signal) ne).keep
            (worker a) refl)
        ∙ h;
    rows = λ r signal a. refl;
  }
