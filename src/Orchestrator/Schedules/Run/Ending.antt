-- ===== src/Orchestrator/Schedules/Run/Ending.antt =====
-- A run of a schedule comes to its end whatever the backups do (services/schedule.service.ts, runSchedule).
use mathlib.Core.Path.{subst}
use yucca.Common.{
  ℕ, ◌==◌, ==_iff, ◌≡◌, refl, ap, sym, ◌∙◌, ◌≢◌, ◌⊎◌, inl, inr, true, false, none, some, List, [],
  ◌∷◌, ◌++◌, map, find, All, arith, Bool-cases, Option-cases, append_nil,
}
use yucca.Common.Monad.{ok, Result-cases}
use yucca.Database.{update_rows}
use yucca.Orchestrator.{TaskStatus, TaskType}
use yucca.Orchestrator.Schedules.{ScheduleRow, to_dto, schedule_update}
use yucca.Orchestrator.Schedules.Rows.{get, update_row, publish}
use yucca.Orchestrator.Schedules.Outcomes.{find-update, any-find}
use yucca.Orchestrator.Schedules.Run.{
  Agent, Run, item, pending, show, set_last_run, set_last_finished, run_item, run_items,
  run_repositories, run_schedule, nothing,
}
use yucca.Orchestrator.Tasks.{Item, start_task, update_task, end_task, is_some}

-- What a run needs of a backup of a repository that has not the id of the schedule: it leaves the task of the
-- schedule and the rows of the schedules.
pub record IsBackup {J : Type 0} (create_backup : ℕ → ℕ → Run J (Unit {0})) (id : ℕ) : Type 0 where
  pub task :
      (r signal : ℕ) (a : Agent J)
      → (id == r) ≡ false
      → is_some (a.running.active_tasks id) ≡ true
      → is_some ((create_backup r signal a).1.running.active_tasks id) ≡ true
  pub rows :
      (r signal : ℕ) (a : Agent J)
      → (create_backup r signal a).1.scheduler.schedules ≡ a.scheduler.schedules

-- the task of the schedule is there, and the rows are as before
pub record IsGoing {J : Type 0} (id : ℕ) (a a' : Agent J) : Type 0 where
  pub task : is_some (a'.running.active_tasks id) ≡ true
  pub rows : a'.scheduler.schedules ≡ a.scheduler.schedules

abbrev pub WasRun : Item → Type 0
WasRun i = i.status ≢ TaskStatus.incomplete

map-pending :
    (before : List Item) (rest : List ℕ)
    → map (λ i. i.repository_id) (before ++ pending rest)
      ≡ map (λ i. i.repository_id) before ++ rest
map-pending [] [] = refl
map-pending [] (r ∷ rest) = ap (λ t. r ∷ t) (map-pending [] rest)
map-pending (i ∷ before) rest = ap (λ t. i.repository_id ∷ t) (map-pending before rest)

map-item :
    (before : List Item) (i : Item) (rest : List ℕ)
    → map (λ i. i.repository_id) (before ++ i ∷ []) ++ rest
      ≡ map (λ i. i.repository_id) before ++ i.repository_id ∷ rest
map-item [] i rest = refl
map-item (x ∷ before) i rest = ap (λ t. x.repository_id ∷ t) (map-item before i rest)

All-append :
    (before : List Item) (i : Item) → All WasRun before → WasRun i → All WasRun (before ++ i ∷ [])
All-append [] i w n = (n, tt)
All-append (x ∷ before) i (m, w) n = (m, All-append before i w n)

module _ {J : Type 0} where
  show-IsGoing :
      (id : ℕ) (status : List Item) (a : Agent J)
      → is_some (a.running.active_tasks id) ≡ true
      → ((show id status a).0 ≡ ok tt) × IsGoing id a (show id status a).1
  unfolding update_task
  show-IsGoing id status a h = elim (Option-cases (a.running.active_tasks id)) [
    | inl bad ↦ absurd (ground (arith, h, bad))
    | inr (t, held) ↦ (
      ground (arith, held),
      record { task = ground (arith, held, ==_iff id id); rows = ground (arith, held) },
    )
  ]

  module _ (create_backup : (repository signal : ℕ) → Run J (Unit {0})) (id : ℕ)
      (good : IsBackup create_backup id) where
    run_item-IsGoing :
        (signal : ℕ) (before : List Item) (r : ℕ) (rest : List ℕ) (a : Agent J)
        → (id == r) ≡ false
        → is_some (a.running.active_tasks id) ≡ true
        → (status : TaskStatus) × ((run_item create_backup id signal before r rest a).0 ≡ ok status)
          × (status ≢ TaskStatus.incomplete)
          × IsGoing id a (run_item create_backup id signal before r rest a).1
    unfolding run_item
    run_item-IsGoing signal before r rest a ne h =
        let b = (create_backup r signal a).1 in
        let kept = good.task r signal a ne h in
        elim (Result-cases (create_backup r signal a).0) [
          | inl (u, fine) ↦
              let (done, g) =
                show-IsGoing id (before ++ item r TaskStatus.complete ∷ pending rest) b kept in
              (
                TaskStatus.complete,
                ground (arith, fine, done),
                (λ e. cc),
                record {
                  task = ground (arith, fine, done, g.task);
                  rows = ground (arith, fine, done, g.rows, good.rows r signal a);
                },
              )
          | inr (e, bad) ↦
              let (done, g) =
                show-IsGoing id (before ++ item r TaskStatus.failed ∷ pending rest) b kept in
              (
                TaskStatus.failed,
                ground (arith, bad, done),
                (λ e. cc),
                record {
                  task = ground (arith, bad, done, g.task);
                  rows = ground (arith, bad, done, g.rows, good.rows r signal a);
                },
              )
        ]

    -- what the loop has done when it ends
    pub record IsWhole (signal : ℕ) (before : List Item) (rest : List ℕ) (a : Agent J)
        : Type 0 where
      pub items : List Item
      pub result : (run_items create_backup id signal before rest a).0 ≡ ok items
      pub order : map (λ i. i.repository_id) items ≡ map (λ i. i.repository_id) before ++ rest
      pub whole :
          All WasRun items
          ⊎ ((run_items create_backup id signal before rest a).1.running.aborted signal ≡ true)
      pub going : IsGoing id a (run_items create_backup id signal before rest a).1

    pub run_items-ends :
        (signal : ℕ) (before : List Item) (rest : List ℕ) (a : Agent J)
        → All (λ r. (id == r) ≡ false) rest
        → is_some (a.running.active_tasks id) ≡ true
        → All WasRun before
        → IsWhole signal before rest a
    unfolding run_items
    run_items-ends signal before [] a ne h w = record {
      items = before;
      result = refl;
      order = sym (append_nil (map (λ i. i.repository_id) before));
      whole = inl w;
      going = record { task = h; rows = refl };
    }
    run_items-ends signal before (r ∷ rest) a (ne, nes) h w =
        elim (Bool-cases (a.running.aborted signal)) [
          | inl stop ↦
              let step : run_items create_backup id signal before (r ∷ rest) a
                  ≡ (ok (before ++ pending (r ∷ rest)), a) =
                ground (arith, stop) in
              record {
                items = before ++ pending (r ∷ rest);
                result = ap (λ t. t.0) step;
                order = map-pending before (r ∷ rest);
                whole = inr (ap (λ t. t.1.running.aborted signal) step ∙ stop);
                going =
                    subst (λ t. IsGoing id a t) (sym (ap (λ t. t.1) step))
                      (record { task = h; rows = refl });
              }
          | inr on ↦
              let (status, ran, n, g) = run_item-IsGoing signal before r rest a ne h in
              let a' = (run_item create_backup id signal before r rest a).1 in
              let before' = before ++ item r status ∷ [] in
              let step : run_items create_backup id signal before (r ∷ rest) a
                  ≡ run_items create_backup id signal before' rest a' =
                ground (arith, on, ran) in
              let later =
                run_items-ends signal before' rest a' nes g.task
                  (All-append before (item r status) w n) in
              record {
                items = later.items;
                result = ap (λ t. t.0) step ∙ later.result;
                order = later.order ∙ map-item before (item r status) rest;
                whole =
                    subst (λ t. All WasRun later.items ⊎ (t.1.running.aborted signal ≡ true))
                      (sym step) later.whole;
                going =
                    subst (λ t. IsGoing id a t.1) (sym step)
                      (record { task = later.going.task; rows = later.going.rows ∙ g.rows });
              }
        ]

    run_repositories-ends :
        (signal finished r : ℕ) (rs : List ℕ) (row : ScheduleRow) (a : Agent J)
        → All (λ r. (id == r) ≡ false) (r ∷ rs)
        → find (λ r. r.id == id) a.scheduler.schedules ≡ some row
        → ((run_repositories create_backup id signal finished (r ∷ rs) a).0 ≡ ok tt)
          × ((run_repositories create_backup id signal finished (r ∷ rs) a).1.running.active_tasks
                id
              ≡ none)
          × (find
                (λ r. r.id == id)
                (run_repositories create_backup id signal finished (r ∷ rs) a).1.scheduler.schedules
              ≡ some (set_last_finished finished row))
    unfolding run_repositories start_task end_task update_row publish
    run_repositories-ends signal finished r rs row a ne f =
        let a1 : Agent J = record a {
          running = start_task signal id TaskType.schedule none none a.running;
        } in
        let started : is_some (a1.running.active_tasks id) ≡ true = ground (arith, ==_iff id id) in
        let (shown, g) = show-IsGoing id (pending (r ∷ rs)) a1 started in
        let a2 = (show id (pending (r ∷ rs)) a1).1 in
        let run = run_items-ends signal [] (r ∷ rs) a2 ne g.task tt in
        let rows = run.going.rows ∙ g.rows in
        let f3 = ap (λ t. find (λ r. r.id == id) t) rows ∙ f in
        let a3 = (run_items create_backup id signal [] (r ∷ rs) a2).1 in
        let found =
          find-update id (set_last_finished finished) a3.scheduler.schedules row (λ r. refl) f3 in
        let known = any-find id a3.scheduler.schedules row f3 in
        (
          ground (arith, shown, run.result, known),
          ground (arith, shown, run.result, known, ==_iff id id),
          ground (arith, shown, run.result, known, found),
        )

    -- the state in which the loop begins
    abbrev begun : ℕ → Agent J → Agent J
    begun started a = record a {
      scheduler = record a.scheduler {
        schedules = update_rows (λ r. r.id == id) (set_last_run started) a.scheduler.schedules;
        published =
            a.scheduler.published
            ++ schedule_update id (record nothing { last_run = some (some started) }) ∷ [];
      };
    }

    run_schedule-start :
        (signal started finished : ℕ) (row : ScheduleRow) (r : ℕ) (rs : List ℕ) (a : Agent J)
        → find (λ r. r.id == id) a.scheduler.schedules ≡ some row
        → (to_dto a.scheduler.tables.repository_schedules row).repositories ≡ r ∷ rs
        → run_schedule create_backup true id signal started finished a
          ≡ run_repositories create_backup id signal finished (r ∷ rs) (begun started a)
    unfolding run_schedule get update_row publish
    run_schedule-start signal started finished row r rs a f e =
        ground (arith, any-find id a.scheduler.schedules row f, f, e)

    pub run_schedule-done :
        (signal started finished : ℕ) (row : ScheduleRow) (r : ℕ) (rs : List ℕ) (a : Agent J)
        → find (λ r. r.id == id) a.scheduler.schedules ≡ some row
        → (to_dto a.scheduler.tables.repository_schedules row).repositories ≡ r ∷ rs
        → All (λ r. (id == r) ≡ false) (r ∷ rs)
        → ((run_schedule create_backup true id signal started finished a).0 ≡ ok tt)
          × ((run_schedule create_backup true id signal started finished a).1.running.active_tasks
                id
              ≡ none)
          × (find
                (λ r. r.id == id)
                (run_schedule create_backup true id signal started finished a).1.scheduler.schedules
              ≡ some (set_last_finished finished (set_last_run started row)))
    run_schedule-done signal started finished row r rs a f e ne =
        let found = find-update id (set_last_run started) a.scheduler.schedules row (λ r. refl) f in
        rw (run_schedule-start signal started finished row r rs a f e) (
          run_repositories-ends signal finished r rs (set_last_run started row) (begun started a) ne
            found)
