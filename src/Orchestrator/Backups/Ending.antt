-- ===== src/Orchestrator/Backups/Ending.antt =====
-- A backup that is admitted comes to its end (services/repository.service.ts, createBackup).
use mathlib.Core.Path.{subst}
use yucca.Common.{
  ℕ, ◌==◌, ==_iff, ◌≡◌, refl, ap, sym, ◌∙◌, ◌⊎◌, inl, inr, true, false, Option, none, some, List,
  [], ◌∷◌, ◌++◌, ◌-◌, any, find, arith, Bool-cases, String, if◌then◌else◌,
}
use yucca.Common.Monad.{Result, ok, err, Result-cases, Keeps, skip-Keeps, keeps}
use yucca.Database.{Error}
use yucca.Orchestrator.{
  Query, RepositoryRow, BackendRow, Run, TaskStatus, TaskType, RetentionPolicy,
}
use yucca.Orchestrator.Paths.{paths_in}
use yucca.Orchestrator.Repositories.{Backend, get_backend, row}
use yucca.Orchestrator.Repositories.Update.{get_row}
use yucca.Orchestrator.RunHistory.{
  Worker, Work, Submission, backup_start, backup_end, create_log, finished, status_of, error_of,
}
use yucca.Orchestrator.RunHistory.Outcome.{entered, create_log-ends}
use yucca.Orchestrator.Tasks.{can_start, end_task}
use yucca.Orchestrator.Backups.{
  Restic, MetricsApi, Update, on_tables, submit, finally, get_restic_parameters, refresh_metrics,
  update_local_metrics, run_forget_and_prune, run_restic, prune_by, begin, finish, back_up,
  backup_ended, success_of, create_backup,
}
use yucca.Orchestrator.Backups.Leaving.{
  reply-Keeps, when-Keeps, find-any, Reads, get_row-Reads, backup_ended-Keeps, catch-skip-ok,
  unhandled-ok,
}

module _ (backend : ℕ → Backend) (api : ℕ → MetricsApi) (restic : Restic) where
  update_local_metrics-ok :
      (id : ℕ) (endpoint : String) (key : ℕ) (u : Update) (w : Worker)
      → (update_local_metrics backend api restic id endpoint key u w).0 ≡ ok tt
  unfolding update_local_metrics
  update_local_metrics-ok id endpoint key u w =
      catch-skip-ok (refresh_metrics backend api restic id endpoint key u) w

  backup_ended-ok :
      (id backend_id remote_id : ℕ) (endpoint : String) (key start time : ℕ) (e : Option Error)
      (w : Worker)
      → (backup_ended backend api restic id backend_id remote_id endpoint key start time e w).0
        ≡ ok tt
  unfolding backup_ended
  backup_ended-ok id backend_id remote_id endpoint key start time e w =
      let u : Update = record {
        size_bytes = none;
        last_backup = some time;
        last_successful_backup = if success_of e then some time else none;
        last_backup_duration = some (time - start);
      } in
      let logged = update_local_metrics-ok id endpoint key u w in
      let w' = (update_local_metrics backend api restic id endpoint key u w).1 in
      let last =
        unhandled-ok
          (submit (backup_end remote_id (success_of e) (time - start))
            ((api backend_id).submit_backup_end remote_id (success_of e) (time - start)))
          w' in
      elim (Bool-cases (api backend_id).is_metrics_capable) [
        | inl capable ↦ ground (arith, logged, capable, last)
        | inr other ↦ ground (arith, logged, other)
      ]

  abbrev History : List Run → Worker → Type 0
  History runs w = w.tables.runs ≡ runs

  read-History :
      {A : Type 0} (runs : List Run) (m : Query A) → Reads m → Keeps (History runs) (on_tables m)
  read-History runs m k = record { keep = λ w h. ap (λ t. t.runs) (k.same w.tables) ∙ h }

  begin-History :
      (runs : List Run) (controller id : ℕ) (kind : TaskType) (log signal : Option ℕ)
      → Keeps (History runs) (begin controller id kind log signal)
  begin-History runs controller id kind log signal = record { keep = λ w h. h }

  submit-History :
      (runs : List Run) (s : Submission) (r : Result Error (Unit {0}))
      → Keeps (History runs) (submit s r)
  submit-History runs s r = record { keep = λ w h. h }

  finally-History :
      (runs : List Run) (id : ℕ) {m : Work (Unit {0})}
      → Keeps (History runs) m
      → Keeps (History runs) (finally m (finish id))
  finally-History runs id k = record { keep = k.keep }

  prune_by-History :
      (runs : List Run) (endpoint : String) (key : ℕ) (policy : Option RetentionPolicy)
      → Keeps (History runs) (prune_by backend api restic endpoint key policy)
  unfolding run_forget_and_prune
  prune_by-History runs endpoint key none = skip-Keeps
  prune_by-History runs endpoint key (some policy) = search (keeps, reply-Keeps)

  run_restic-History :
      (runs : List Run) (controller id log : ℕ) (signal : Option ℕ) (endpoint : String) (key : ℕ)
      (paths : List String)
      → Keeps
          (History runs)
          (run_restic backend api restic controller id log signal endpoint key paths)
  unfolding run_restic
  run_restic-History runs controller id log signal endpoint key paths =
      search (keeps, begin-History, reply-Keeps, read-History, get_row-Reads, prune_by-History)
        depth 9

  run_restic-backed :
      (controller id log : ℕ) (signal : Option ℕ) (endpoint : String) (key : ℕ)
      (paths : List String) (w : Worker)
      → ((((run_restic backend api restic controller id log signal endpoint key paths w).0 ≡ ok tt)
            × (restic.backup endpoint key paths ≡ ok tt))
          ⊎ ((e : Error) × ((run_restic backend api restic controller id log signal endpoint key
                  paths w).0
                ≡ err e)))
  unfolding run_restic
  run_restic-backed controller id log signal endpoint key paths w =
      elim (Result-cases (restic.unlock_all endpoint key)) [
        | inr (e, bad) ↦ inr (e, ground (arith, bad))
        | inl (u, fine) ↦ elim (Result-cases (restic.backup endpoint key paths)) [
          | inr (e, bad) ↦ inr (e, ground (arith, fine, bad))
          | inl (v, backed) ↦
              elim (Result-cases
                (run_restic backend api restic controller id log signal endpoint key paths w).0) [
                  | inl (x, good) ↦ inl (good, backed)
                  | inr (e, bad) ↦ inr (e, bad)
                ]
        ]
      ]

  back_up-History :
      (runs : List Run) (controller id backend_id remote_id log : ℕ) (signal : Option ℕ)
      (endpoint : String) (key : ℕ) (paths : List String)
      → Keeps (History runs) (
          back_up backend api restic controller id backend_id remote_id log signal endpoint key
            paths)
  unfolding back_up
  back_up-History runs controller id backend_id remote_id log signal endpoint key paths =
      search (keeps, when-Keeps, submit-History, finally-History, run_restic-History) depth 9

  -- the work of a backup that is over
  record IsOver (id : ℕ) (endpoint : String) (key : ℕ) (paths : List String) (w : Worker)
      (r : Result Error (Unit {0}) × Worker) : Type 0 where
    runs : r.1.tables.runs ≡ w.tables.runs
    free : can_start id r.1.running ≡ true
    backed :
        ((r.0 ≡ ok tt) × (restic.backup endpoint key paths ≡ ok tt)) ⊎ ((e : Error) × (r.0 ≡ err e))

  finally-IsOver :
      (controller id log : ℕ) (signal : Option ℕ) (endpoint : String) (key : ℕ)
      (paths : List String) (w : Worker)
      → IsOver id endpoint key paths w (
          finally
            (run_restic backend api restic controller id log signal endpoint key paths)
            (finish id)
            w)
  unfolding end_task
  finally-IsOver controller id log signal endpoint key paths w = record {
    runs =
        (run_restic-History w.tables.runs controller id log signal endpoint key paths).keep w refl;
    free = ground (arith, ==_iff id id);
    backed = run_restic-backed controller id log signal endpoint key paths w;
  }

  back_up-IsOver :
      (controller id backend_id remote_id log : ℕ) (signal : Option ℕ) (endpoint : String) (key : ℕ)
      (paths : List String) (w : Worker)
      → can_start id w.running ≡ true
      → IsOver id endpoint key paths w (
          back_up backend api restic controller id backend_id remote_id log signal endpoint key
            paths w)
  unfolding back_up
  back_up-IsOver controller id backend_id remote_id log signal endpoint key paths w h =
      elim (Bool-cases (api backend_id).is_metrics_capable) [
        | inr other ↦
            let step : back_up backend api restic controller id backend_id remote_id log signal
                  endpoint key paths w
                ≡ finally
                    (run_restic backend api restic controller id log signal endpoint key paths)
                    (finish id) w =
              ground (arith, other) in
            subst (IsOver id endpoint key paths w) (sym step)
              (finally-IsOver controller id log signal endpoint key paths w)
        | inl capable ↦
            let w' : Worker = record w { submitted = w.submitted ++ backup_start remote_id ∷ [] } in
            elim (Result-cases ((api backend_id).submit_backup_start remote_id)) [
              | inr (e, bad) ↦
                  let step : back_up backend api restic controller id backend_id remote_id log
                        signal endpoint key paths w
                      ≡ (err e, w') =
                    ground (arith, capable, bad) in
                  subst (IsOver id endpoint key paths w) (sym step)
                    (record { runs = refl; free = h; backed = inr (e, refl) })
              | inl (u, fine) ↦
                  let o = finally-IsOver controller id log signal endpoint key paths w' in
                  let step : back_up backend api restic controller id backend_id remote_id log
                        signal endpoint key paths w
                      ≡ finally
                          (run_restic backend api restic controller id log signal endpoint key
                            paths)
                          (finish id) w' =
                    ground (arith, capable, fine) in
                  subst (IsOver id endpoint key paths w) (sym step)
                    (record { runs = o.runs; free = o.free; backed = o.backed })
            ]
      ]

  abbrev run_of : (log id start : ℕ) → Run
  run_of log id start = record {
    id = log;
    repository_id = id;
    kind = TaskType.backup;
    start = start;
    ended = none;
    status = TaskStatus.incomplete;
  }

  create_backup-admitted :
      (controller log id start time : ℕ) (log_file : Result Error (Unit {0})) (signal : Option ℕ)
      (r : RepositoryRow) (b : BackendRow) (endpoint p : String) (key : ℕ) (ps : List String)
      (w : Worker)
      → can_start id w.running ≡ true
      → row id w.tables ≡ some r
      → find (λ b. b.id == r.backend_id) w.tables.backends ≡ some b
      → (backend r.backend_id).get_restic_endpoint r.remote_id ≡ ok endpoint
      → restic.derive_encryption_key r.remote_id ≡ ok key
      → paths_in id w.tables.paths ≡ p ∷ ps
      → create_backup backend api restic controller log id start time log_file signal w
        ≡ create_log
            (run_of log id start)
            time
            log_file
            (back_up backend api restic controller id r.backend_id r.remote_id log signal endpoint
              key
              (p ∷ ps))
            (backup_ended backend api restic id r.backend_id r.remote_id endpoint key start time)
            w
  unfolding create_backup get_restic_parameters get_row get_backend
  create_backup-admitted controller log id start time log_file signal r b endpoint p key ps w free
        known at reached derived configured =
      ground (arith, free, known, at, reached, derived, configured)

  -- A backup that is admitted, for a repository that is there with its backend, with an endpoint, a key
  -- and paths, under a new id and with a log, comes to its end: the history then has its run with the time of the
  -- end, complete if its work succeeded and failed if not, no task of the repository is left, and it is
  -- complete only if restic has backed the paths of the repository up.
  pub create_backup-ends :
      (controller log id start time : ℕ) (signal : Option ℕ) (r : RepositoryRow) (b : BackendRow)
      (endpoint p : String) (key : ℕ) (ps : List String) (w : Worker)
      → can_start id w.running ≡ true
      → row id w.tables ≡ some r
      → find (λ b. b.id == r.backend_id) w.tables.backends ≡ some b
      → (backend r.backend_id).get_restic_endpoint r.remote_id ≡ ok endpoint
      → restic.derive_encryption_key r.remote_id ≡ ok key
      → paths_in id w.tables.paths ≡ p ∷ ps
      → any (λ x. x.id == log) w.tables.runs ≡ false
      → (outcome : Result Error (Unit {0})) × ((create_backup backend api restic controller log id
            start time
            (ok tt)
            signal
            w).0
          ≡ ok (some outcome))
        × ((create_backup backend api restic controller log id start time
              (ok tt)
              signal
              w).1.tables.runs
            ≡ w.tables.runs ++ finished (status_of outcome) time (run_of log id start) ∷ [])
        × (can_start id
              (create_backup backend api restic controller log id start time
                (ok tt)
                signal
                w).1.running
            ≡ true)
        × (((outcome ≡ ok tt) × (restic.backup endpoint key (p ∷ ps) ≡ ok tt))
            ⊎ ((e : Error) × (outcome ≡ err e)))
  create_backup-ends controller log id start time signal r b endpoint p key ps w free known at
        reached derived configured fresh =
      let work =
        back_up backend api restic controller id r.backend_id r.remote_id log signal endpoint key
          (p ∷ ps) in
      let after =
        backup_ended backend api restic id r.backend_id r.remote_id endpoint key start time in
      let run = run_of log id start in
      let quiet = λ (e : Option Error) (v : Worker).
        (backup_ended-Keeps {runs = v.tables.runs} {running = v.running} backend api restic id
            r.backend_id r.remote_id endpoint key start time e).keep
          v (refl, refl) in
      let begun = entered run w in
      let over =
        back_up-IsOver controller id r.backend_id r.remote_id log signal endpoint key (p ∷ ps) begun
          free in
      let ends =
        create_log-ends run time work after w fresh (find-any id w.tables.repositories r known)
          (λ v.
            (back_up-History v.tables.runs controller id r.backend_id r.remote_id log signal
                endpoint key (p ∷ ps)).keep
              v refl)
          (λ e v. (quiet e v).0)
          (λ e v. backup_ended-ok id r.backend_id r.remote_id endpoint key start time e v) in
      let admitted =
        create_backup-admitted controller log id start time (ok tt) signal r b endpoint p key ps w
          free known at reached derived configured in
      (
        (work begun).0,
        ap (λ t. t.0) admitted ∙ ends.0,
        ap (λ t. t.1.tables.runs) admitted ∙ ends.1,
        ap (λ t. can_start id t.1.running) admitted
            ∙ ap (can_start id) (ends.2 ∙ (quiet (error_of (work begun).0) (work begun).1).1)
            ∙ over.free,
        over.backed,
      )
