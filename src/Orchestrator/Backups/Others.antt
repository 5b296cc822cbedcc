-- ===== src/Orchestrator/Backups/Others.antt =====
-- A backup leaves the tasks of others alone (services/repository.service.ts, createBackup).
use yucca.Common.{
  ℕ, ◌==◌, ◌≡◌, inl, inr, false, ◌||◌, not, Option, none, some, List, [], ◌∷◌, ◌++◌, any, find,
  arith, Bool-cases, Option-cases, String,
}
use yucca.Common.Monad.{
  Result, ok, err, Keeps, bind-Keeps, pure-Keeps, skip-Keeps, modify-Keeps, keeps, ◌>>=◌, ◌>>◌,
  pure,
}
use yucca.Database.{Error}
use yucca.Orchestrator.{Query, Run, TaskType, TaskStatus, RetentionPolicy}
use yucca.Orchestrator.Repositories.{Backend}
use yucca.Orchestrator.RunHistory.{
  Worker, Work, Submission, Event, publish, backup_start, insert_run, finalize, attempt, create_log,
  error_of, status_of,
}
use yucca.Orchestrator.Tasks.{Task, start_task, end_task}
use yucca.Orchestrator.Backups.{
  Restic, MetricsApi, Update, on_tables, submit, finally, begin, finish, save_metrics,
  refresh_metrics, update_local_metrics, run_forget_and_prune, prune_by, run_restic, back_up,
  backup_ended, unhandled, get_restic_parameters, create_backup,
}
use yucca.Orchestrator.Backups.Leaving.{reply-Keeps, catch-Keeps, when-Keeps}

module _ {P : Worker → Type 0} where
  finally-Keeps :
      {A : Type 0} {m : Work A} {k : Worker → Worker}
      → Keeps P m
      → ((w : Worker) → P w → P (k w))
      → Keeps P (finally m k)
  finally-Keeps {m = m} l h = record { keep = λ w p. h (m w).1 (l.keep w p) }

  attempt-Keeps : {A : Type 0} {m : Work A} → Keeps P m → Keeps P (attempt m)
  attempt-Keeps l = record { keep = λ w p. l.keep w p }

module _ (other : ℕ) (t : Option Task) where
  -- the task of the other id is the given one
  abbrev Untouched : Worker → Type 0
  Untouched w = w.running.active_tasks other ≡ t

  on_tables-Untouched : {A : Type 0} (m : Query A) → Keeps Untouched (on_tables m)
  on_tables-Untouched m = record { keep = λ w h. h }

  submit-Untouched : (s : Submission) (r : Result Error (Unit {0})) → Keeps Untouched (submit s r)
  submit-Untouched s r = record { keep = λ w h. h }

  publish-Untouched : (e : Event) → Keeps Untouched (publish e)
  unfolding publish
  publish-Untouched e = record { keep = λ w h. h }

  save_metrics-Untouched : (id : ℕ) (u : Update) → Keeps Untouched (save_metrics id u)
  unfolding save_metrics
  save_metrics-Untouched id u = record {
    keep = λ w h. elim (Bool-cases (any (λ r. r.id == id) w.tables.repositories)) [
      | inr bad ↦ ground (arith, bad, h)
      | inl known ↦ elim (Option-cases (find (λ m. m.id == id) w.tables.local_metrics)) [
        | inl gone ↦ ground (arith, known, gone, h)
        | inr (m, held) ↦ ground (arith, known, held, h)
      ]
    ];
  }

  insert_run-Untouched : (r : Run) → Keeps Untouched (insert_run r)
  unfolding insert_run
  insert_run-Untouched r = record {
    keep = λ w h.
        elim (Bool-cases (
          any (λ x. x.id == r.id) w.tables.runs
          || not (any (λ x. x.id == r.repository_id) w.tables.repositories))) [
            | inl bad ↦ ground (arith, bad, h)
            | inr fine ↦ ground (arith, fine, h)
          ];
  }

  finalize-Untouched :
      (id repository : ℕ) (status : TaskStatus) (time : ℕ)
      → Keeps Untouched (finalize id repository status time)
  unfolding finalize publish
  finalize-Untouched id repository status time = record { keep = λ w h. h }

  begin-Untouched :
      (controller id : ℕ) (kind : TaskType) (log signal : Option ℕ)
      → (other == id) ≡ false
      → Keeps Untouched (begin controller id kind log signal)
  unfolding start_task
  begin-Untouched controller id kind log signal n = record { keep = λ w h. ground (arith, n, h) }

  finish-Untouched :
      (id : ℕ) → (other == id) ≡ false → (w : Worker) → Untouched w → Untouched (finish id w)
  unfolding end_task
  finish-Untouched id n w h = ground (arith, n, h)

  unhandled-Untouched : {m : Work (Unit {0})} → Keeps Untouched m → Keeps Untouched (unhandled m)
  unhandled-Untouched l =
      catch-Keeps l
        (λ e. modify-Keeps (λ w. record w { rejected = w.rejected ++ e ∷ [] }) (λ w h. h))

  create_log-Untouched :
      (run : Run) (time : ℕ) (log_file : Result Error (Unit {0})) (fn : Work (Unit {0}))
      (callback : Option Error → Work (Unit {0}))
      → Keeps Untouched fn
      → ((e : Option Error) → Keeps Untouched (callback e))
      → Keeps Untouched (create_log run time log_file fn callback)
  unfolding create_log
  create_log-Untouched run time log_file fn callback k l =
      bind-Keeps
        (attempt-Keeps (
          bind-Keeps (reply-Keeps log_file)
            (λ u. bind-Keeps (insert_run-Untouched run) (λ v. publish-Untouched _))))
        after
    where
      after :
          (o : Result Error (Unit {0}))
          → Keeps Untouched (elim o [
            | err e ↦ (callback (some e) >> pure none)
            | ok u ↦
                (attempt fn >>= λ outcome.
                callback (error_of outcome)
                >> (finalize run.id run.repository_id (status_of outcome) time
                    >> pure (some outcome)))
          ])
      after (err e) = bind-Keeps (l (some e)) (λ u. pure-Keeps none)
      after (ok u) = bind-Keeps (attempt-Keeps k) (λ outcome.
          bind-Keeps (l (error_of outcome)) (λ v.
            bind-Keeps (finalize-Untouched run.id run.repository_id (status_of outcome) time)
              (λ x. pure-Keeps (some outcome))))

  module _ (backend : ℕ → Backend) (api : ℕ → MetricsApi) (restic : Restic) where
    get_restic_parameters-Untouched :
        (id : ℕ) → Keeps Untouched (get_restic_parameters backend api restic id)
    unfolding get_restic_parameters
    get_restic_parameters-Untouched id = search (keeps, on_tables-Untouched, reply-Keeps) depth 10

    refresh_metrics-Untouched :
        (id : ℕ) (endpoint : String) (key : ℕ) (u : Update)
        → Keeps Untouched (refresh_metrics backend api restic id endpoint key u)
    unfolding refresh_metrics
    refresh_metrics-Untouched id endpoint key u =
        search
          (
            keeps, reply-Keeps, when-Keeps, save_metrics-Untouched, publish-Untouched,
            on_tables-Untouched, submit-Untouched,
          )
          depth 14

    prune_by-Untouched :
        (endpoint : String) (key : ℕ) (policy : Option RetentionPolicy)
        → Keeps Untouched (prune_by backend api restic endpoint key policy)
    unfolding run_forget_and_prune
    prune_by-Untouched endpoint key none = skip-Keeps
    prune_by-Untouched endpoint key (some policy) = search (keeps, reply-Keeps)

    update_local_metrics-Untouched :
        (id : ℕ) (endpoint : String) (key : ℕ) (u : Update)
        → Keeps Untouched (update_local_metrics backend api restic id endpoint key u)
    unfolding update_local_metrics
    update_local_metrics-Untouched id endpoint key u =
        catch-Keeps (refresh_metrics-Untouched id endpoint key u) (λ e. skip-Keeps)

    run_restic-Untouched :
        (controller id log : ℕ) (signal : Option ℕ) (endpoint : String) (key : ℕ)
        (paths : List String)
        → (other == id) ≡ false
        → Keeps Untouched
            (run_restic backend api restic controller id log signal endpoint key paths)
    unfolding run_restic
    run_restic-Untouched controller id log signal endpoint key paths n =
        search (keeps, begin-Untouched, reply-Keeps, on_tables-Untouched, prune_by-Untouched) depth
          12

    back_up-Untouched :
        (controller id backend_id remote_id log : ℕ) (signal : Option ℕ) (endpoint : String)
        (key : ℕ) (paths : List String)
        → (other == id) ≡ false
        → Keeps Untouched (
            back_up backend api restic controller id backend_id remote_id log signal endpoint key
              paths)
    unfolding back_up
    back_up-Untouched controller id backend_id remote_id log signal endpoint key paths n =
        bind-Keeps
          (when-Keeps (api backend_id).is_metrics_capable (
            submit-Untouched (backup_start remote_id)
              ((api backend_id).submit_backup_start remote_id)))
          (λ u.
            finally-Keeps {k = finish id}
              (run_restic-Untouched controller id log signal endpoint key paths n)
              (finish-Untouched id n))

    backup_ended-Untouched :
        (id backend_id remote_id : ℕ) (endpoint : String) (key start time : ℕ) (e : Option Error)
        → Keeps Untouched
            (backup_ended backend api restic id backend_id remote_id endpoint key start time e)
    unfolding backup_ended
    backup_ended-Untouched id backend_id remote_id endpoint key start time e =
        search
          (keeps, update_local_metrics-Untouched, when-Keeps, unhandled-Untouched, submit-Untouched)
          depth 9

    -- A backup leaves the task of every other id as it is, whatever it answers.
    pub create_backup-Untouched :
        (controller log id start time : ℕ) (log_file : Result Error (Unit {0})) (signal : Option ℕ)
        → (other == id) ≡ false
        → Keeps Untouched
            (create_backup backend api restic controller log id start time log_file signal)
    unfolding create_backup
    create_backup-Untouched controller log id start time log_file signal n =
        search
          (
            keeps, on_tables-Untouched, get_restic_parameters-Untouched, create_log-Untouched,
            back_up-Untouched, backup_ended-Untouched,
          )
          depth 16
