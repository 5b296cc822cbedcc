-- ===== src/Orchestrator/Backups/Leaving.antt =====
-- What the steps of a backup leave as it is (services/repository.service.ts, createBackup and
-- updateLocalMetrics).
use mathlib.Core.Path.{subst}
use yucca.Common.{
  ℕ, ◌==◌, ◌≡◌, ap, sym, ◌∙◌, inl, inr, Bool, true, false, Option, some, List, [], ◌∷◌, ◌++◌, any,
  find, arith, Bool-cases, Option-cases, String,
}
use yucca.Common.Monad.{
  Result, ok, Result-cases, Keeps, skip-Keeps, keeps, modify-Keeps, catch, when, skip,
}
use yucca.Database.{Error}
use yucca.Orchestrator.{Tables, Query, RepositoryRow, Run}
use yucca.Orchestrator.Repositories.{Backend, get_backend, row}
use yucca.Orchestrator.Repositories.Update.{get_row}
use yucca.Orchestrator.RunHistory.{Worker, Work, Submission, Event, publish}
use yucca.Orchestrator.Tasks.{Running}
use yucca.Orchestrator.Backups.{
  Restic, MetricsApi, Update, reply, on_tables, submit, save_metrics, refresh_metrics,
  update_local_metrics, backup_ended, unhandled,
}

-- the rows of the history and the tasks are those given
abbrev pub Same : List Run → Running → Worker → Type 0
Same runs running w = (w.tables.runs ≡ runs) × (w.running ≡ running)

module _ {P : Worker → Type 0} where
  pub reply-Keeps : {A : Type 0} (r : Result Error A) → Keeps P (reply r)
  reply-Keeps r = record { keep = λ w h. h }

  pub catch-Keeps :
      {A : Type 0} {m : Work A} {h : Error → Work A}
      → Keeps P m
      → ((e : Error) → Keeps P (h e))
      → Keeps P (catch m h)
  catch-Keeps {m = m} {h = h} k l = record {
    keep = λ w p. elim (Result-cases (m w).0) [
      | inl (a, good) ↦
          let e : (catch m h w).1 ≡ (m w).1 = ground (arith, good) in subst P (sym e) (k.keep w p)
      | inr (x, bad) ↦
          let e : (catch m h w).1 ≡ (h x (m w).1).1 = ground (arith, bad) in
          subst P (sym e) ((l x).keep (m w).1 (k.keep w p))
    ];
  }

  pub when-Keeps : (b : Bool) {m : Work (Unit {0})} → Keeps P m → Keeps P (when b m)
  when-Keeps true k = k
  when-Keeps false k = record { keep = λ w h. h }

pub find-any :
    (id : ℕ) (rows : List RepositoryRow) (r : RepositoryRow)
    → find (λ r. r.id == id) rows ≡ some r
    → any (λ r. r.id == id) rows ≡ true
find-any id [] r h = absurd (cc)
find-any id (x ∷ rows) r h = ground (arith, h, find-any id rows r)

-- a query that only reads
pub record Reads {A : Type 0} (m : Query A) : Type 0 where
  pub same : (t : Tables) → (m t).1 ≡ t

pub get_row-Reads : (id : ℕ) → Reads (get_row id)
unfolding get_row
get_row-Reads id = record {
  same = λ t. elim (Option-cases (row id t)) [
    | inl gone ↦ ground (arith, gone)
    | inr (r, held) ↦ ground (arith, held)
  ];
}

pub get_backend-Reads : (id : ℕ) → Reads (get_backend id)
unfolding get_backend
get_backend-Reads id = record {
  same = λ t. elim (Option-cases (find (λ b. b.id == id) t.backends)) [
    | inl gone ↦ ground (arith, gone)
    | inr (b, held) ↦ ground (arith, held)
  ];
}

module _ {runs : List Run} {running : Running} where
  pub submit-Keeps :
      (s : Submission) (r : Result Error (Unit {0})) → Keeps (Same runs running) (submit s r)
  submit-Keeps s r = record { keep = λ w h. h }

  pub publish-Keeps : (e : Event) → Keeps (Same runs running) (publish e)
  unfolding publish
  publish-Keeps e = record { keep = λ w h. h }

  pub on_tables-Keeps :
      {A : Type 0} (m : Query A) → Reads m → Keeps (Same runs running) (on_tables m)
  on_tables-Keeps m k = record { keep = λ w h. (ap (λ t. t.runs) (k.same w.tables) ∙ h.0, h.1) }

  pub save_metrics-Keeps : (id : ℕ) (u : Update) → Keeps (Same runs running) (save_metrics id u)
  unfolding save_metrics
  save_metrics-Keeps id u = record {
    keep = λ w h. elim (Bool-cases (any (λ r. r.id == id) w.tables.repositories)) [
      | inr bad ↦ (ground (arith, bad, h), ground (arith, bad, h))
      | inl known ↦ elim (Option-cases (find (λ m. m.id == id) w.tables.local_metrics)) [
        | inl gone ↦ (ground (arith, known, gone, h), ground (arith, known, gone, h))
        | inr (m, held) ↦ (ground (arith, known, held, h), ground (arith, known, held, h))
      ]
    ];
  }

  pub unhandled-Keeps :
      {m : Work (Unit {0})} → Keeps (Same runs running) m → Keeps (Same runs running) (unhandled m)
  unhandled-Keeps l =
      catch-Keeps l
        (λ e. modify-Keeps (λ w. record w { rejected = w.rejected ++ e ∷ [] }) (λ w h. h))

  module _ (backend : ℕ → Backend) (api : ℕ → MetricsApi) (restic : Restic) where
    pub refresh_metrics-Keeps :
        (id : ℕ) (endpoint : String) (key : ℕ) (u : Update)
        → Keeps (Same runs running) (refresh_metrics backend api restic id endpoint key u)
    unfolding refresh_metrics
    refresh_metrics-Keeps id endpoint key u =
        search
          (
            keeps, reply-Keeps, when-Keeps, save_metrics-Keeps, publish-Keeps, on_tables-Keeps,
            get_row-Reads, get_backend-Reads, submit-Keeps,
          )
          depth 14

    pub update_local_metrics-Keeps :
        (id : ℕ) (endpoint : String) (key : ℕ) (u : Update)
        → Keeps (Same runs running) (update_local_metrics backend api restic id endpoint key u)
    unfolding update_local_metrics
    update_local_metrics-Keeps id endpoint key u =
        catch-Keeps (refresh_metrics-Keeps id endpoint key u) (λ e. skip-Keeps)

    pub backup_ended-Keeps :
        (id backend_id remote_id : ℕ) (endpoint : String) (key start time : ℕ) (e : Option Error)
        → Keeps
            (Same runs running)
            (backup_ended backend api restic id backend_id remote_id endpoint key start time e)
    unfolding backup_ended
    backup_ended-Keeps id backend_id remote_id endpoint key start time e =
        search (keeps, update_local_metrics-Keeps, when-Keeps, unhandled-Keeps, submit-Keeps) depth
          9

pub catch-skip-ok : (m : Work (Unit {0})) (w : Worker) → (catch m (λ e. skip) w).0 ≡ ok tt
catch-skip-ok m w = elim (Result-cases (m w).0) [
  | inl (u, good) ↦ ground (arith, good)
  | inr (e, bad) ↦ ground (arith, bad)
]

pub unhandled-ok : (m : Work (Unit {0})) (w : Worker) → (unhandled m w).0 ≡ ok tt
unhandled-ok m w = elim (Result-cases (m w).0) [
  | inl (u, good) ↦ ground (arith, good)
  | inr (e, bad) ↦ ground (arith, bad)
]
