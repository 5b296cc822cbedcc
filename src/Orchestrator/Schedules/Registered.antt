-- ===== src/Orchestrator/Schedules/Registered.antt =====
-- The cron jobs of the agent are those of the stored schedules (services/schedule.service.ts).
pub mod Startup
use mathlib.Core.Path.{subst}
use yucca.Common.{
  ℕ, ◌==◌, ==_iff, nat_eq-ne, ◌≡◌, refl, ap, sym, ◌∙◌, ◌≢◌, inl, inr, Bool, true, false, not, ◌||◌,
  ◌&&◌, Option, none, some, List, [], ◌∷◌, ◌++◌, any, find, arith, Bool-cases, String,
  if◌then◌else◌,
}
use yucca.Common.Monad.{Result, ok, err, Result-cases}
use yucca.Common.Sets.{contains, Unique, nat_Eq}
use yucca.Common.Sets.Members.{contains-append, Unique-append}
use yucca.Database.{update_rows, delete_rows}
use yucca.Orchestrator.Schedules.{
  Scheduler, ScheduleRow, Schedule, Registry, IsRegistry, IsSetAt, Job, CreateDto, UpdateDto,
  set_row, is_managed, only_paused,
}
use yucca.Orchestrator.Schedules.Service.{
  Request, create, update, remove, restart, handle, update_schedule, job_of, create_schedule,
  apply_schedule_update, remove_schedule,
}
use yucca.Orchestrator.Schedules.Outcomes.{
  with_job, new_row, find-update, find-id, create_schedule-Created, apply_schedule_update-Updated,
  remove_schedule-Removed, handle-ok,
}
use yucca.Orchestrator.Schedules.Sound.{has, has-update, has-delete, has-append}

-- the job of a row, if there is one
abbrev pub expected : Option ScheduleRow → Option Job → Option Job
expected none other = other
expected (some r) other = some (job_of r.cron r.paused)

abbrev pub row_of : ℕ → List ScheduleRow → Option ScheduleRow
row_of id rows = find (λ r. r.id == id) rows

pub record IsRegistered {J : Type 0} (g : Registry J) (s : Scheduler J) : Type 0 where
  pub jobs : (id : ℕ) → g.get_job id s.jobs ≡ expected (row_of id s.schedules) none
  pub names : (id : ℕ) → contains s.cron_jobs id ≡ has id s.schedules
  pub once : Unique s.cron_jobs

pub contains-with_job :
    (id other : ℕ) (ids : List ℕ)
    → contains (with_job id ids) other ≡ (contains ids other || (id == other))
contains-with_job id other ids = elim (Bool-cases (contains ids id)) [
  | inl old ↦ rw old (ground (arith, old, ==_iff id other))
  | inr new ↦ rw new (contains-append ids (id ∷ []) other ∙ ground arith)
]

pub Unique-with_job : (id : ℕ) (ids : List ℕ) → Unique ids → Unique (with_job id ids)
Unique-with_job id ids u = elim (Bool-cases (contains ids id)) [
  | inl old ↦ rw old u
  | inr new ↦
      rw new (Unique-append ids (id ∷ []) u (refl, tt) (λ p h. ground (arith, h, new, ==_iff id p)))
]

contains-delete :
    (id other : ℕ) (ids : List ℕ)
    → contains (delete_rows (λ x. x == id) ids) other ≡ (contains ids other && not (other == id))
contains-delete id other [] = refl
contains-delete id other (x ∷ ids) = ground (arith, contains-delete id other ids)

Unique-delete : (id : ℕ) (ids : List ℕ) → Unique ids → Unique (delete_rows (λ x. x == id) ids)
Unique-delete id [] u = tt
Unique-delete id (x ∷ ids) (new, u) = elim (Bool-cases (x == id)) [
  | inl gone ↦ rw gone (Unique-delete id ids u)
  | inr kept ↦ rw kept (ground (arith, new, contains-delete id x ids), Unique-delete id ids u)
]

row_of-append :
    (id : ℕ) (rows : List ScheduleRow) (r : ScheduleRow)
    → has r.id rows ≡ false
    → row_of id (rows ++ r ∷ []) ≡ (if r.id == id then some r else row_of id rows)
row_of-append id [] r n = refl
row_of-append id (x ∷ rows) r n = ground (arith, n, row_of-append id rows r)

row_of-update :
    (id other : ℕ) (f : ScheduleRow → ScheduleRow) (rows : List ScheduleRow)
    → ((r : ScheduleRow) → (f r).id ≡ r.id)
    → other ≢ id
    → row_of other (update_rows (λ r. r.id == id) f rows) ≡ row_of other rows
row_of-update id other f [] k n = refl
row_of-update id other f (r ∷ rows) k n = ground (arith, n, k r, row_of-update id other f rows k n)

row_of-delete :
    (id other : ℕ) (rows : List ScheduleRow)
    → row_of other (delete_rows (λ r. r.id == id) rows)
      ≡ (if other == id then none else row_of other rows)
row_of-delete id other [] = ground arith
row_of-delete id other (r ∷ rows) = ground (arith, row_of-delete id other rows)

pub row_of-none : (id : ℕ) (rows : List ScheduleRow) → has id rows ≡ false → row_of id rows ≡ none
row_of-none id [] h = refl
row_of-none id (r ∷ rows) h = ground (arith, h, row_of-none id rows)

module _ {J : Type 0} (registry : Registry J) (parses : String → Bool)
    (laws : IsRegistry registry) where
  -- A creation that succeeds adds the job of the new schedule.
  create_schedule-IsRegistered :
      (id : ℕ) (dto : CreateDto) (x : Schedule) (s : Scheduler J)
      → IsRegistered registry s
      → (create_schedule registry parses id dto s).0 ≡ ok x
      → IsRegistered registry (create_schedule registry parses id dto s).1
  create_schedule-IsRegistered id dto x s o h =
      let c = create_schedule-Created registry parses id dto x s h in
      let free = o.jobs id ∙ ap (λ t. expected t none) (row_of-none id s.schedules c.fresh) in
      let (j, added, at) = laws.add_new id (job_of dto.cron false) s.jobs free in
      let same : c.jobs ≡ j = ground (arith, c.added, added) in
      rw c.after (record {
        jobs = λ other. elim (Bool-cases (id == other)) [
          | inl e ↦ ground (
            arith,
            e,
            same,
            at.here,
            row_of-append other s.schedules (new_row id dto) c.fresh,
            ==_iff id other,
          )
          | inr n ↦ ground (
            arith,
            n,
            same,
            at.others other,
            o.jobs other,
            row_of-append other s.schedules (new_row id dto) c.fresh,
          )
        ];
        names = λ other. ground (
          arith,
          contains-with_job id other s.cron_jobs,
          o.names other,
          has-append other s.schedules (new_row id dto),
        );
        once = Unique-with_job id s.cron_jobs o.once;
      })

  -- An update that succeeds sets the job of the schedule.
  apply_schedule_update-IsRegistered :
      (id : ℕ) (dto : UpdateDto) (x : Schedule) (s : Scheduler J)
      → IsRegistered registry s
      → (apply_schedule_update registry parses id dto s).0 ≡ ok x
      → IsRegistered registry (apply_schedule_update registry parses id dto s).1
  apply_schedule_update-IsRegistered id dto x s o h =
      let u = apply_schedule_update-Updated registry parses id dto x s h in
      let held = o.jobs id ∙ ap (λ t. expected t none) u.found in
      let new = job_of (set_row dto u.row).cron (set_row dto u.row).paused in
      let at = laws.set_old id (job_of u.row.cron u.row.paused) new s.jobs held in
      rw u.after (record {
        jobs = λ other. elim (Bool-cases (other == id)) [
          | inl e ↦
              let same = (==_iff other id).0 e in
              subst
                (λ t.
                  registry.get_job t (registry.set_job id new s.jobs)
                  ≡ expected (row_of t (update_rows (λ r. r.id == id) (set_row dto) s.schedules))
                      none)
                (sym same)
                (at.here
                  ∙ sym (
                      ap (λ t. expected t none)
                        (find-update id (set_row dto) s.schedules u.row (λ r. refl) u.found)))
          | inr n ↦
              at.others other (nat_eq-ne other id n)
              ∙ o.jobs other
              ∙ ap (λ t. expected t none)
                  (sym (
                    row_of-update id other (set_row dto) s.schedules (λ r. refl)
                      (nat_eq-ne other id n)))
        ];
        names = λ other.
            o.names other ∙ sym (has-update id other (set_row dto) s.schedules (λ r. refl));
        once = o.once;
      })

  -- A removal that succeeds takes the job away.
  remove_schedule-IsRegistered :
      (id : ℕ) (s : Scheduler J)
      → IsRegistered registry s
      → (remove_schedule registry parses id s).0 ≡ ok tt
      → IsRegistered registry (remove_schedule registry parses id s).1
  remove_schedule-IsRegistered id s o h =
      let c = remove_schedule-Removed registry parses id s h in
      let at = laws.delete_ok id s.jobs c.jobs c.deleted in
      rw c.after (record {
        jobs = λ other. elim (Bool-cases (other == id)) [
          | inl e ↦ ground (arith, e, at.here, row_of-delete id other s.schedules, ==_iff other id)
          | inr n ↦
              ground (arith, n, at.others other, o.jobs other, row_of-delete id other s.schedules)
        ];
        names = λ other. ground (
          arith,
          o.names other,
          contains-delete id other s.cron_jobs,
          has-delete id other s.schedules,
        );
        once = Unique-delete id s.cron_jobs o.once;
      })

  -- After a request that succeeds, the jobs are again exactly those of the stored schedules: one for each,
  -- with its cron expression, running unless it is paused.
  pub handle-IsRegistered :
      (r : Request) (s : Scheduler J)
      → (r ≢ restart)
      → IsRegistered registry s
      → (handle registry parses r s).0 ≡ ok tt
      → IsRegistered registry (handle registry parses r s).1
  handle-IsRegistered r s n o h =
      handle-ok registry parses (IsRegistered registry) s
        (λ id dto x good. create_schedule-IsRegistered id dto x s o good)
        (λ id dto x good. apply_schedule_update-IsRegistered id dto x s o good)
        (λ id good. remove_schedule-IsRegistered id s o good) r n h
