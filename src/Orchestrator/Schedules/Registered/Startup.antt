-- ===== src/Orchestrator/Schedules/Registered/Startup.antt =====
-- The start of the agent makes the cron jobs anew (services/schedule.service.ts, bootstrap).
use yucca.Common.{
  ℕ, ◌==◌, ==_iff, nat_eq-ne, ◌≡◌, refl, ap, sym, ◌∙◌, ◌≢◌, ◌⊎◌, inl, inr, Bool, true, false, ◌||◌,
  ◌&&◌, Option, none, some, List, [], ◌∷◌, map, arith, Bool-cases, String,
}
use yucca.Common.Monad.{ok, err, Result-cases}
use yucca.Common.Sets.{contains, Unique, nat_Eq}
use yucca.Database.{Error}
use yucca.Orchestrator.{RepositorySchedule}
use yucca.Orchestrator.Schedules.{Scheduler, ScheduleRow, Registry, IsRegistry, Job, to_dto}
use yucca.Orchestrator.Schedules.Service.{
  job_of, create_cron_job, delete_cron_job, delete_cron_jobs, create_cron_jobs, bootstrap,
}
use yucca.Orchestrator.Schedules.Outcomes.{with_job}
use yucca.Orchestrator.Schedules.Sound.{has, UniqueIds}
use yucca.Orchestrator.Schedules.Registered.{
  expected, row_of, IsRegistered, contains-with_job, row_of-none, Unique-with_job,
}

abbrev is_job : Option Job → Bool
is_job none = false
is_job (some j) = true

-- The names that the service remembers are those of the registered jobs.
pub record IsTracked {J : Type 0} (g : Registry J) (s : Scheduler J) : Type 0 where
  pub names : (id : ℕ) → is_job (g.get_job id s.jobs) ≡ contains s.cron_jobs id
  pub once : Unique s.cron_jobs

abbrev pub all_parse : (String → Bool) → List ScheduleRow → Bool
all_parse parses [] = true
all_parse parses (r ∷ rows) = parses r.cron && all_parse parses rows

is_job-some : (o : Option Job) → is_job o ≡ true → (j : Job) × (o ≡ some j)
is_job-some none h = absurd (cc)
is_job-some (some j) h = (j, refl)

is_job-none : (o : Option Job) → is_job o ≡ false → o ≡ none
is_job-none none h = refl
is_job-none (some j) h = absurd (cc)

module _ {J : Type 0} (registry : Registry J) (parses : String → Bool)
    (laws : IsRegistry registry) where
  record Deleted (ids : List ℕ) (s : Scheduler J) : Type 0 where
    jobs : J
    result : delete_cron_jobs registry parses ids s ≡ (ok tt, record s { jobs = jobs })
    gone : (id : ℕ) → contains ids id ≡ true → registry.get_job id jobs ≡ none
    kept :
        (id : ℕ) → contains ids id ≡ false → registry.get_job id jobs ≡ registry.get_job id s.jobs

  delete_cron_jobs-Deleted :
      (ids : List ℕ) (s : Scheduler J)
      → Unique ids
      → ((id : ℕ) → contains ids id ≡ true → is_job (registry.get_job id s.jobs) ≡ true)
      → Deleted ids s
  unfolding delete_cron_jobs delete_cron_job
  delete_cron_jobs-Deleted [] s u k = record {
    jobs = s.jobs;
    result = refl;
    gone = λ id h. absurd (ground arith);
    kept = λ id h. refl;
  }
  delete_cron_jobs-Deleted (x ∷ ids) s (new, u) k =
      let (job, held) =
        is_job-some (registry.get_job x s.jobs) (k x (ground (arith, ==_iff x x))) in
      let (j, deleted) = laws.delete_old x job s.jobs held in
      let at = laws.delete_ok x s.jobs j deleted in
      let rest =
        delete_cron_jobs-Deleted ids (record s { jobs = j }) u
          (λ id h. ground (arith, h, new, k id, at.others id, ==_iff x id, ==_iff id x)) in
      record {
        jobs = rest.jobs;
        result = ground (arith, deleted, rest.result);
        gone = λ id h. elim (Bool-cases (contains ids id)) [
          | inl later ↦ rest.gone id later
          | inr first ↦ ground (arith, h, first, rest.kept id first, at.here, ==_iff x id)
        ];
        kept = λ id h. ground (arith, h, rest.kept id, at.others id, ==_iff x id);
      }

  record Created (rows : List ScheduleRow) (links : List RepositorySchedule) (s : Scheduler J)
      : Type 0 where
    jobs : J
    names : List ℕ
    result :
        create_cron_jobs registry parses (map (to_dto links) rows) s
        ≡ (ok tt, record s { jobs = jobs; cron_jobs = names })
    held :
        (id : ℕ) → registry.get_job id jobs ≡ expected (row_of id rows) (registry.get_job id s.jobs)
    named : (id : ℕ) → contains names id ≡ (contains s.cron_jobs id || has id rows)
    once : Unique names

  create_cron_jobs-Created :
      (rows : List ScheduleRow) (links : List RepositorySchedule) (s : Scheduler J)
      → UniqueIds rows
      → ((id : ℕ) → has id rows ≡ true → registry.get_job id s.jobs ≡ none)
      → Unique s.cron_jobs
      → all_parse parses rows ≡ true
      → Created rows links s
  unfolding create_cron_jobs create_cron_job
  create_cron_jobs-Created [] links s u k n v = record {
    jobs = s.jobs;
    names = s.cron_jobs;
    result = refl;
    held = λ id. refl;
    named = λ id. ground arith;
    once = n;
  }
  create_cron_jobs-Created (r ∷ rows) links s (new, u) k n v =
      let (j, added, at) =
        laws.add_new r.id (job_of r.cron r.paused) s.jobs
          (k r.id (ground (arith, ==_iff r.id r.id))) in
      let s' : Scheduler J = record s { jobs = j; cron_jobs = with_job r.id s.cron_jobs } in
      let rest =
        create_cron_jobs-Created rows links s' u
          (λ id h. ground (arith, h, new, k id, at.others id, ==_iff id r.id, ==_iff r.id id))
          (Unique-with_job r.id s.cron_jobs n) (ground (arith, v)) in
      record {
        jobs = rest.jobs;
        names = rest.names;
        result = ground (arith, v, added, rest.result);
        held = λ id. elim (Bool-cases (r.id == id)) [
          | inl e ↦
              let same = (==_iff r.id id).0 e in
              let none_left = row_of-none id rows (ap (λ t. has t rows) (sym same) ∙ new) in
              let own = ap (λ t. registry.get_job t j) (sym same) ∙ at.here in
              ground (arith, e, rest.held id, none_left, own)
          | inr n ↦
              let other : id ≢ r.id = λ e. nat_eq-ne r.id id n (sym e) in
              ground (arith, n, rest.held id, at.others id other)
        ];
        named = λ id.
            ground (arith, rest.named id, contains-with_job r.id id s.cron_jobs, ==_iff r.id id);
        once = rest.once;
      }

  create_cron_jobs-err :
      (rows : List ScheduleRow) (links : List RepositorySchedule) (s : Scheduler J)
      → all_parse parses rows ≡ false
      → (e : Error) × ((create_cron_jobs registry parses (map (to_dto links) rows) s).0 ≡ err e)
  unfolding create_cron_jobs create_cron_job
  create_cron_jobs-err [] links s v = absurd (cc)
  create_cron_jobs-err (r ∷ rows) links s v =
      elim (Result-cases (create_cron_job registry parses r.id r.cron r.paused s).0) [
        | inr (e, bad) ↦ (e, ground (arith, bad))
        | inl (t, good) ↦ elim (Bool-cases (parses r.cron)) [
          | inr bad ↦ absurd (ground (arith, good, bad))
          | inl valid ↦
              let s' = (create_cron_job registry parses r.id r.cron r.paused s).1 in
              let (e, bad) = create_cron_jobs-err rows links s' (ground (arith, v, valid)) in
              (e, ground (arith, good, bad))
        ]
      ]

  -- A start of the agent, where the names that the service remembers are those of the registered jobs (none
  -- of either in a new process) and no two schedules have one id: if the cron expression of each stored
  -- schedule parses, it succeeds, leaves the schedules as they are, and the jobs are exactly those of the
  -- schedules; if one does not parse, it fails.
  pub bootstrap-cases :
      (s : Scheduler J)
      → UniqueIds s.schedules
      → IsTracked registry s
      → ((all_parse parses s.schedules ≡ true)
          × ((bootstrap registry parses s).0 ≡ ok tt)
          × ((bootstrap registry parses s).1.schedules ≡ s.schedules)
          × IsRegistered registry (bootstrap registry parses s).1)
        ⊎ ((all_parse parses s.schedules ≡ false)
            × ((e : Error) × ((bootstrap registry parses s).0 ≡ err e)))
  unfolding bootstrap
  bootstrap-cases s u t =
      let d = delete_cron_jobs-Deleted s.cron_jobs s t.once (λ id h. t.names id ∙ h) in
      let clear : (id : ℕ) → registry.get_job id d.jobs ≡ none = λ id.
        elim (Bool-cases (contains s.cron_jobs id)) [
          | inl old ↦ d.gone id old
          | inr new ↦ d.kept id new ∙ is_job-none (registry.get_job id s.jobs) (t.names id ∙ new)
        ] in
      let links = s.tables.repository_schedules in
      let s' : Scheduler J = record s { jobs = d.jobs; cron_jobs = [] } in
      let run : bootstrap registry parses s
          ≡ create_cron_jobs registry parses (map (to_dto links) s.schedules) s' =
        ground (arith, d.result) in
      elim (Bool-cases (all_parse parses s.schedules)) [
        | inr bad ↦
            let (e, fails) = create_cron_jobs-err s.schedules links s' bad in
            inr (bad, (e, ap (λ t. t.0) run ∙ fails))
        | inl valid ↦
            let c = create_cron_jobs-Created s.schedules links s' u (λ id h. clear id) tt valid in
            rw (run ∙ c.result) (
              inl (
                valid,
                refl,
                refl,
                record {
                  jobs = λ id. c.held id ∙ ap (expected (row_of id s.schedules)) (clear id);
                  names = c.named;
                  once = c.once;
                },
              ))
      ]
