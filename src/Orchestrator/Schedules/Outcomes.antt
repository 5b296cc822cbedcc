-- ===== src/Orchestrator/Schedules/Outcomes.antt =====
-- What a request on schedules that succeeds has done (services/schedule.service.ts).
use yucca.Common.{
  ℕ, ◌==◌, ==_iff, ◌≡◌, refl, ap, ◌∙◌, ◌≢◌, inl, inr, Bool, true, false, not, ◌&&◌, none, some,
  List, [], ◌∷◌, ◌++◌, any, find, map, arith, Bool-cases, Option-cases, if◌then◌else◌, String,
}
use yucca.Common.Monad.{ok, Result-cases}
use yucca.Common.Sets.{contains, nat_Eq}
use yucca.Database.{update_rows, delete_rows}
use yucca.Orchestrator.Schedules.{
  Scheduler, ScheduleRow, Schedule, Registry, Job, is_managed, only_paused, CreateDto, UpdateDto,
  schedule_create, schedule_update, schedule_delete, to_dto, whole, set_row, sets_nothing,
}
use yucca.Orchestrator.Schedules.Rows.{
  publish, create_row, get, update_row, remove_row, add_repositories, set_links,
}
use yucca.Orchestrator.Schedules.Links.{link, relinked}
use yucca.Orchestrator.Schedules.Links.Effects.{add_repositories-state, set_links-state}
use yucca.Orchestrator.Schedules.Service.{
  Request, create, update, remove, restart, handle, update_schedule, job_of, create_cron_job,
  update_cron_job, delete_cron_job, create_schedule, apply_schedule_update, remove_schedule,
}

abbrev pub new_row : ℕ → CreateDto → ScheduleRow
new_row id dto = record {
  id = id;
  name = dto.name;
  paused = false;
  cron = dto.cron;
  ordering = [];
  last_run = none;
  last_finished = none;
}

abbrev pub new_schedule : ℕ → CreateDto → Schedule
new_schedule id dto = record {
  id = id;
  name = dto.name;
  paused = false;
  cron = dto.cron;
  repositories = dto.repositories;
  last_run = none;
  last_finished = none;
}

abbrev pub with_job : ℕ → List ℕ → List ℕ
with_job id ids = if contains ids id then ids else ids ++ id ∷ []

pub find-update :
    (id : ℕ) (f : ScheduleRow → ScheduleRow) (rows : List ScheduleRow) (row : ScheduleRow)
    → ((r : ScheduleRow) → (f r).id ≡ r.id)
    → find (λ r. r.id == id) rows ≡ some row
    → find (λ r. r.id == id) (update_rows (λ r. r.id == id) f rows) ≡ some (f row)
find-update id f [] row k h = absurd (cc)
find-update id f (r ∷ rows) row k h = ground (arith, h, k r, find-update id f rows row k)

pub any-find :
    (id : ℕ) (rows : List ScheduleRow) (row : ScheduleRow)
    → find (λ r. r.id == id) rows ≡ some row
    → any (λ r. r.id == id) rows ≡ true
any-find id [] row h = absurd (cc)
any-find id (r ∷ rows) row h = ground (arith, h, any-find id rows row)

pub find-id :
    (id : ℕ) (rows : List ScheduleRow) (row : ScheduleRow)
    → find (λ r. r.id == id) rows ≡ some row
    → row.id ≡ id
find-id id [] row h = absurd (cc)
find-id id (r ∷ rows) row h = elim (Bool-cases (r.id == id)) [
  | inl same ↦
      let e : row ≡ r = ground (arith, h, same) in ap (λ t. t.id) e ∙ (==_iff r.id id).0 same
  | inr other ↦ find-id id rows row (ground (arith, other, h))
]

pub find-any :
    (id : ℕ) (rows : List ScheduleRow)
    → any (λ r. r.id == id) rows ≡ true
    → (row : ScheduleRow) × (find (λ r. r.id == id) rows ≡ some row)
find-any id [] h = absurd (cc)
find-any id (r ∷ rows) h = elim (Bool-cases (r.id == id)) [
  | inl same ↦ (r, ground (arith, same))
  | inr other ↦
      let (row, found) = find-any id rows (ground (arith, other, h)) in
      (row, ground (arith, other, found))
]

module _ {J : Type 0} (registry : Registry J) (parses : String → Bool) where
  -- the state that a creation leaves, the registry apart
  abbrev pub created : ℕ → CreateDto → J → Scheduler J → Scheduler J
  created id dto jobs s = record {
    tables = record s.tables {
      repository_schedules = s.tables.repository_schedules ++ map (link id) dto.repositories;
    };
    schedules = s.schedules ++ new_row id dto ∷ [];
    jobs = jobs;
    cron_jobs = with_job id s.cron_jobs;
    published = s.published ++ schedule_create (new_schedule id dto) ∷ [];
  }

  pub record Created (id : ℕ) (dto : CreateDto) (x : Schedule) (s : Scheduler J) : Type 0 where
    pub jobs : J
    pub answer : x ≡ new_schedule id dto
    pub fresh : any (λ r. r.id == id) s.schedules ≡ false
    pub added : registry.add_job id (job_of dto.cron false) s.jobs ≡ ok jobs
    pub after : (create_schedule registry parses id dto s).1 ≡ created id dto jobs s

  pub create_schedule-Created :
      (id : ℕ) (dto : CreateDto) (x : Schedule) (s : Scheduler J)
      → (create_schedule registry parses id dto s).0 ≡ ok x
      → Created id dto x s
  unfolding create_schedule create_row publish create_cron_job
  create_schedule-Created id dto x s h = elim (Bool-cases (any (λ r. r.id == id) s.schedules)) [
    | inl taken ↦ absurd (ground (arith, h, taken))
    | inr free ↦
        let s1 : Scheduler J = record s { schedules = s.schedules ++ new_row id dto ∷ [] } in
        elim (Result-cases (add_repositories id dto.repositories s1).0) [
          | inr (e, bad) ↦ absurd (ground (arith, h, free, bad))
          | inl (u, good) ↦
              let linked = add_repositories-state id dto.repositories s1 good in
              elim (Bool-cases (parses dto.cron)) [
                | inr bad ↦ absurd (ground (arith, h, free, good, bad))
                | inl valid ↦
                    elim (Result-cases (registry.add_job id (job_of dto.cron false) s.jobs)) [
                      | inr (e, bad) ↦ absurd (ground (arith, h, free, good, linked, valid, bad))
                      | inl (j, added) ↦ record {
                        jobs = j;
                        answer = ground (arith, h, free, good, linked, valid, added);
                        fresh = free;
                        added = added;
                        after = ground (arith, free, good, linked, valid, added);
                      }
                    ]
              ]
        ]
  ]

  -- the state that an update leaves
  abbrev pub updated : ℕ → UpdateDto → ScheduleRow → Scheduler J → Scheduler J
  updated id dto r s =
      let links = relinked id dto.repositories s.tables.repository_schedules in
      record {
        tables = record s.tables { repository_schedules = links };
        schedules = update_rows (λ r. r.id == id) (set_row dto) s.schedules;
        jobs = registry.set_job id (job_of (set_row dto r).cron (set_row dto r).paused) s.jobs;
        cron_jobs = s.cron_jobs;
        published = s.published ++ schedule_update id (whole (to_dto links (set_row dto r))) ∷ [];
      }

  pub record Updated (id : ℕ) (dto : UpdateDto) (x : Schedule) (s : Scheduler J) : Type 0 where
    pub row : ScheduleRow
    pub found : find (λ r. r.id == id) s.schedules ≡ some row
    pub answer :
        x ≡ to_dto (relinked id dto.repositories s.tables.repository_schedules) (set_row dto row)
    pub after : (apply_schedule_update registry parses id dto s).1 ≡ updated id dto row s

  pub apply_schedule_update-eq :
      (id : ℕ) (dto : UpdateDto) (row : ScheduleRow) (job : Job) (s : Scheduler J)
      → (set_links id dto.repositories s).0 ≡ ok tt
      → sets_nothing dto ≡ false
      → find (λ r. r.id == id) s.schedules ≡ some row
      → registry.get_job id s.jobs ≡ some job
      → parses (set_row dto row).cron ≡ true
      → apply_schedule_update registry parses id dto s ≡ (
        ok (to_dto (relinked id dto.repositories s.tables.repository_schedules) (set_row dto row)),
        updated id dto row s,
      )
  unfolding apply_schedule_update update_row get publish update_cron_job
  apply_schedule_update-eq id dto row job s linked sets found registered valid = ground (
    arith,
    linked,
    sets,
    set_links-state id dto.repositories s linked,
    any-find id s.schedules row found,
    find-update id (set_row dto) s.schedules row (λ r. refl) found,
    registered,
    valid,
  )

  pub apply_schedule_update-Updated :
      (id : ℕ) (dto : UpdateDto) (x : Schedule) (s : Scheduler J)
      → (apply_schedule_update registry parses id dto s).0 ≡ ok x
      → Updated id dto x s
  unfolding apply_schedule_update update_row get publish update_cron_job
  apply_schedule_update-Updated id dto x s h =
      elim (Result-cases (set_links id dto.repositories s).0) [
        | inr (e, bad) ↦ absurd (ground (arith, h, bad))
        | inl (u, linked) ↦
            let state = set_links-state id dto.repositories s linked in
            elim (Bool-cases (sets_nothing dto)) [
              | inl bad ↦ absurd (ground (arith, h, linked, bad))
              | inr sets ↦ elim (Bool-cases (any (λ r. r.id == id) s.schedules)) [
                | inr bad ↦ absurd (ground (arith, h, linked, sets, state, bad))
                | inl known ↦
                    let (row, found) = find-any id s.schedules known in
                    let found' = find-update id (set_row dto) s.schedules row (λ r. refl) found in
                    elim (Option-cases (registry.get_job id s.jobs)) [
                      | inl bad ↦
                          absurd (ground (arith, h, linked, sets, state, known, found', bad))
                      | inr (job, registered) ↦ elim (Bool-cases (parses (set_row dto row).cron)) [
                        | inr bad ↦
                            absurd (
                              ground
                                (arith, h, linked, sets, state, known, found', registered, bad))
                        | inl valid ↦
                            let e =
                              apply_schedule_update-eq id dto row job s linked sets found registered
                                valid in
                            record {
                              row = row;
                              found = found;
                              answer = ground (arith, h, e);
                              after = ap (λ t. t.1) e;
                            }
                      ]
                    ]
              ]
            ]
      ]

  -- the state that a removal leaves
  abbrev pub removed : ℕ → J → Scheduler J → Scheduler J
  removed id jobs s = record {
    tables = record s.tables {
      repository_schedules = delete_rows (λ l. l.schedule == id) s.tables.repository_schedules;
    };
    schedules = delete_rows (λ r. r.id == id) s.schedules;
    jobs = jobs;
    cron_jobs = delete_rows (λ x. x == id) s.cron_jobs;
    published = s.published ++ schedule_delete id ∷ [];
  }

  pub record Removed (id : ℕ) (s : Scheduler J) : Type 0 where
    pub jobs : J
    pub deleted : registry.delete_job id s.jobs ≡ ok jobs
    pub after : (remove_schedule registry parses id s).1 ≡ removed id jobs s

  pub remove_schedule-Removed :
      (id : ℕ) (s : Scheduler J) → (remove_schedule registry parses id s).0 ≡ ok tt → Removed id s
  unfolding remove_schedule remove_row delete_cron_job publish
  remove_schedule-Removed id s h = elim (Bool-cases (is_managed id s.tables)) [
    | inl bad ↦ absurd (ground (arith, h, bad))
    | inr free ↦ elim (Bool-cases (any (λ i. i.schedule_id == id) s.tables.integrations)) [
      | inl bad ↦ absurd (ground (arith, h, free, bad))
      | inr unused ↦ elim (Result-cases (registry.delete_job id s.jobs)) [
        | inr (e, bad) ↦ absurd (ground (arith, h, free, unused, bad))
        | inl (j, deleted) ↦ record {
          jobs = j;
          deleted = deleted;
          after = ground (arith, free, unused, deleted);
        }
      ]
    ]
  ]

  -- What the operations establish when they succeed, a request does.
  pub handle-ok :
      (P : Scheduler J → Type 0) (s : Scheduler J)
      → ((id : ℕ) (dto : CreateDto) (x : Schedule)
          → (create_schedule registry parses id dto s).0 ≡ ok x
          → P (create_schedule registry parses id dto s).1)
      → ((id : ℕ) (dto : UpdateDto) (x : Schedule)
          → (apply_schedule_update registry parses id dto s).0 ≡ ok x
          → P (apply_schedule_update registry parses id dto s).1)
      → ((id : ℕ)
          → (remove_schedule registry parses id s).0 ≡ ok tt
          → P (remove_schedule registry parses id s).1)
      → (r : Request) → r ≢ restart
      → (handle registry parses r s).0 ≡ ok tt
      → P (handle registry parses r s).1
  unfolding handle update_schedule
  handle-ok P s c u d (create id dto) n h =
      elim (Result-cases (create_schedule registry parses id dto s).0) [
        | inr (e, bad) ↦ absurd (ground (arith, h, bad))
        | inl (x, good) ↦
            let e : (handle registry parses (create id dto) s).1
                ≡ (create_schedule registry parses id dto s).1 =
              ground (arith, good) in
            rw e (c id dto x good)
      ]
  handle-ok P s c u d (update id dto) n h =
      elim (Bool-cases (is_managed id s.tables && not (only_paused dto))) [
        | inl bad ↦ absurd (ground (arith, h, bad))
        | inr free ↦ elim (Result-cases (apply_schedule_update registry parses id dto s).0) [
          | inr (e, bad) ↦ absurd (ground (arith, h, free, bad))
          | inl (x, good) ↦
              let e : (handle registry parses (update id dto) s).1
                  ≡ (apply_schedule_update registry parses id dto s).1 =
                ground (arith, free, good) in
              rw e (u id dto x good)
        ]
      ]
  handle-ok P s c u d (remove id) n h = d id h
  handle-ok P s c u d restart n h = absurd (n refl)
