-- ===== src/Orchestrator/Schedules/Requested.antt =====
-- The update of a schedule gives it the requested repositories in the requested order
-- (services/schedule.service.ts, applyScheduleUpdate).
use yucca.Common.{
  ℕ, ◌==◌, ◌≡◌, refl, ap, ◌∙◌, ◌≢◌, Bool, true, false, some, List, find, arith, String,
}
use yucca.Common.Monad.{ok}
use yucca.Common.Sets.{Unique, nat_Eq}
use yucca.Database.{set_or}
use yucca.Orchestrator.Schedules.{
  Scheduler, ScheduleRow, Schedule, Registry, Job, UpdateDto, linked_to, to_dto, set_row,
  sets_nothing,
}
use yucca.Orchestrator.Schedules.Rows.{get, set_links}
use yucca.Orchestrator.Schedules.Links.{
  relinked, relinked-contains, relinked-Unique, relinked-others,
}
use yucca.Orchestrator.Schedules.Links.Effects.{Known, set_links-done}
use yucca.Orchestrator.Schedules.Order.{sort_by-position}
use yucca.Orchestrator.Schedules.Outcomes.{find-id, find-update, apply_schedule_update-eq}
use yucca.Orchestrator.Schedules.Service.{apply_schedule_update}

asked-sets :
    (dto : UpdateDto) (requested : List ℕ)
    → dto.repositories ≡ some requested
    → sets_nothing dto ≡ false
asked-sets dto requested asks = ground (arith, asks)

module _ {J : Type 0} (registry : Registry J) (parses : String → Bool) where
  -- An update that asks for repositories that exist, none of them twice, succeeds if the schedule exists and
  -- has a job, if its cron expression of after the update parses, and if it has no link twice. The answer has
  -- the requested repositories in the requested order, and so has the schedule when it is read afterwards;
  -- the links of other schedules stay as they are.
  pub apply_schedule_update-requested :
      (id : ℕ) (dto : UpdateDto) (requested : List ℕ) (row : ScheduleRow) (job : Job)
      (s : Scheduler J)
      → dto.repositories ≡ some requested
      → Known id requested s
      → Unique requested
      → Unique (linked_to id s.tables.repository_schedules)
      → find (λ r. r.id == id) s.schedules ≡ some row
      → registry.get_job id s.jobs ≡ some job
      → parses (set_or dto.cron row.cron) ≡ true
      → (x : Schedule) × ((apply_schedule_update registry parses id dto s).0 ≡ ok x)
        × (x.repositories ≡ requested)
        × ((get id (apply_schedule_update registry parses id dto s).1).0 ≡ ok x)
        × ((other : ℕ)
            → other ≢ id
            → linked_to other
                (apply_schedule_update registry parses id dto s).1.tables.repository_schedules
              ≡ linked_to other s.tables.repository_schedules)
  unfolding get
  apply_schedule_update-requested id dto requested row job s asks known new unique found registered
        valid =
      let links = s.tables.repository_schedules in
      let same : row.id ≡ id = find-id id s.schedules row found in
      let linked : (set_links id dto.repositories s).0 ≡ ok tt =
        ap (λ o. (set_links id o s).0) asks ∙ set_links-done id requested s known new in
      let e =
        apply_schedule_update-eq registry parses id dto row job s linked
          (asked-sets dto requested asks) found registered valid in
      let order =
        sort_by-position requested (linked_to id (relinked id (some requested) links)) new
          (relinked-Unique id requested links new unique) (relinked-contains id requested links) in
      (
        to_dto (relinked id dto.repositories links) (set_row dto row),
        ap (λ t. t.0) e,
        rw asks (rw same order),
        ground (arith, e, find-update id (set_row dto) s.schedules row (λ r. refl) found),
        (λ other n.
            ap (λ t. linked_to other t.1.tables.repository_schedules) e
            ∙ relinked-others id other dto.repositories links n),
      )
