-- ===== src/OrchestratorUi/Schedules.antt =====
-- packages/yucca-sdk/orchestration-ui/src/lib/services/schedule.service.ts: the cached list of schedules and
-- the handlers of the events of the agent.
pub mod Following
pub mod Requests
use yucca.Common.{
  ℕ, ◌==◌, true, false, not, Option, none, some, List, [], ◌∷◌, ◌++◌, map, select, if◌then◌else◌,
}
use yucca.Database.{set_or}
use yucca.Orchestrator.Schedules.{
  Schedule, Partial, Event, schedule_create, schedule_update, schedule_delete,
}

abbrev pub Cache : Type 0
Cache = Option (List Schedule)

-- `{ ...entry, ...event.data.schedule }`
abbrev pub merge : Partial → Schedule → Schedule
merge p s = record {
  id = s.id;
  name = set_or p.name s.name;
  paused = set_or p.paused s.paused;
  cron = set_or p.cron s.cron;
  repositories = set_or p.repositories s.repositories;
  last_run = set_or p.last_run s.last_run;
  last_finished = set_or p.last_finished s.last_finished;
}

unfoldable pub on_schedule_create : Schedule → Cache → Cache
on_schedule_create s none = none
on_schedule_create s (some entries) = some (entries ++ s ∷ [])

unfoldable pub on_schedule_update : ℕ → Partial → Cache → Cache
on_schedule_update id p none = none
on_schedule_update id p (some entries) =
    some (map (λ entry. if entry.id == id then merge p entry else entry) entries)

unfoldable pub on_schedule_delete : ℕ → Cache → Cache
on_schedule_delete id none = none
on_schedule_delete id (some entries) = some (select (λ entry. not (entry.id == id)) entries)

abbrev pub on_event : Event → Cache → Cache
on_event (schedule_create s) = on_schedule_create s
on_event (schedule_update id p) = on_schedule_update id p
on_event (schedule_delete id) = on_schedule_delete id

abbrev pub on_events : List Event → Cache → Cache
on_events [] c = c
on_events (e ∷ es) c = on_events es (on_event e c)
