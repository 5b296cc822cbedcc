-- ===== src/OrchestratorUi/Schedules/Requests.antt =====
-- The list of schedules of the user interface over a sequence of requests (orchestration-ui/src/lib/services
-- /schedule.service.ts with services/schedule.service.ts of the agent).
use mathlib.Core.List.{append_assoc}
use yucca.Common.{◌≡◌, ◌≢◌, refl, sym, ap, ◌∙◌, some, List, [], ◌∷◌, ◌++◌, String, Bool, append_nil}
use yucca.Common.Monad.{ok}
use yucca.Orchestrator.Schedules.{Scheduler, Registry, Event}
use yucca.Orchestrator.Schedules.Service.{Request, restart, handle, handle_all}
use yucca.Orchestrator.Schedules.Sound.{IsSound}
use yucca.Orchestrator.Schedules.Sound.Requests.{handle-IsSound}
use yucca.OrchestratorUi.Schedules.{Cache, on_event, on_events}
use yucca.OrchestratorUi.Schedules.Following.{IsFollowed, handle-IsFollowed}

on_events-append :
    (es fs : List Event) (c : Cache) → on_events (es ++ fs) c ≡ on_events fs (on_events es c)
on_events-append [] fs c = refl
on_events-append (e ∷ es) fs c = on_events-append es fs (on_event e c)

module _ {J : Type 0} where
  IsFollowed-refl : (s : Scheduler J) → IsFollowed s s
  IsFollowed-refl s = record { events = []; published = sym (append_nil s.published); shown = refl }

  IsFollowed-trans : (s t u : Scheduler J) → IsFollowed s t → IsFollowed t u → IsFollowed s u
  IsFollowed-trans s t u f g = record {
    events = f.events ++ g.events;
    published =
        g.published
        ∙ ap (λ p. p ++ g.events) f.published
        ∙ append_assoc s.published f.events g.events;
    shown =
        on_events-append f.events g.events (some _)
        ∙ ap (λ c. on_events g.events c) f.shown
        ∙ g.shown;
  }

  module _ (registry : Registry J) (parses : String → Bool) where
    -- no request is a restart, and each succeeds where it comes
    abbrev pub Succeeds : List Request → Scheduler J → Type 0
    Succeeds [] s = Unit {0}
    Succeeds (r ∷ rs) s =
        (r ≢ restart)
        × ((handle registry parses r s).0 ≡ ok tt)
        × Succeeds rs (handle registry parses r s).1

    -- After any sequence of creations, updates and removals of schedules that each succeed, the list that the
    -- user interface had loaded before it and that it updates by the events published since is the list that
    -- the agent would now answer, if the keys of the agent's tables held before the first of them.
    pub handle_all-IsFollowed :
        (rs : List Request) (s : Scheduler J)
        → IsSound s
        → Succeeds rs s
        → IsFollowed s (handle_all registry parses rs s)
    unfolding handle_all
    handle_all-IsFollowed [] s o h = IsFollowed-refl s
    handle_all-IsFollowed (r ∷ rs) s o (n, good, later) =
        let s' = (handle registry parses r s).1 in
        IsFollowed-trans s s' (handle_all registry parses rs s')
          (handle-IsFollowed registry parses r s n o good)
          (handle_all-IsFollowed rs s' ((handle-IsSound registry parses r).keep s o) later)
