-- ===== src/Orchestrator/Startup/Tests.antt =====
-- Starts of a concrete agent.
use yucca.Common.{◌≡◌, refl, ◌⊎◌, true, false, [], ◌∷◌, All}
use yucca.Common.Monad.{ok, err}
use yucca.Database.{Error, internal}
use yucca.Orchestrator.RunHistory.{is_incomplete}
use yucca.Orchestrator.Schedules.Registered.{IsRegistered}
use yucca.Orchestrator.Schedules.Registered.Startup.{all_parse}
use yucca.Orchestrator.Schedules.Tests.{
  Jobs, names, names-IsRegistry, parses, agent, agent-IsTracked,
}
use yucca.Orchestrator.Startup.{
  Host, Entry, encryption_key, ready, failed, not_ready, has_key, get_key, on_application_bootstrap,
  write_all, at_start, flag, confirm_key_onboarded, restored, Restored,
}
use yucca.Orchestrator.Startup.Ready.{on_application_bootstrap-cases}
use yucca.Orchestrator.Startup.Keys.{keys_after, write_all-key}

abbrev host : Host Jobs
host = record { config = []; scheduler = agent "0 1 * * *"; status = not_ready }

on_application_bootstrap-cases_example :
    ((all_parse parses host.scheduler.schedules ≡ true)
      × ((on_application_bootstrap names parses (ok tt) "k" host).status ≡ ready)
      × IsRegistered names (on_application_bootstrap names parses (ok tt) "k" host).scheduler
      × All
          (λ r. is_incomplete r ≡ false)
          (on_application_bootstrap names parses (ok tt) "k" host).scheduler.tables.runs
      × (has_key encryption_key (on_application_bootstrap names parses (ok tt) "k" host).config
          ≡ true))
    ⊎ ((all_parse parses host.scheduler.schedules ≡ false)
        × ((e : Error) × ((on_application_bootstrap names parses (ok tt) "k" host).status
              ≡ failed e)))
on_application_bootstrap-cases_example =
    on_application_bootstrap-cases names parses names-IsRegistry "k" host (refl, tt)
      (agent-IsTracked "0 1 * * *")

abbrev stored : Entry
stored = record { key = encryption_key; value = "k" }

-- a restore of a snapshot whose key is "t"
abbrev brought : Restored
brought = record {
  attached = ok tt;
  copied = ok (record stored { value = "t" } ∷ []);
  migrated = ok tt;
}

write_all-key_example :
    get_key encryption_key (
      write_all
        (at_start "r" ∷ flag confirm_key_onboarded ∷ restored brought "s" ∷ [])
        (stored ∷ []))
    ≡ keys_after
        (at_start "r" ∷ flag confirm_key_onboarded ∷ restored brought "s" ∷ [])
        (get_key encryption_key (stored ∷ []))
write_all-key_example =
    write_all-key (at_start "r" ∷ flag confirm_key_onboarded ∷ restored brought "s" ∷ [])
      (stored ∷ [])

-- After a restore whose copy fails, the next start draws another key.
lost :
    get_key encryption_key (
      write_all
        (restored (record brought { copied = err (internal "no such table") }) "s"
          ∷ at_start "r"
          ∷ [])
        (stored ∷ []))
    ≡ ok "r"
lost =
    write_all-key
      (restored (record brought { copied = err (internal "no such table") }) "s"
        ∷ at_start "r"
        ∷ [])
      (stored ∷ [])
