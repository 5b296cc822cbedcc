-- ===== src/Orchestrator/Startup/Ready.antt =====
-- What holds when the agent is ready (services/bootstrap.service.ts).
use yucca.Common.{
  ◌≡◌, refl, ◌⊎◌, inl, inr, Bool, true, false, ◌||◌, List, [], ◌∷◌, ◌++◌, All, arith, Bool-cases,
  String,
}
use yucca.Common.Monad.{ok, err}
use yucca.Database.{Error}
use yucca.Orchestrator.RunHistory.{is_incomplete}
use yucca.Orchestrator.RunHistory.Outcome.{mark_incomplete_as_failed-none}
use yucca.Orchestrator.Schedules.{Registry, IsRegistry}
use yucca.Orchestrator.Schedules.Service.{bootstrap}
use yucca.Orchestrator.Schedules.Sound.{UniqueIds}
use yucca.Orchestrator.Schedules.Registered.{IsRegistered}
use yucca.Orchestrator.Schedules.Registered.Startup.{IsTracked, all_parse, bootstrap-cases}
use yucca.Orchestrator.Startup.{
  Host, Entry, encryption_key, ready, failed, is_key, has_key, ConfigurationKey, bootstrap_config,
  mark_failed, on_application_bootstrap,
}

has-append :
    (key : ConfigurationKey) (e : Entry) (entries : List Entry)
    → has_key key (entries ++ e ∷ []) ≡ (has_key key entries || is_key key e)
has-append key e [] = ground arith
has-append key e (x ∷ entries) = ground (arith, has-append key e entries)

bootstrap_config-has :
    (random : String) (entries : List Entry)
    → has_key encryption_key (bootstrap_config random entries) ≡ true
unfolding bootstrap_config
bootstrap_config-has random entries = elim (Bool-cases (has_key encryption_key entries)) [
  | inl old ↦ ground (arith, old)
  | inr new ↦ ground (
    arith,
    new,
    has-append encryption_key (record { key = encryption_key; value = random }) entries,
  )
]

module _ {J : Type 0} (registry : Registry J) (parses : String → Bool)
    (laws : IsRegistry registry) where
  abbrev booted : String → Host J → Host J
  booted random h =
      let s = (bootstrap registry parses h.scheduler).1 in
      record {
        config = bootstrap_config random h.config;
        scheduler = record s { tables = mark_failed s.tables };
        status = ready;
      }

  boot-ready :
      (random : String) (h : Host J)
      → (bootstrap registry parses h.scheduler).0 ≡ ok tt
      → on_application_bootstrap registry parses (ok tt) random h ≡ booted random h
  unfolding on_application_bootstrap
  boot-ready random h good = ground (arith, good)

  boot-failed :
      (random : String) (h : Host J) (e : Error)
      → (bootstrap registry parses h.scheduler).0 ≡ err e
      → (on_application_bootstrap registry parses (ok tt) random h).status ≡ failed e
  unfolding on_application_bootstrap
  boot-failed random h e fails = ground (arith, fails)

  -- An agent whose migrations succeed, with no two schedules of one id, and where the names that the service
  -- remembers are those of the registered jobs, becomes ready if the cron expression of each stored schedule
  -- parses: then the jobs are exactly those of the schedules, no run is incomplete, and there is an
  -- encryption key. Else it is marked as failed.
  pub on_application_bootstrap-cases :
      (random : String) (h : Host J)
      → UniqueIds h.scheduler.schedules
      → IsTracked registry h.scheduler
      → ((all_parse parses h.scheduler.schedules ≡ true)
          × ((on_application_bootstrap registry parses (ok tt) random h).status ≡ ready)
          × IsRegistered registry
              (on_application_bootstrap registry parses (ok tt) random h).scheduler
          × All
              (λ r. is_incomplete r ≡ false)
              (on_application_bootstrap registry parses (ok tt) random h).scheduler.tables.runs
          × (has_key encryption_key
                (on_application_bootstrap registry parses (ok tt) random h).config
              ≡ true))
        ⊎ ((all_parse parses h.scheduler.schedules ≡ false)
            × ((e : Error) × ((on_application_bootstrap registry parses (ok tt) random h).status
                  ≡ failed e)))
  on_application_bootstrap-cases random h u t =
      elim (bootstrap-cases registry parses laws h.scheduler u t) [
        | inl (valid, good, same, o) ↦ inl (
          valid,
          rw (boot-ready random h good) refl,
          rw (boot-ready random h good) (record { jobs = o.jobs; names = o.names; once = o.once }),
          rw (boot-ready random h good) (
              mark_incomplete_as_failed-none (bootstrap registry parses h.scheduler).1.tables.runs),
          rw (boot-ready random h good) (bootstrap_config-has random h.config),
        )
        | inr (bad, (e, fails)) ↦ inr (bad, (e, boot-failed random h e fails))
      ]
